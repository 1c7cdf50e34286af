-- ===== src/Discovery.antt =====
-- crates/rnmap-core/src/discovery.rs: the TCP ping and the ICMP ping. What the network answers is the
-- environment.
pub mod Tcp
pub mod Icmp
pub mod Agreement
pub mod Tests
use rnmap.Base.{
  ℕ, zero, suc, ◌%◌, ◌^◌, Bool, true, false, List, [], ◌∷◌, ◌++◌, Option, none, some, ◌==◌,
  if◌then◌else◌, Bytes, Result, ok, err, ◌>>=◌, map_err, Panic, out_of_range,
}
use rnmap.Text.{Text, codes}
use rnmap.Text.Number.{decimal}
use rnmap.Errors
use rnmap.Errors.{Error, ErrorKind, IoError}
use rnmap.Report.{IpAddr, v4, v6, HostState, up, down}
use rnmap.Packet.{Ipv4Addr, build_icmp_echo, strip_ipv4}
use rnmap.Connect.{Connected, connected, failed, timed_out, is_reset}

pub record DiscoveryOutcome : Type 0 where
  pub state : HostState
  pub reason : Text
  pub rtt : Option ℕ

-- The end of the ping, when no connection was made.
pub no_connection : Bool → DiscoveryOutcome
no_connection true = record { state = up; reason = codes "tcp-rst"; rtt = none }
no_connection false = record { state = down; reason = codes "no-response"; rtt = none }

module _ (network : ℕ → Connected) (clock : ℕ → ℕ) where
  -- The loop over the ports: what each connection meets, and how long it took. The last argument is
  -- `any_rst`.
  pub ping_ports : List ℕ → Bool → DiscoveryOutcome
  unfolding no_connection
  ping_ports [] any_rst = no_connection any_rst
  ping_ports (p ∷ ps) any_rst = elim (network p) [
    | connected ↦ record {
      state = up;
      reason = codes "tcp-syn-ack:" ++ decimal p;
      rtt = some (clock p);
    }
    | failed e ↦ ping_ports ps (elim (is_reset e.kind) [ true ↦ true | false ↦ any_rst ])
    | timed_out ↦ ping_ports ps any_rst
  ]

  unfoldable pub tcp_ping : List ℕ → DiscoveryOutcome
  unfolding ping_ports
  tcp_ping ports = ping_ports ports false

-- What the raw socket of an ICMP ping meets. `received` is the bytes of `sock.recv`.
pub record IcmpSocket : Type 0 where
  pub opened : Result (Unit {0}) IoError
  pub read_timeout_set : Result (Unit {0}) IoError
  pub write_timeout_set : Result (Unit {0}) IoError
  pub sent : Bytes → Result (Unit {0}) IoError
  pub received : Result Bytes IoError

-- `e.raw_os_error() == Some(libc_eperm())`.
unfoldable pub is_eperm : Option ℕ → Bool
is_eperm none = false
is_eperm (some code) = code == 1

-- The error of a raw socket that cannot be opened.
unfoldable pub open_error : Text → IoError → Error
unfolding is_eperm
open_error what e =
    if is_eperm e.raw_os_error then Error.privilege (what ++ e.message) else Error.io e

-- `e.kind() == WouldBlock || e.kind() == TimedOut`.
abbrev pub is_wait : ErrorKind → Bool
is_wait ErrorKind.connection_refused = false
is_wait ErrorKind.connection_reset = false
is_wait ErrorKind.would_block = true
is_wait ErrorKind.timed_out = true
is_wait ErrorKind.other_kind = false

-- Whether the ICMP message in the packet is an echo reply, type 0.
abbrev pub first_is_zero : Option Bytes → Bool
first_is_zero none = false
first_is_zero (some []) = false
first_is_zero (some (t ∷ rest)) = t == 0

pub is_echo_reply : Bytes → Result Bool Panic
is_echo_reply bytes = do icmp ← strip_ipv4 bytes; ok (first_is_zero icmp)

-- What is made of the answer; a panic would unwind the task, and is passed on as its own error.
pub judge : Result Bytes IoError → Result (Result Bool Error) Panic
unfolding is_echo_reply
judge (ok bytes) = do reply ← is_echo_reply bytes; ok (ok reply)
judge (err e) = ok (elim (is_wait e.kind) [ true ↦ ok false | false ↦ err (Error.io e) ])

-- The steps up to the sending of the request, for the process identifier `pid`.
pub send_request : ℕ → IcmpSocket → Result (Unit {0}) Error
unfolding open_error
send_request pid sock = do
  _ ← map_err (open_error (codes "ICMP raw socket: ")) sock.opened
  _ ← map_err Error.io sock.read_timeout_set
  _ ← map_err Error.io sock.write_timeout_set
  map_err Error.io (sock.sent (build_icmp_echo (pid % 65536) 1 (codes "rnmap")))

-- The answer is read if the request was sent.
pub after_request :
    Result (Unit {0}) Error → Result Bytes IoError → Result (Result Bool Error) Panic
unfolding judge
after_request (ok done) received = judge received
after_request (err e) received = ok (err e)

unfoldable pub icmp_v4_ping_blocking : ℕ → IcmpSocket → Result (Result Bool Error) Panic
unfolding send_request after_request
icmp_v4_ping_blocking pid sock = after_request (send_request pid sock) sock.received

-- The outcome for the answer of the blocking ping, after `ms` milliseconds.
pub icmp_outcome : ℕ → Bool → DiscoveryOutcome
icmp_outcome ms true = record { state = up; reason = codes "icmp-echo-reply"; rtt = some ms }
icmp_outcome ms false = record { state = down; reason = codes "no-icmp-reply"; rtt = none }

-- The end of the blocking task: its result, or a join error if it panicked.
pub join_task : Text → ℕ → Result (Result Bool Error) Panic → Result DiscoveryOutcome Error
unfolding icmp_outcome
join_task panic_text ms (ok (ok reply)) = ok (icmp_outcome ms reply)
join_task panic_text ms (ok (err e)) = err e
join_task panic_text ms (err p) = err (Error.other (codes "join: " ++ panic_text))

unfoldable pub icmp_ping : Text → IpAddr → ℕ → IcmpSocket → ℕ → Result DiscoveryOutcome Error
unfolding icmp_v4_ping_blocking join_task
icmp_ping panic_text (v6 segments) pid sock ms =
    err (Error.other (codes "ICMPv6 echo not implemented"))
icmp_ping panic_text (v4 ip) pid sock ms = join_task panic_text ms (icmp_v4_ping_blocking pid sock)

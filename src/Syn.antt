-- ===== src/Syn.antt =====
-- crates/rnmap-core/src/scan/syn.rs: the SYN scan of one port. The sockets, the random numbers and
-- the clock are the environment.
pub mod Loop
pub mod Scan
pub mod Port
pub mod Refused
pub mod Sent
pub mod Agreement
pub mod Tests
use rnmap.Base.{
  ℕ, zero, suc, ◌+◌, ◌-◌, max, ◌%◌, ◌^◌, Bool, true, false, not, ◌&&◌, List, [], ◌∷◌, Option, none,
  some, ◌==◌, leb, bit_and, if◌then◌else◌, Bytes, Result, ok, err, ◌>>=◌, map_err, Panic,
}
use rnmap.Text.{Text, codes}
use rnmap.Errors
use rnmap.Errors.{Error, ErrorKind, IoError}
use rnmap.Report.{IpAddr, v4, v6, PortResult, Protocol, PortState}
use rnmap.Packet.{Ipv4Addr, Segment, build_syn_packet, build_rst_packet, parse_tcp_in_ipv4}
use rnmap.Connect.{as_u64}
use rnmap.Discovery.{open_error, is_wait}
use rnmap.Timing.{Timing}

-- One round of the read loop: the clock at the deadline test and when the rest of the time is taken, the
-- setting of a read timeout, the bytes received, and the milliseconds since the start when they are
-- judged.
pub record Round : Type 0 where
  pub now : ℕ
  pub later : ℕ
  pub timeout_set : ℕ → Result (Unit {0}) IoError
  pub received : Result Bytes IoError
  pub elapsed : ℕ

-- How the scan ends, with the packets that it sent: a result, a panic, or out of fuel.
pub data End : Type 0 where
  finished : Result PortResult Error → List Bytes → End
  panicked : End
  running : End

pub result : ℕ → PortState → Text → Option ℕ → PortResult
result port state reason rtt_ms = record {
  port = port;
  protocol = Protocol.tcp;
  state = state;
  reason = reason;
  service = none;
  rtt_ms = rtt_ms;
}

-- The four numbers of a probe, and its addresses.
pub record Probe : Type 0 where
  pub src_ip : Ipv4Addr
  pub target : Ipv4Addr
  pub src_port : ℕ
  pub port : ℕ
  pub seq : ℕ

-- `flags & mask == mask`.
abbrev pub has_flags : ℕ → ℕ → Bool
has_flags flags mask = bit_and flags mask == mask

module _ (probe : Probe) (deadline rst_id : ℕ) where
  -- What a parsed segment decides. The last argument is the rest of the loop. A SYN-ACK is answered
  -- by a RST, whose sending may fail unnoticed.
  pub respond : ℕ → Option Segment → End → End
  unfolding result
  respond elapsed none rest = rest
  respond elapsed (some s) rest =
      if s.sp == probe.port && s.dp == probe.src_port
      then (if has_flags s.flags 0x12
          then finished
              (ok (result probe.port PortState.open_port (codes "syn-ack") (some (as_u64 elapsed))))
              (build_rst_packet rst_id probe.src_ip probe.target probe.src_port probe.port s.ack
                ∷ [])
          else if has_flags s.flags 0x04
          then finished
              (ok (result probe.port PortState.closed (codes "rst") (some (as_u64 elapsed)))) []
          else rest)
      else rest

  -- What is made of the parse of one packet.
  pub consider : ℕ → Result (Option Segment) Panic → End → End
  unfolding respond
  consider elapsed (ok segment) rest = respond elapsed segment rest
  consider elapsed (err p) rest = panicked

  -- What is made of one read.
  unfoldable pub receive : ℕ → Result Bytes IoError → End → End
  unfolding consider
  receive elapsed (ok bytes) rest =
      consider elapsed (parse_tcp_in_ipv4 bytes probe.target probe.src_ip) rest
  receive elapsed (err e) rest = elim (is_wait e.kind) [
    | true ↦ rest
    | false ↦ finished (err (Error.io e)) []
  ]

  -- One round, with the rest of the loop.
  unfoldable pub round : Round → End → End
  unfolding receive
  round r rest =
      if leb deadline r.now
      then finished (ok (result probe.port PortState.filtered (codes "no-response") none)) []
      else elim (r.timeout_set (max (deadline - r.later) 50)) [
        | err e ↦ finished (err (Error.io e)) []
        | ok done ↦ receive r.elapsed r.received rest
      ]

  -- The loop, on fuel, from the round of number `n`.
  unfoldable pub loop : (ℕ → Round) → ℕ → ℕ → End
  unfolding round
  loop rounds zero n = running
  loop rounds (suc fuel) n = let rest = loop rounds fuel (n + 1) in round (rounds n) rest

-- `pick_source_ipv4_for`, by what the UDP socket meets.
pub record UdpProbe : Type 0 where
  pub bound : Result (Unit {0}) IoError
  pub joined : Result (Unit {0}) IoError
  pub local_addr : Result IpAddr IoError

unfoldable pub only_v4 : IpAddr → Result Ipv4Addr Error
only_v4 (v4 ip) = ok ip
only_v4 (v6 segments) = err (Error.other (codes "unexpected IPv6 local addr"))

unfoldable pub pick_source_ipv4_for : UdpProbe → Result Ipv4Addr Error
unfolding only_v4
pick_source_ipv4_for udp = do
  _ ← map_err Error.io udp.bound
  _ ← map_err Error.io udp.joined
  ip ← map_err Error.io udp.local_addr
  only_v4 ip

-- What the raw socket meets before the loop.
pub record RawSocket : Type 0 where
  pub opened : Result (Unit {0}) IoError
  pub header_included : Result (Unit {0}) IoError
  pub read_timeout_set : Result (Unit {0}) IoError
  pub write_timeout_set : Result (Unit {0}) IoError
  pub sent : Bytes → Result (Unit {0}) IoError

-- The random numbers that are drawn.
pub record Random : Type 0 where
  pub src_port : ℕ
  pub seq : ℕ
  pub syn_id : ℕ
  pub rst_id : ℕ

-- The steps up to the sending of the SYN, which give the probe and its packet.
unfoldable pub launch : Ipv4Addr → ℕ → UdpProbe → RawSocket → Random → Result (Probe × Bytes) Error
unfolding open_error
launch target port udp sock random = do
  src_ip ← pick_source_ipv4_for udp
  _ ← map_err (open_error (codes "raw TCP socket: ")) sock.opened
  _ ← map_err Error.io sock.header_included
  _ ← map_err Error.io sock.read_timeout_set
  _ ← map_err Error.io sock.write_timeout_set
  let pkt = build_syn_packet random.syn_id src_ip target random.src_port port random.seq
  _ ← map_err Error.io (sock.sent pkt)
  ok (
    record {
      src_ip = src_ip;
      target = target;
      src_port = random.src_port;
      port = port;
      seq = random.seq;
    },
    pkt,
  )

-- The packets of an end, with one that was sent before.
unfoldable pub sent_before : Bytes → End → End
sent_before pkt (finished r sent) = finished r (pkt ∷ sent)
sent_before pkt panicked = panicked
sent_before pkt running = running

-- The read loop, if the SYN was sent.
unfoldable pub watch : ℕ → ℕ → (ℕ → Round) → ℕ → Result (Probe × Bytes) Error → End
unfolding loop sent_before
watch deadline rst_id rounds fuel (err e) = finished (err e) []
watch deadline rst_id rounds fuel (ok (probe, pkt)) =
    sent_before pkt (loop probe deadline rst_id rounds fuel 0)

-- `scan_blocking`, with fuel for the read loop. The deadline is measured from `started`.
unfoldable pub scan_blocking :
    Ipv4Addr → ℕ → Timing → UdpProbe → RawSocket → Random → ℕ → (ℕ → Round) → ℕ → End
unfolding launch watch
scan_blocking target port timing udp sock random started rounds fuel =
    watch (started + timing.connect_timeout) random.rst_id rounds fuel
      (launch target port udp sock random)

-- ===== src/Syn/Port.antt =====
-- The results of a SYN scan are about the port that was asked for, and name no service.
use rnmap.Base.{
  max, ◌-◌, ℕ, zero, suc, ◌+◌, ◌≡◌, refl, Bool, true, false, [], Option, none, some, leb, Bytes,
  Result, ok, err, Bool-cases, inl, inr, ◌==◌, ◌&&◌, Panic, ◌>>=◌, map_err,
}
use mathlib.Core.Path.{subst}
use rnmap.Text.{codes}
use rnmap.Errors.{Error, IoError}
use rnmap.Packet.{Ipv4Addr, Segment, parse_tcp_in_ipv4, build_syn_packet}
use rnmap.Discovery.{is_wait, open_error}
use rnmap.Timing.{Timing}
use rnmap.Report.Behaviour.{IsFresh}
use rnmap.Syn.{
  Round, End, finished, panicked, running, result, Probe, has_flags, respond, consider, receive,
  round, loop, UdpProbe, RawSocket, Random, launch, watch, sent_before, scan_blocking,
  pick_source_ipv4_for,
}

-- A result of the end is about the port, and names no service.
abbrev pub IsOf : ℕ → End → Type 0
IsOf port (finished (ok r) sent) = IsFresh port r
IsOf port (finished (err e) sent) = Unit
IsOf port panicked = Unit
IsOf port running = Unit

module _ (probe : Probe) (deadline rst_id : ℕ) where
  respond-IsOf :
      (elapsed : ℕ) (o : Option Segment) (rest : End)
      → IsOf probe.port rest
      → IsOf probe.port (respond probe deadline rst_id elapsed o rest)
  unfolding respond result
  respond-IsOf elapsed none rest h = h
  respond-IsOf elapsed (some s) rest h =
      elim (Bool-cases (s.sp == probe.port && s.dp == probe.src_port)) [
        | inr other ↦ rw other h
        | inl ours ↦ rw ours (elim (Bool-cases (has_flags s.flags 0x12)) [
          | inl syn_ack ↦ rw syn_ack (refl, refl)
          | inr a ↦ rw a (elim (Bool-cases (has_flags s.flags 0x04)) [
            | inl rst ↦ rw rst (refl, refl)
            | inr b ↦ rw b h
          ])
        ])
      ]

  consider-IsOf :
      (elapsed : ℕ) (r : Result (Option Segment) Panic) (rest : End)
      → IsOf probe.port rest
      → IsOf probe.port (consider probe deadline rst_id elapsed r rest)
  unfolding consider
  consider-IsOf elapsed (ok o) rest h = respond-IsOf elapsed o rest h
  consider-IsOf elapsed (err p) rest h = tt

  receive-IsOf :
      (elapsed : ℕ) (r : Result Bytes IoError) (rest : End)
      → IsOf probe.port rest
      → IsOf probe.port (receive probe deadline rst_id elapsed r rest)
  unfolding receive
  receive-IsOf elapsed (ok bytes) rest h =
      consider-IsOf elapsed (parse_tcp_in_ipv4 bytes probe.target probe.src_ip) rest h
  receive-IsOf elapsed (err e) rest h = go (is_wait e.kind)
    where
      go :
          (b : Bool)
          → IsOf probe.port (elim b [ true ↦ rest | false ↦ finished (err (Error.io e)) [] ])
      go true = h
      go false = tt

  round-IsOf :
      (r : Round) (rest : End)
      → IsOf probe.port rest
      → IsOf probe.port (round probe deadline rst_id r rest)
  unfolding round result
  round-IsOf r rest h = elim (Bool-cases (leb deadline r.now)) [
    | inl late ↦ rw late (refl, refl)
    | inr early ↦ rw early (go (r.timeout_set (max (deadline - r.later) 50)))
  ]
    where
      go :
          (set : Result (Unit {0}) IoError)
          → IsOf probe.port (elim set [
            | err e ↦ finished (err (Error.io e)) []
            | ok done ↦ receive probe deadline rst_id r.elapsed r.received rest
          ])
      go (err e) = tt
      go (ok done) = receive-IsOf r.elapsed r.received rest h

  loop-IsOf :
      (rounds : ℕ → Round) (fuel n : ℕ) → IsOf probe.port (loop probe deadline rst_id rounds fuel n)
  unfolding loop
  loop-IsOf rounds zero n = tt
  loop-IsOf rounds (suc fuel) n = round-IsOf (rounds n) _ (loop-IsOf rounds fuel (n + 1))

sent_before-IsOf : (port : ℕ) (pkt : Bytes) (e : End) → IsOf port e → IsOf port (sent_before pkt e)
unfolding sent_before
sent_before-IsOf port pkt (finished (ok r) sent) h = h
sent_before-IsOf port pkt (finished (err e) sent) h = tt
sent_before-IsOf port pkt panicked h = tt
sent_before-IsOf port pkt running h = tt

-- The probe of a launch is for the port.
abbrev LaunchedFor : ℕ → Result (Probe × Bytes) Error → Type 0
LaunchedFor port (ok (probe, pkt)) = probe.port ≡ port
LaunchedFor port (err e) = Unit

bind-LaunchedFor :
    {A : Type 0} (port : ℕ) (r : Result A Error) (f : A → Result (Probe × Bytes) Error)
    → ((a : A) → LaunchedFor port (f a))
    → LaunchedFor port (r >>= f)
bind-LaunchedFor port (ok a) f h = h a
bind-LaunchedFor port (err e) f h = tt

launch-LaunchedFor :
    (target : Ipv4Addr) (port : ℕ) (udp : UdpProbe) (sock : RawSocket) (random : Random)
    → LaunchedFor port (launch target port udp sock random)
unfolding launch
launch-LaunchedFor target port udp sock random =
    bind-LaunchedFor port (pick_source_ipv4_for udp) _ λ src_ip.
      bind-LaunchedFor port (map_err (open_error (codes "raw TCP socket: ")) sock.opened) _ λ a.
        bind-LaunchedFor port (map_err Error.io sock.header_included) _ λ b.
          bind-LaunchedFor port (map_err Error.io sock.read_timeout_set) _ λ c.
            bind-LaunchedFor port (map_err Error.io sock.write_timeout_set) _ λ d.
              bind-LaunchedFor port
                (map_err Error.io (
                  sock.sent
                    (build_syn_packet random.syn_id src_ip target random.src_port port random.seq)))
                _ λ e. refl

watch-IsOf :
    (deadline rst_id : ℕ) (rounds : ℕ → Round) (fuel port : ℕ) (r : Result (Probe × Bytes) Error)
    → LaunchedFor port r
    → IsOf port (watch deadline rst_id rounds fuel r)
unfolding watch
watch-IsOf deadline rst_id rounds fuel port (err e) h = tt
watch-IsOf deadline rst_id rounds fuel port (ok (probe, pkt)) h =
    let e = loop probe deadline rst_id rounds fuel 0 in
    subst (λ p. IsOf p (sent_before pkt e)) h
      (sent_before-IsOf probe.port pkt e (loop-IsOf probe deadline rst_id rounds fuel 0))

pub scan_blocking-IsOf :
    (target : Ipv4Addr) (port : ℕ) (timing : Timing) (udp : UdpProbe) (sock : RawSocket)
    (random : Random) (started : ℕ) (rounds : ℕ → Round) (fuel : ℕ)
    → IsOf port (scan_blocking target port timing udp sock random started rounds fuel)
unfolding scan_blocking
scan_blocking-IsOf target port timing udp sock random started rounds fuel =
    watch-IsOf (started + timing.connect_timeout) random.rst_id rounds fuel port
      (launch target port udp sock random) (launch-LaunchedFor target port udp sock random)

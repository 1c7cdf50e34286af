-- ===== src/Syn/Sent.antt =====
-- The packets that a SYN scan sends: its SYN, and a RST exactly if the port is open.
use rnmap.Base.{
  max, ◌-◌, ℕ, zero, suc, ◌+◌, ◌≡◌, ◌⊎◌, refl, Bool, true, false, [], ◌∷◌, Option, none, some, leb,
  Bytes, Result, ok, err, Bool-cases, inl, inr, ◌==◌, ◌&&◌, ◌>>=◌, map_err,
}
use rnmap.Text.{codes}
use rnmap.Errors.{Error, IoError}
use rnmap.Report.{is_open}
use rnmap.Timing.{Timing}
use rnmap.Packet.{Ipv4Addr, Segment, build_syn_packet, build_rst_packet}
use rnmap.Packet.Safety.{parse_tcp_in_ipv4-segment_of}
use rnmap.Discovery.{is_wait, open_error}
use rnmap.Syn.{
  Round, End, finished, panicked, running, result, Probe, has_flags, respond, consider, receive,
  round, loop, UdpProbe, RawSocket, Random, launch, watch, sent_before, scan_blocking,
  pick_source_ipv4_for,
}

-- What the loop sends: for an open port the RST that resets
-- the half-open connection, and otherwise nothing.
abbrev Answers : (ℕ → Bytes) → End → Type 0
Answers rst (finished (ok r) sent) =
    ((is_open r.state ≡ true) × (ack : ℕ) × (sent ≡ rst ack ∷ []))
    ⊎ ((is_open r.state ≡ false) × (sent ≡ []))
Answers rst (finished (err e) sent) = sent ≡ []
Answers rst panicked = ⊥
Answers rst running = Unit

-- What the whole scan sends. A scan that fails has sent its SYN or nothing.
abbrev pub Sends : Bytes → (ℕ → Bytes) → End → Type 0
Sends syn rst (finished (ok r) sent) =
    ((is_open r.state ≡ true) × (ack : ℕ) × (sent ≡ syn ∷ rst ack ∷ []))
    ⊎ ((is_open r.state ≡ false) × (sent ≡ syn ∷ []))
Sends syn rst (finished (err e) sent) = (sent ≡ []) ⊎ (sent ≡ syn ∷ [])
Sends syn rst panicked = ⊥
Sends syn rst running = Unit

abbrev pub rst_of : Probe → ℕ → ℕ → Bytes
rst_of probe rst_id ack =
    build_rst_packet rst_id probe.src_ip probe.target probe.src_port probe.port ack

module _ (probe : Probe) (deadline rst_id : ℕ) where
  respond-Answers :
      (elapsed : ℕ) (o : Option Segment) (rest : End)
      → Answers (rst_of probe rst_id) rest
      → Answers (rst_of probe rst_id) (respond probe deadline rst_id elapsed o rest)
  unfolding respond result
  respond-Answers elapsed none rest h = h
  respond-Answers elapsed (some s) rest h =
      elim (Bool-cases (s.sp == probe.port && s.dp == probe.src_port)) [
        | inr other ↦ rw other h
        | inl ours ↦ rw ours (elim (Bool-cases (has_flags s.flags 0x12)) [
          | inl syn_ack ↦ rw syn_ack (inl (refl, s.ack, refl))
          | inr a ↦ rw a (elim (Bool-cases (has_flags s.flags 0x04)) [
            | inl rst ↦ rw rst (inr (refl, refl))
            | inr b ↦ rw b h
          ])
        ])
      ]

  receive-Answers :
      (elapsed : ℕ) (r : Result Bytes IoError) (rest : End)
      → Answers (rst_of probe rst_id) rest
      → Answers (rst_of probe rst_id) (receive probe deadline rst_id elapsed r rest)
  unfolding receive consider
  receive-Answers elapsed (ok bytes) rest h =
      rw (parse_tcp_in_ipv4-segment_of bytes probe.target probe.src_ip)
        (respond-Answers elapsed _ rest h)
  receive-Answers elapsed (err e) rest h = go (is_wait e.kind)
    where
      go :
          (b : Bool)
          → Answers
              (rst_of probe rst_id)
              (elim b [ true ↦ rest | false ↦ finished (err (Error.io e)) [] ])
      go true = h
      go false = refl

  round-Answers :
      (r : Round) (rest : End)
      → Answers (rst_of probe rst_id) rest
      → Answers (rst_of probe rst_id) (round probe deadline rst_id r rest)
  unfolding round result
  round-Answers r rest h = elim (Bool-cases (leb deadline r.now)) [
    | inl late ↦ rw late (inr (refl, refl))
    | inr early ↦ rw early (go (r.timeout_set (max (deadline - r.later) 50)))
  ]
    where
      go :
          (set : Result (Unit {0}) IoError)
          → Answers (rst_of probe rst_id) (elim set [
            | err e ↦ finished (err (Error.io e)) []
            | ok done ↦ receive probe deadline rst_id r.elapsed r.received rest
          ])
      go (err e) = refl
      go (ok done) = receive-Answers r.elapsed r.received rest h

  loop-Answers :
      (rounds : ℕ → Round) (fuel n : ℕ)
      → Answers (rst_of probe rst_id) (loop probe deadline rst_id rounds fuel n)
  unfolding loop
  loop-Answers rounds zero n = tt
  loop-Answers rounds (suc fuel) n = round-Answers (rounds n) _ (loop-Answers rounds fuel (n + 1))

sent_before-Sends :
    (syn : Bytes) (rst : ℕ → Bytes) (e : End) → Answers rst e → Sends syn rst (sent_before syn e)
unfolding sent_before
sent_before-Sends syn rst (finished (ok r) sent) (inl (o, ack, same)) = inl (o, ack, rw same refl)
sent_before-Sends syn rst (finished (ok r) sent) (inr (o, same)) = inr (o, rw same refl)
sent_before-Sends syn rst (finished (err e) sent) h = inr (rw h refl)
sent_before-Sends syn rst panicked h = h
sent_before-Sends syn rst running h = tt

module _ (target src_ip : Ipv4Addr) (port : ℕ) (udp : UdpProbe) (sock : RawSocket)
    (random : Random) where
  -- The probe of a scan, and its packet.
  abbrev pub probe_of : Probe
  probe_of = record {
    src_ip = src_ip;
    target = target;
    src_port = random.src_port;
    port = port;
    seq = random.seq;
  }

  abbrev pub syn_of : Bytes
  syn_of = build_syn_packet random.syn_id src_ip target random.src_port port random.seq

  abbrev Launched : Result (Probe × Bytes) Error → Type 0
  Launched (ok launched) = launched ≡ (probe_of, syn_of)
  Launched (err e) = Unit

  bind-Launched :
      {A : Type 0} (r : Result A Error) (f : A → Result (Probe × Bytes) Error)
      → ((a : A) → Launched (f a))
      → Launched (r >>= f)
  bind-Launched (ok a) f h = h a
  bind-Launched (err e) f h = tt

  launch-Launched :
      pick_source_ipv4_for udp ≡ ok src_ip → Launched (launch target port udp sock random)
  unfolding launch
  launch-Launched picked = rw picked (
      bind-Launched (map_err (open_error (codes "raw TCP socket: ")) sock.opened) _ λ a.
        bind-Launched (map_err Error.io sock.header_included) _ λ b.
          bind-Launched (map_err Error.io sock.read_timeout_set) _ λ c.
            bind-Launched (map_err Error.io sock.write_timeout_set) _
              λ d. bind-Launched (map_err Error.io (sock.sent syn_of)) _ λ e. refl)

  watch-Sends :
      (deadline : ℕ) (rounds : ℕ → Round) (fuel : ℕ) (r : Result (Probe × Bytes) Error)
      → Launched r
      → Sends syn_of (rst_of probe_of random.rst_id) (watch deadline random.rst_id rounds fuel r)
  unfolding watch
  watch-Sends deadline rounds fuel (err e) h = inl refl
  watch-Sends deadline rounds fuel (ok launched) h = rw h (
      sent_before-Sends syn_of (rst_of probe_of random.rst_id) _
        (loop-Answers probe_of deadline random.rst_id rounds fuel 0))

  -- A scan from the address that the UDP socket shows sends its SYN, and then, exactly if it reports
  -- the port open, one RST; a scan that fails has sent at most its SYN. It never panics.
  pub scan_blocking-Sends :
      (timing : Timing) (started : ℕ) (rounds : ℕ → Round) (fuel : ℕ)
      → pick_source_ipv4_for udp ≡ ok src_ip
      → Sends syn_of
          (rst_of probe_of random.rst_id)
          (scan_blocking target port timing udp sock random started rounds fuel)
  unfolding scan_blocking
  scan_blocking-Sends timing started rounds fuel picked =
      watch-Sends (started + timing.connect_timeout) rounds fuel
        (launch target port udp sock random) (launch-Launched picked)

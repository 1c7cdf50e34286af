-- ===== src/Main/NeedsRoot.antt =====
-- When the SYN scan of a port says that it needs root.
use rnmap.Base.{
  ℕ, zero, suc, ◌+◌, ◌-◌, max, ◌≡◌, refl, ◌∙◌, Bool, true, false, ◌&&◌, List, [], ◌∷◌, Option, none,
  some, leb, if◌then◌else◌, Bytes, Result, ok, err, ◌>>=◌, map_err, Bool-cases, inl, inr,
}
use rnmap.Text.{Text, codes}
use rnmap.Errors.{Error, IoError}
use rnmap.Timing.{Timing}
use rnmap.Report.{IpAddr, v4, v6}
use rnmap.Packet.{Ipv4Addr, Segment}
use rnmap.Discovery.{is_wait, is_eperm, open_error}
use rnmap.Syn.{
  Round, End, finished, panicked, running, Probe, has_flags, receive, round, loop, UdpProbe,
  RawSocket, Random, only_v4, pick_source_ipv4_for, launch, sent_before, watch, scan_blocking,
}
use rnmap.Syn.Loop.{conclude, answer, receive-conclude}
use rnmap.Cli.{Cli}
use rnmap.Host.{World}
use rnmap.Main.Messages.{Console, needs_root, fallback_message, task_messages}

-- The raw socket is opened, since the source address is known, and the system does not permit it.
abbrev pub is_denied : Result Ipv4Addr Error → Result (Unit {0}) IoError → Bool
is_denied (err e) opened = false
is_denied (ok ip) (ok done) = false
is_denied (ok ip) (err e) = is_eperm e.raw_os_error

module _ (world : World) (console : Console world.Time) (ip : IpAddr) (port : ℕ) where
  abbrev told : End → List Text
  told e = fallback_message world console ip port e

  module _ (probe : Probe) (deadline rst_id : ℕ) where
    conclude-silent :
        (elapsed : ℕ) (a : Option Segment) (rest : End)
        → told rest ≡ []
        → told (conclude probe rst_id elapsed a rest) ≡ []
    unfolding conclude
    conclude-silent elapsed none rest h = h
    conclude-silent elapsed (some s) rest h = elim (Bool-cases (has_flags s.flags 0x12)) [
      | inl syn_ack ↦ rw syn_ack (unfold fallback_message in refl)
      | inr other ↦ rw other (elim (Bool-cases (has_flags s.flags 0x04)) [
        | inl rst ↦ rw rst (unfold fallback_message in refl)
        | inr neither ↦ rw neither h
      ])
    ]

    receive-silent :
        (elapsed : ℕ) (received : Result Bytes IoError) (rest : End)
        → told rest ≡ []
        → told (receive probe deadline rst_id elapsed received rest) ≡ []
    receive-silent elapsed (ok bytes) rest h =
        rw receive-conclude (conclude-silent elapsed (answer probe bytes) rest h)
    receive-silent elapsed (err e) rest h = unfold receive fallback_message in go (is_wait e.kind)
      where
        go :
            (b : Bool) → told (elim b [ true ↦ rest | false ↦ finished (err (Error.io e)) [] ]) ≡ []
        go true = h
        go false = unfold fallback_message in refl

    round-silent :
        (r : Round) (rest : End) → told rest ≡ [] → told (round probe deadline rst_id r rest) ≡ []
    unfolding round fallback_message
    round-silent r rest h = elim (Bool-cases (leb deadline r.now)) [
      | inl late ↦ rw late refl
      | inr early ↦ rw early (go (r.timeout_set (max (deadline - r.later) 50)))
    ]
      where
        go :
            (set : Result (Unit {0}) IoError)
            → told (elim set [
              | err e ↦ finished (err (Error.io e)) []
              | ok done ↦ receive probe deadline rst_id r.elapsed r.received rest
            ])
              ≡ []
        go (err e) = refl
        go (ok done) = receive-silent r.elapsed r.received rest h

    loop-silent :
        (rounds : ℕ → Round) (fuel n : ℕ) → told (loop probe deadline rst_id rounds fuel n) ≡ []
    unfolding loop
    loop-silent rounds zero n = unfold fallback_message in refl
    loop-silent rounds (suc fuel) n = round-silent (rounds n) _ (loop-silent rounds fuel (n + 1))

  told-sent_before : (pkt : Bytes) (e : End) → told (sent_before pkt e) ≡ told e
  unfolding sent_before fallback_message
  told-sent_before pkt (finished (ok r) sent) = refl
  told-sent_before pkt (finished (err (Error.privilege why)) sent) = refl
  told-sent_before pkt (finished (err (Error.io e)) sent) = refl
  told-sent_before pkt (finished (err (Error.target a b)) sent) = refl
  told-sent_before pkt (finished (err (Error.ports a b)) sent) = refl
  told-sent_before pkt (finished (err (Error.dns a b)) sent) = refl
  told-sent_before pkt (finished (err (Error.timeout t)) sent) = refl
  told-sent_before pkt (finished (err (Error.output why)) sent) = refl
  told-sent_before pkt (finished (err (Error.other why)) sent) = refl
  told-sent_before pkt panicked = refl
  told-sent_before pkt running = refl

  module _ (deadline rst_id : ℕ) (rounds : ℕ → Round) (fuel : ℕ) where
    -- What is told after the steps up to the sending of the SYN.
    abbrev told_after : Result (Probe × Bytes) Error → List Text
    told_after r = told (watch deadline rst_id rounds fuel r)

    launched-silent : (probe : Probe) (pkt : Bytes) → told_after (ok (probe, pkt)) ≡ []
    unfolding watch
    launched-silent probe pkt =
        told-sent_before pkt _ ∙ loop-silent probe deadline rst_id rounds fuel 0

    -- A step that fails with an I/O error is not told.
    io-silent :
        {A : Type 0} (r : Result A IoError) (next : A → Result (Probe × Bytes) Error)
        → ((a : A) → told_after (next a) ≡ [])
        → told_after (map_err Error.io r >>= next) ≡ []
    io-silent (ok a) next h = h a
    io-silent (err e) next h = unfold watch fallback_message in refl

    open-told :
        (opened : Result (Unit {0}) IoError) (src : Ipv4Addr)
        (next : Unit {0} → Result (Probe × Bytes) Error)
        → ((done : Unit {0}) → told_after (next done) ≡ [])
        → told_after (map_err (open_error (codes "raw TCP socket: ")) opened >>= next)
          ≡ (if is_denied (ok src) opened then needs_root world console ip port ∷ [] else [])
    unfolding open_error
    open-told (ok done) src next h = h done
    open-told (err e) src next h = elim (Bool-cases (is_eperm e.raw_os_error)) [
      | inl denied ↦ rw denied (unfold watch fallback_message in refl)
      | inr other ↦ rw other (unfold watch fallback_message in refl)
    ]

    -- The source address is known, or its error is not told.
    abbrev IsSilent : Result Ipv4Addr Error → Type 0
    IsSilent (ok src) = Unit
    IsSilent (err e) = told (finished (err e) []) ≡ []

    io-IsSilent :
        {A : Type 0} (r : Result A IoError) (next : A → Result Ipv4Addr Error)
        → ((a : A) → IsSilent (next a))
        → IsSilent (map_err Error.io r >>= next)
    io-IsSilent (ok a) next h = h a
    io-IsSilent (err e) next h = unfold fallback_message in refl

    only_v4-IsSilent : (a : IpAddr) → IsSilent (only_v4 a)
    unfolding only_v4
    only_v4-IsSilent (v4 src) = tt
    only_v4-IsSilent (v6 segments) = unfold fallback_message in refl

    pick-IsSilent : (udp : UdpProbe) → IsSilent (pick_source_ipv4_for udp)
    unfolding pick_source_ipv4_for
    pick-IsSilent udp =
        io-IsSilent udp.bound _
          (λ b. io-IsSilent udp.joined _ (λ j. io-IsSilent udp.local_addr _ only_v4-IsSilent))

    picked-told :
        (picked : Result Ipv4Addr Error) (opened : Result (Unit {0}) IoError)
        (next : Ipv4Addr → Unit {0} → Result (Probe × Bytes) Error)
        → IsSilent picked
        → ((src : Ipv4Addr) (done : Unit {0}) → told_after (next src done) ≡ [])
        → told_after
            (picked >>= λ src. map_err (open_error (codes "raw TCP socket: ")) opened >>= next src)
          ≡ (if is_denied picked opened then needs_root world console ip port ∷ [] else [])
    picked-told (ok src) opened next quiet h = open-told opened src (next src) (h src)
    picked-told (err e) opened next quiet h = unfold watch in quiet

    launch-told :
        (target : Ipv4Addr) (udp : UdpProbe) (sock : RawSocket) (random : Random)
        → told_after (launch target port udp sock random) ≡ (
            if is_denied (pick_source_ipv4_for udp) sock.opened
            then needs_root world console ip port ∷ []
            else [])
    unfolding launch
    launch-told target udp sock random =
        picked-told (pick_source_ipv4_for udp) sock.opened _ (pick-IsSilent udp) (λ src done.
          io-silent sock.header_included _ (λ a. io-silent sock.read_timeout_set _ (λ b.
            io-silent sock.write_timeout_set _
              (λ c. io-silent (sock.sent _) _ (λ d. launched-silent _ _)))))

-- The task of an IPv4 port says that the SYN scan needs root, and that it falls back to the connect
-- scan, exactly if a SYN scan is asked for, the source address is known, and the system does not
-- permit the raw socket. It says nothing else: every other error leads to the connect scan silently,
-- and no task of a SYN scan panics.
pub task_messages-needs_root :
    (world : World) (cli : Cli) (console : Console world.Time) (timing : Timing) (k : ℕ)
    (ip : Ipv4Addr) (port : ℕ)
    → task_messages world cli console timing k (v4 ip) port ≡ (
        if cli.s_s && is_denied (pick_source_ipv4_for (world.udp k port)) (world.raw k port).opened
        then needs_root world console (v4 ip) port ∷ []
        else [])
unfolding task_messages scan_blocking
task_messages-needs_root world cli console timing k ip port = elim (Bool-cases cli.s_s) [
  | inl syn ↦ rw syn (
      launch-told world console (v4 ip) port (world.syn_started k port + timing.connect_timeout)
        (world.random k port).rst_id (world.rounds k port) (world.fuel k port) ip (world.udp k port)
        (world.raw k port) (world.random k port))
  | inr plain ↦ rw plain refl
]

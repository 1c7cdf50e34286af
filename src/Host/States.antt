-- ===== src/Host/States.antt =====
-- The states of a host's ports in its entry are those that the ports have.
use rnmap.Base.{
  ℕ, ◌+◌, ◌<◌, ◌≡◌, refl, sym, ◌∙◌, true, false, ◌⊎◌, inl, inr, List, [], ◌∷◌, ok, Bytes,
  Bool-cases, AscendingFrom,
}
use mathlib.Core.Path.{subst}
use rnmap.Timing.{Timing}
use rnmap.Report.{IpAddr, v4, v6, is_open, PortState, PortResult}
use rnmap.Report.Behaviour.{Behaviour, expected}
use rnmap.Connect.Agreement.{Meets, scan-state}
use rnmap.Syn.{Probe, launch}
use rnmap.Syn.Agreement.{Observes}
use rnmap.Cli.{Cli}
use rnmap.Host.{
  World, connect_scan, syn_scan, scan_port, scan_ports, sort_results, detect_services, port_results,
}
use rnmap.Host.Scanned.{sort_results-ascending, scan_port-IsFresh, ports_of-scan_ports}
use rnmap.Host.Agreement.{scan_port-state}

-- The ports with their states.
abbrev pub states : List PortResult → List (ℕ × PortState)
states [] = []
states (r ∷ rs) = (r.port, r.state) ∷ states rs

module _ (world : World) (cli : Cli) (timing : Timing) (k : ℕ) where
  -- What the SYN scan of a port meets. A version 6 address has a connect scan always.
  abbrev pub SynMeets : IpAddr → ℕ → Behaviour → Type 0
  SynMeets (v6 segments) port b = Unit
  SynMeets (v4 ip) port b =
      (probe : Probe) × (pkt : Bytes) × (launch ip port (world.udp k port) (world.raw k port)
          (world.random k port)
        ≡ ok (probe, pkt))
      × (probe.port < 65536)
      × (probe.src_port < 65536)
      × Observes probe (world.syn_started k port + timing.connect_timeout) (world.rounds k port) b 0
          (world.fuel k port)

  -- The port behaves so, towards the attempts to connect and towards the SYN, if one is sent.
  abbrev pub Shows : IpAddr → ℕ → Behaviour → Type 0
  Shows ip port b =
      Meets (world.connect k port) b 0 (timing.max_retries + 1)
      × ((cli.s_s ≡ false) ⊎ SynMeets ip port b)

  connect_scan-state :
      (port : ℕ) {b : Behaviour}
      → Meets (world.connect k port) b 0 (timing.max_retries + 1)
      → (connect_scan world cli timing k port).state ≡ expected b
  unfolding connect_scan
  connect_scan-state port met =
      scan-state (world.connect k port) port timing (world.connect_ms k port) met

  pub shown-state :
      (ip : IpAddr) (port : ℕ) (b : Behaviour)
      → Shows ip port b
      → (scan_port world cli timing k ip port).state ≡ expected b
  shown-state ip port b (met, inl plain) =
      unfold scan_port in rw plain (connect_scan-state port met)
  shown-state (v4 ip) port b (met, inr (probe, pkt, sent, hp, hs, seen)) =
      scan_port-state world cli timing k ip port met sent hp hs seen
  shown-state (v6 segments) port b (met, inr s) =
      unfold scan_port syn_scan in
      elim (Bool-cases cli.s_s) [
        | inl syn ↦ rw syn (connect_scan-state port met)
        | inr plain ↦ rw plain (connect_scan-state port met)
      ]

  module _ (behaviour : ℕ → Behaviour) where
    -- Each of the ports with the state that it should be reported in.
    abbrev pub true_states : List ℕ → List (ℕ × PortState)
    true_states [] = []
    true_states (port ∷ ports) = (port, expected (behaviour port)) ∷ true_states ports

    -- All of the ports behave as they should.
    abbrev pub AllShow : IpAddr → List ℕ → Type 0
    AllShow ip [] = Unit
    AllShow ip (port ∷ ports) = Shows ip port (behaviour port) × AllShow ip ports

    states-scan_ports :
        (ip : IpAddr) (ports : List ℕ)
        → ((port : ℕ) → world.joined k port ≡ true)
        → AllShow ip ports
        → states (scan_ports world cli timing k ip ports) ≡ true_states ports
    unfolding scan_ports
    states-scan_ports ip [] joined h = refl
    states-scan_ports ip (port ∷ ports) joined h =
        rw
          (
            joined port,
            (scan_port-IsFresh world cli timing k ip port).0,
            shown-state ip port (behaviour port) h.0,
            states-scan_ports ip ports joined h.1,
          )
          refl

    states-detect_services :
        (rs : List PortResult) → states (detect_services world cli timing k rs) ≡ states rs
    unfolding detect_services
    states-detect_services [] = refl
    states-detect_services (r ∷ rs) = elim (Bool-cases (is_open r.state)) [
      | inl open_r ↦ rw (open_r, states-detect_services rs) refl
      | inr other ↦ rw (other, states-detect_services rs) refl
    ]

    -- For ascending ports.
    pub states-port_results :
        (ip : IpAddr) (ports : List ℕ)
        → AscendingFrom 0 ports
        → ((port : ℕ) → world.joined k port ≡ true)
        → AllShow ip ports
        → states (port_results world cli timing k ip ports) ≡ true_states ports
    unfolding port_results
    states-port_results ip ports ascending joined h =
        let scanned = scan_ports world cli timing k ip ports in
        let same = ports_of-scan_ports world cli timing k ip ports joined in
        let sorted : sort_results scanned ≡ scanned =
          sort_results-ascending scanned 0 (subst (AscendingFrom 0) (sym same) ascending) in
        elim (Bool-cases cli.s_v) [
          | inl services ↦
              rw (services, sorted)
                (states-detect_services scanned ∙ states-scan_ports ip ports joined h)
          | inr none_wanted ↦ rw (none_wanted, sorted) (states-scan_ports ip ports joined h)
        ]

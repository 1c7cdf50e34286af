-- ===== src/Host/Findings.antt =====
-- The ports of a host's entry with their states and services: those that the ports have.
use rnmap.Base.{
  ℕ, ◌≡◌, refl, ap, sym, Bool, true, false, ◌&&◌, List, [], ◌∷◌, Option, none, Bool-cases, inl, inr,
  map, AscendingFrom, if◌then◌else◌,
}
use mathlib.Core.Path.{subst}
use rnmap.Timing.{Timing}
use rnmap.Report.{IpAddr, is_open, PortState, PortResult, ServiceInfo}
use rnmap.Report.Behaviour.{Behaviour, expected}
use rnmap.Service.Dialogue.{detect}
use rnmap.Cli.{Cli}
use rnmap.Host.{World, scan_port, scan_ports, sort_results, detect_services, port_results}
use rnmap.Host.Scanned.{sort_results-ascending, scan_port-IsFresh, ports_of-scan_ports}
use rnmap.Host.States.{AllShow, shown-state}

-- A port, its state, and the service that was detected.
abbrev pub Finding : Type 0
Finding = ℕ × (PortState × Option ServiceInfo)

abbrev pub finding : PortResult → Finding
finding r = (r.port, (r.state, r.service))

abbrev pub findings : List PortResult → List Finding
findings [] = []
findings (r ∷ rs) = finding r ∷ findings rs

module _ (world : World) (cli : Cli) (timing : Timing) (k : ℕ) (behaviour : ℕ → Behaviour) where
  -- What should be found of a port: its state, and if it is open and services are wanted, what the
  -- dialogue with it detects.
  abbrev pub true_finding : Bool → ℕ → Finding
  true_finding services port =
      let s = expected (behaviour port) in
      let service = detect world.regex port (world.stream k port) in
      (port, (s, (if services && is_open s then service else none)))

  abbrev pub true_findings : Bool → List ℕ → List Finding
  true_findings services [] = []
  true_findings services (port ∷ ports) = true_finding services port ∷ true_findings services ports

  finding-scan_port :
      (ip : IpAddr) (ports : List ℕ) (port : ℕ)
      → AllShow world cli timing k behaviour ip (port ∷ ports)
      → finding (scan_port world cli timing k ip port) ≡ true_finding false port
  finding-scan_port ip ports port h =
      let (of_port, no_service) = scan_port-IsFresh world cli timing k ip port in
      rw (of_port, shown-state world cli timing k ip port (behaviour port) h.0, no_service) refl

  findings-scan_ports :
      (ip : IpAddr) (ports : List ℕ)
      → ((port : ℕ) → world.joined k port ≡ true)
      → AllShow world cli timing k behaviour ip ports
      → findings (scan_ports world cli timing k ip ports) ≡ true_findings false ports
  unfolding scan_ports
  findings-scan_ports ip [] joined h = refl
  findings-scan_ports ip (port ∷ ports) joined h =
      rw (joined port, finding-scan_port ip ports port h, findings-scan_ports ip ports joined h.1)
        refl

  -- Detection changes the services of the open ports alone.
  detected : Finding → Finding
  detected (port, (s, service)) =
      (port, (s, (if is_open s then detect world.regex port (world.stream k port) else service)))

  findings-detect_services :
      (rs : List PortResult)
      → findings (detect_services world cli timing k rs) ≡ map detected (findings rs)
  unfolding detect_services detected
  findings-detect_services [] = refl
  findings-detect_services (r ∷ rs) = elim (Bool-cases (is_open r.state)) [
    | inl open_r ↦ rw (open_r, findings-detect_services rs) refl
    | inr other ↦ rw (other, findings-detect_services rs) refl
  ]

  map-detected :
      (ports : List ℕ) → map detected (true_findings false ports) ≡ true_findings true ports
  unfolding detected
  map-detected [] = refl
  map-detected (port ∷ ports) = ap (λ fs. true_finding true port ∷ fs) (map-detected ports)

  -- For ascending ports.
  pub findings-port_results :
      (ip : IpAddr) (ports : List ℕ)
      → AscendingFrom 0 ports
      → ((port : ℕ) → world.joined k port ≡ true)
      → AllShow world cli timing k behaviour ip ports
      → findings (port_results world cli timing k ip ports) ≡ true_findings cli.s_v ports
  unfolding port_results
  findings-port_results ip ports ascending joined h =
      let scanned = scan_ports world cli timing k ip ports in
      let same = ports_of-scan_ports world cli timing k ip ports joined in
      let sorted : sort_results scanned ≡ scanned =
        sort_results-ascending scanned 0 (subst (AscendingFrom 0) (sym same) ascending) in
      let found = findings-scan_ports ip ports joined h in
      elim (Bool-cases cli.s_v) [
        | inl services ↦
            rw (services, sorted, findings-detect_services scanned, found) (map-detected ports)
        | inr unwanted ↦ rw (unwanted, sorted) found
      ]

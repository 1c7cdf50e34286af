-- ===== src/Host/Scanned.antt =====
-- The ports of a host's entry: which ones, in which order, and with which services.
use rnmap.Base.{
  ℕ, ◌≤◌, ◌≡◌, refl, ap, ◌∙◌, true, List, [], ◌∷◌, arith, leb, Bool-cases, inl, inr, AscendingFrom,
  ok, err,
}
use rnmap.Timing.{Timing}
use rnmap.Report.{IpAddr, v4, v6, is_open, PortResult}
use rnmap.Report.Behaviour.{IsFresh}
use rnmap.Connect.Verdict
use rnmap.Syn.{End, finished, panicked, running}
use rnmap.Syn.Port.{IsOf, scan_blocking-IsOf}
use rnmap.Cli.{Cli}
use rnmap.Host.{
  World, insert_result, sort_results, connect_scan, or_connect, syn_scan, scan_port, scan_ports,
  detect_services, port_results,
}

-- Ascending, with repetitions allowed, all from `lo` on.
abbrev pub SortedFrom : ℕ → List PortResult → Type 0
SortedFrom lo [] = Unit
SortedFrom lo (r ∷ rs) = (lo ≤ r.port) × SortedFrom r.port rs

insert-sorted :
    (r : PortResult) (rs : List PortResult) (lo : ℕ)
    → lo ≤ r.port
    → SortedFrom lo rs
    → SortedFrom lo (insert_result r rs)
unfolding insert_result
insert-sorted r [] lo h s = (h, tt)
insert-sorted r (q ∷ qs) lo h s = elim (Bool-cases (leb r.port q.port)) [
  | inl first ↦ rw first (h, (ground arith, s.1))
  | inr later ↦ rw later (s.0, insert-sorted r qs q.port (ground arith) s.1)
]

sort_results-sorted : (rs : List PortResult) → SortedFrom 0 (sort_results rs)
unfolding sort_results
sort_results-sorted [] = tt
sort_results-sorted (r ∷ rs) =
    insert-sorted r (sort_results rs) 0 (omega arith) (sort_results-sorted rs)

abbrev pub ports_of : List PortResult → List ℕ
ports_of [] = []
ports_of (r ∷ rs) = r.port ∷ ports_of rs

insert-first :
    (r : PortResult) (rs : List PortResult) (lo : ℕ)
    → lo ≡ r.port
    → AscendingFrom lo (ports_of rs)
    → insert_result r rs ≡ r ∷ rs
unfolding insert_result
insert-first r [] lo e h = refl
insert-first r (q ∷ qs) lo e h =
    let first : leb r.port q.port ≡ true = ground arith in rw first refl

-- Results whose ports ascend are sorted already.
pub sort_results-ascending :
    (rs : List PortResult) (lo : ℕ) → AscendingFrom lo (ports_of rs) → sort_results rs ≡ rs
unfolding sort_results
sort_results-ascending [] lo h = refl
sort_results-ascending (r ∷ rs) lo h =
    rw (sort_results-ascending rs r.port h.1) (insert-first r rs r.port refl h.1)

module _ (world : World) (cli : Cli) (timing : Timing) (k : ℕ) where
  connect_scan-IsFresh : (port : ℕ) → IsFresh port (connect_scan world cli timing k port)
  unfolding connect_scan
  connect_scan-IsFresh port =
      Verdict.scan-IsFresh port timing (world.connect k port) (world.connect_ms k port)

  or_connect-IsFresh :
      (port : ℕ) (e : End) → IsOf port e → IsFresh port (or_connect world cli timing k port e)
  unfolding or_connect
  or_connect-IsFresh port (finished (ok r) sent) h = h
  or_connect-IsFresh port (finished (err e) sent) h = connect_scan-IsFresh port
  or_connect-IsFresh port panicked h = connect_scan-IsFresh port
  or_connect-IsFresh port running h = connect_scan-IsFresh port

  syn_scan-IsFresh : (ip : IpAddr) (port : ℕ) → IsFresh port (syn_scan world cli timing k ip port)
  unfolding syn_scan
  syn_scan-IsFresh (v4 ip) port =
      or_connect-IsFresh port _ (scan_blocking-IsOf ip port timing _ _ _ _ _ _)
  syn_scan-IsFresh (v6 segments) port = connect_scan-IsFresh port

  pub scan_port-IsFresh :
      (ip : IpAddr) (port : ℕ) → IsFresh port (scan_port world cli timing k ip port)
  unfolding scan_port
  scan_port-IsFresh ip port = elim (Bool-cases cli.s_s) [
    | inl syn ↦ rw syn (syn_scan-IsFresh ip port)
    | inr plain ↦ rw plain (connect_scan-IsFresh port)
  ]

  pub ports_of-scan_ports :
      (ip : IpAddr) (ports : List ℕ)
      → ((port : ℕ) → world.joined k port ≡ true)
      → ports_of (scan_ports world cli timing k ip ports) ≡ ports
  unfolding scan_ports
  ports_of-scan_ports ip [] h = refl
  ports_of-scan_ports ip (port ∷ ports) h =
      rw (h port, (scan_port-IsFresh ip port).0, ports_of-scan_ports ip ports h) refl

  detect-port :
      (r : PortResult) (rs : List PortResult)
      → ports_of (detect_services world cli timing k (r ∷ rs))
        ≡ r.port ∷ ports_of (detect_services world cli timing k rs)
  unfolding detect_services
  detect-port r rs = elim (Bool-cases (is_open r.state)) [
    | inl open_r ↦ rw open_r refl
    | inr other ↦ rw other refl
  ]

  ports_of-detect_services :
      (rs : List PortResult) → ports_of (detect_services world cli timing k rs) ≡ ports_of rs
  ports_of-detect_services [] = unfold detect_services in refl
  ports_of-detect_services (r ∷ rs) =
      detect-port r rs ∙ ap (λ ps. r.port ∷ ps) (ports_of-detect_services rs)

  ports_of-port_results :
      (ip : IpAddr) (ports : List ℕ)
      → ports_of (port_results world cli timing k ip ports)
        ≡ ports_of (sort_results (scan_ports world cli timing k ip ports))
  unfolding port_results
  ports_of-port_results ip ports = elim (Bool-cases cli.s_v) [
    | inl services ↦ rw services (ports_of-detect_services _)
    | inr none_wanted ↦ rw none_wanted refl
  ]

  -- For ports in ascending order, as a `-p` spec gives them, the entry has exactly one result for
  -- each port, in that order, if every task is joined.
  pub port_results-ascending :
      (ip : IpAddr) (ports : List ℕ)
      → AscendingFrom 0 ports
      → ((port : ℕ) → world.joined k port ≡ true)
      → ports_of (port_results world cli timing k ip ports) ≡ ports
  port_results-ascending ip ports ascending joined =
      let same = ports_of-scan_ports ip ports joined in
      ports_of-port_results ip ports
      ∙ (ap ports_of (sort_results-ascending _ 0 (rw same ascending)) ∙ same)

-- ===== src/Run/Named.antt =====
-- The ports of the report's entries, for a run with `-p`.
use mathlib.Core.Path.{subst}
use rnmap.Base.{
  ℕ, ◌+◌, ◌≡◌, refl, sym, ap, ◌∙◌, true, false, not, ◌&&◌, ◌⊎◌, inl, inr, List, [], ◌∷◌, All, some,
  ok, >>=-eq-ok, ok-injective, map_err-eq-ok, Bool-cases, AscendingFrom, contains, arith,
}
use rnmap.Text.{Text}
use rnmap.Report.{HostState, is_up, HostResult, ScanReport}
use rnmap.Timing.{Timing}
use rnmap.Ports.{PortSpec, parse}
use rnmap.Ports.Ascending.{parse-IsPortSet}
use rnmap.Ports.Denotation.{spec_names, contains-parse}
use rnmap.Target.{ResolvedHost}
use rnmap.Cli.{Cli, choose_ports, build_timing, resolve_targets}
use rnmap.Host.{World, discover, scan_host, run_host}
use rnmap.Host.Scanned.{ports_of, port_results-ascending}
use rnmap.Run.{run_hosts, run}

-- The entry is of a host that is not up and has no ports, or of one that is up and has a result for
-- each port of the spec and no other, in ascending order.
abbrev pub IsNamedBy : {Time : Type 0} → Text → HostResult Time → Type 0
IsNamedBy spec h =
    ((is_up h.state ≡ false) × (h.ports ≡ []))
    ⊎ ((is_up h.state ≡ true)
        × AscendingFrom 0 (ports_of h.ports)
        × ((a : ℕ) → contains (ports_of h.ports) a ≡ spec_names spec a))

module _ (world : World) (cli : Cli) (timing : Timing) (spec : Text) {p : PortSpec} where
  scan_host-IsNamedBy :
      (k : ℕ) (resolved : ResolvedHost) (state : HostState) (reason : Text)
      → ((port : ℕ) → world.joined k port ≡ true)
      → parse spec ≡ ok p
      → IsNamedBy spec (scan_host world cli timing k resolved p.ports (state, reason))
  unfolding scan_host
  scan_host-IsNamedBy k resolved state reason joined parsed =
      elim (Bool-cases (not (is_up state) && not cli.pn)) [
        | inl passed_over ↦ rw passed_over (inl (ground arith, refl))
        | inr scanned ↦
            let (valid, some_port) = parse-IsPortSet spec parsed in
            let same =
              port_results-ascending world cli timing k resolved.ip p.ports valid.ascending
                joined in
            rw scanned (
              inr (
                refl,
                subst (AscendingFrom 0) (sym same) valid.ascending,
                λ a. ap (λ ps. contains ps a) same ∙ contains-parse spec a parsed,
              ))
      ]

  run_hosts-IsNamedBy :
      (k : ℕ) (targets : List ResolvedHost) {hosts : List (HostResult world.Time)}
      → ((k port : ℕ) → world.joined k port ≡ true)
      → parse spec ≡ ok p
      → run_hosts world cli timing p.ports k targets ≡ ok hosts
      → All (IsNamedBy spec) hosts
  unfolding run_hosts run_host
  run_hosts-IsNamedBy k [] {hosts} joined parsed ran =
      subst (All (IsNamedBy spec)) (ok-injective {a = []} {b = hosts} ran) tt
  run_hosts-IsNamedBy k (r ∷ rs) joined parsed ran =
      let (h, first, more) = >>=-eq-ok (run_host world cli timing k r p.ports) _ ran in
      let (found, discovered, scanned) = >>=-eq-ok (discover world cli timing k r.ip) _ first in
      let (hs, rest, made) = >>=-eq-ok (run_hosts world cli timing p.ports (k + 1) rs) _ more in
      subst (All (IsNamedBy spec)) (ok-injective made) (
        subst (IsNamedBy spec) (ok-injective scanned)
            (scan_host-IsNamedBy k r found.0 found.1 (joined k) parsed),
        run_hosts-IsNamedBy (k + 1) rs joined parsed rest,
      )

pub parse_of_choice :
    (cli : Cli) (spec : Text) {p : PortSpec}
    → cli.ports ≡ some spec
    → choose_ports cli.ports cli.top_ports ≡ ok p
    → parse spec ≡ ok p
unfolding choose_ports
parse_of_choice cli spec given chosen = map_err-eq-ok _ (parse spec) (rw given at chosen)

-- With `-p`, if every task is joined: each entry of the report is of a host that is not up and has no
-- ports, or of one that is up and has exactly one result for each port that the spec names, in
-- ascending order, whatever kind of scan it was and with service detection or without.
pub run-IsNamedBy :
    (world : World) (cli : Cli) (args : List Text) (started ended : world.Time) (elapsed : ℕ)
    (spec : Text) {report : ScanReport world.Time}
    → cli.ports ≡ some spec
    → ((k port : ℕ) → world.joined k port ≡ true)
    → run world cli args started ended elapsed ≡ ok report
    → All (IsNamedBy spec) report.hosts
unfolding run
run-IsNamedBy world cli args started ended elapsed spec given joined ran =
    let (targets, resolved, more) = >>=-eq-ok (resolve_targets world.net cli) _ ran in
    let (p, chosen, again) = >>=-eq-ok (choose_ports cli.ports cli.top_ports) _ more in
    let (hosts, hosts_ran, made) =
      >>=-eq-ok (run_hosts world cli (build_timing cli) p.ports 0 targets.addrs) _ again in
    subst (λ (r : ScanReport world.Time). All (IsNamedBy spec) r.hosts) (ok-injective made)
      (run_hosts-IsNamedBy world cli (build_timing cli) spec 0 targets.addrs joined
        (parse_of_choice cli spec given chosen) hosts_ran)

-- ===== src/Run/States.antt =====
-- A run with `-p` reports the states that the hosts' ports have.
use mathlib.Core.Path.{subst}
use rnmap.Base.{
  ℕ, ◌+◌, ◌≡◌, refl, true, false, not, ◌&&◌, ◌⊎◌, inl, inr, List, [], ◌∷◌, Option, some, ok,
  >>=-eq-ok, ok-injective, Bool-cases, AscendingFrom, arith,
}
use rnmap.Text.{Text}
use rnmap.Report.{HostState, is_up, HostResult, ScanReport}
use rnmap.Report.Behaviour.{Behaviour}
use rnmap.Timing.{Timing}
use rnmap.Ports.{PortSpec, parse}
use rnmap.Ports.Ascending.{parse-IsPortSet}
use rnmap.Target.{ResolvedHost, TargetSpec}
use rnmap.Cli.{Cli, choose_ports, build_timing, resolve_targets}
use rnmap.Host.{World, discover, scan_host, run_host}
use rnmap.Host.States.{states, true_states, AllShow, states-port_results}
use rnmap.Run.{run_hosts, run}

module _ (world : World) (cli : Cli) (timing : Timing) (behaviour : ℕ → ℕ → Behaviour)
    (ports : List ℕ) where
  -- The ports of all hosts, from the one of number `k` on, behave as they should.
  abbrev pub HostsShow : ℕ → List ResolvedHost → Type 0
  HostsShow k [] = Unit
  HostsShow k (r ∷ rs) = AllShow world cli timing k (behaviour k) r.ip ports × HostsShow (k + 1) rs

  -- The entry is of a host that is not up and has no ports, or of one that is up and has exactly these
  -- ports, in the states that they are in.
  abbrev pub IsTrue : ℕ → HostResult world.Time → Type 0
  IsTrue k h =
      ((is_up h.state ≡ false) × (h.ports ≡ []))
      ⊎ ((is_up h.state ≡ true)
          × (states h.ports ≡ true_states world cli timing k (behaviour k) ports))

  -- One entry for each target, in order.
  abbrev pub AreTrue : ℕ → List ResolvedHost → List (HostResult world.Time) → Type 0
  AreTrue k [] [] = Unit
  AreTrue k [] (h ∷ hs) = ⊥
  AreTrue k (r ∷ rs) [] = ⊥
  AreTrue k (r ∷ rs) (h ∷ hs) = (h.address ≡ r.ip) × IsTrue k h × AreTrue (k + 1) rs hs

  scan_host-IsTrue :
      (k : ℕ) (r : ResolvedHost) (state : HostState) (reason : Text)
      → AscendingFrom 0 ports
      → ((port : ℕ) → world.joined k port ≡ true)
      → AllShow world cli timing k (behaviour k) r.ip ports
      → ((scan_host world cli timing k r ports (state, reason)).address ≡ r.ip)
        × IsTrue k (scan_host world cli timing k r ports (state, reason))
  unfolding scan_host
  scan_host-IsTrue k r state reason ascending joined shown =
      elim (Bool-cases (not (is_up state) && not cli.pn)) [
        | inl passed_over ↦ rw passed_over (refl, inl (ground arith, refl))
        | inr scanned ↦ rw scanned (
          refl,
          inr (
            refl,
            states-port_results world cli timing k (behaviour k) r.ip ports ascending joined shown,
          ),
        )
      ]

  run_hosts-AreTrue :
      (k : ℕ) (targets : List ResolvedHost) {hosts : List (HostResult world.Time)}
      → AscendingFrom 0 ports
      → ((k port : ℕ) → world.joined k port ≡ true)
      → HostsShow k targets
      → run_hosts world cli timing ports k targets ≡ ok hosts
      → AreTrue k targets hosts
  unfolding run_hosts run_host
  run_hosts-AreTrue k [] {hosts} ascending joined shown ran =
      subst (AreTrue k []) (ok-injective {a = []} {b = hosts} ran) tt
  run_hosts-AreTrue k (r ∷ rs) ascending joined shown ran =
      let (h, first, more) = >>=-eq-ok (run_host world cli timing k r ports) _ ran in
      let (found, discovered, scanned) = >>=-eq-ok (discover world cli timing k r.ip) _ first in
      let (hs, rest, made) = >>=-eq-ok (run_hosts world cli timing ports (k + 1) rs) _ more in
      let (address, states) =
        subst (λ (h : HostResult world.Time). (h.address ≡ r.ip) × IsTrue k h)
          (ok-injective scanned)
          (scan_host-IsTrue k r found.0 found.1 ascending (joined k) shown.0) in
      subst (AreTrue k (r ∷ rs)) (ok-injective made)
        (address, states, run_hosts-AreTrue (k + 1) rs ascending joined shown.1 rest)

pub choose_ports-some :
    (spec : Text) (n : Option ℕ) {p : PortSpec}
    → parse spec ≡ ok p
    → choose_ports (some spec) n ≡ ok p
unfolding choose_ports
choose_ports-some spec n parsed = rw parsed refl

-- A run with `-p`, whose targets are resolved and whose tasks are all joined, on hosts whose ports each
-- accept, refuse or drop what is sent to them, as `Shows` has it: the report has one entry for each
-- target, in order and with its address, and every entry that is up has exactly one result for each
-- port of the spec, ascending, with the state that the port has: open, closed or filtered. It does not
-- matter which kind of scan it is. An entry that is not up has no ports.
pub run-AreTrue :
    (world : World) (cli : Cli) (args : List Text) (started ended : world.Time) (elapsed : ℕ)
    (behaviour : ℕ → ℕ → Behaviour) (spec : Text) {p : PortSpec} {targets : TargetSpec}
    {report : ScanReport world.Time}
    → cli.ports ≡ some spec
    → parse spec ≡ ok p
    → resolve_targets world.net cli ≡ ok targets
    → ((k port : ℕ) → world.joined k port ≡ true)
    → HostsShow world cli (build_timing cli) behaviour p.ports 0 targets.addrs
    → run world cli args started ended elapsed ≡ ok report
    → AreTrue world cli (build_timing cli) behaviour p.ports 0 targets.addrs report.hosts
unfolding run
run-AreTrue world cli args started ended elapsed behaviour spec {p} {targets} given parsed resolved
      joined shown ran =
    let chosen : choose_ports cli.ports cli.top_ports ≡ ok p =
      rw given (choose_ports-some spec cli.top_ports parsed) in
    let (hosts, hosts_ran, made) =
      >>=-eq-ok (run_hosts world cli (build_timing cli) p.ports 0 targets.addrs) _
        (rw (resolved, chosen) at ran) in
    subst
      (λ (r : ScanReport world.Time).
        AreTrue world cli (build_timing cli) behaviour p.ports 0 targets.addrs r.hosts)
      (ok-injective made)
      (run_hosts-AreTrue world cli (build_timing cli) behaviour p.ports 0 targets.addrs
        (parse-IsPortSet spec parsed).0.ascending joined shown hosts_ran)

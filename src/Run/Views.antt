-- ===== src/Run/Views.antt =====
-- The whole report of a run with `-p`, but for reasons, names and times: which hosts are up, the states
-- of their ports, and the services on them.
use mathlib.Core.Path.{subst}
use mathlib.Core.Bool.{true≢false}
use rnmap.Base.{
  ℕ, ◌+◌, ◌≡◌, refl, ap, sym, ◌∙◌, true, false, List, [], ◌∷◌, some, ok, >>=-eq-ok, ok-injective,
  Bool-cases, inl, inr, AscendingFrom, if◌then◌else◌,
}
use rnmap.Text.{Text}
use rnmap.Report.{IpAddr, HostState, up, down, unknown, is_up, HostResult, ScanReport}
use rnmap.Report.Behaviour.{Behaviour}
use rnmap.Timing.{Timing}
use rnmap.Ports.{PortSpec, parse}
use rnmap.Ports.Ascending.{parse-IsPortSet}
use rnmap.Target.{ResolvedHost, TargetSpec}
use rnmap.Cli.{Cli, choose_ports, build_timing, resolve_targets}
use rnmap.Host.{World, discover, scan_host, run_host}
use rnmap.Host.States.{AllShow}
use rnmap.Host.Findings.{Finding, findings, true_findings, findings-port_results}
use rnmap.Host.Reached.{expected_state, ProbesRespond, discover-state}
use rnmap.Run.States.{HostsShow, choose_ports-some}
use rnmap.Run.{run_hosts, run}

-- What a report says of a host: its address, whether it is up, and its ports with their states and
-- services.
abbrev pub View : Type 0
View = IpAddr × (HostState × List Finding)

module _ {Time : Type 0} where
  abbrev pub view : HostResult Time → View
  view h = (h.address, (h.state, findings h.ports))

  abbrev pub views : List (HostResult Time) → List View
  views [] = []
  views (h ∷ hs) = view h ∷ views hs

module _ (world : World) (cli : Cli) (timing : Timing) (behaviour : ℕ → ℕ → Behaviour)
    (probes ports : List ℕ) where
  -- A host that is up has its ports, each in the state that it is in, and with its service if services are
  -- wanted.
  abbrev pub view_of : ℕ → ResolvedHost → HostState → View
  view_of k r s = (
    r.ip,
    (s, (if is_up s then true_findings world cli timing k (behaviour k) cli.s_v ports else [])),
  )

  -- What the report should say of a host.
  abbrev pub expected_view : ℕ → ResolvedHost → View
  expected_view k r = view_of k r (expected_state world cli timing k (behaviour k) probes r.ip)

  abbrev pub expected_views : ℕ → List ResolvedHost → List View
  expected_views k [] = []
  expected_views k (r ∷ rs) = expected_view k r ∷ expected_views (k + 1) rs

  -- The probed ports of all hosts, from the one of number `k` on, behave as they should.
  abbrev pub HostsRespond : ℕ → List ResolvedHost → Type 0
  HostsRespond k [] = Unit
  HostsRespond k (r ∷ rs) =
      ProbesRespond world cli timing k (behaviour k) probes × HostsRespond (k + 1) rs

  scan_host-passed :
      (k : ℕ) (r : ResolvedHost) (state : HostState) (reason : Text)
      → is_up state ≡ false
      → (cli.pn ≡ true → state ≡ up)
      → view (scan_host world cli timing k r ports (state, reason)) ≡ (r.ip, (state, []))
  unfolding scan_host
  scan_host-passed k r state reason away skipped = elim (Bool-cases cli.pn) [
    | inl skip ↦ up_passed (skipped skip)
    | inr seen ↦ rw (away, seen) refl
  ]
    where
      up_passed :
          state ≡ up
          → view (scan_host world cli timing k r ports (state, reason)) ≡ (r.ip, (state, []))
      up_passed e = absurd (true≢false (sym (ap is_up e) ∙ away))

  scan_host-view :
      (k : ℕ) (r : ResolvedHost) (state : HostState) (reason : Text)
      → AscendingFrom 0 ports
      → ((port : ℕ) → world.joined k port ≡ true)
      → AllShow world cli timing k (behaviour k) r.ip ports
      → (cli.pn ≡ true → state ≡ up)
      → view (scan_host world cli timing k r ports (state, reason)) ≡ view_of k r state
  scan_host-view k r up reason ascending joined shown skipped =
      unfold scan_host in
      ap (λ (found : List Finding). (r.ip, (up, found)))
        (findings-port_results world cli timing k (behaviour k) r.ip ports ascending joined shown)
  scan_host-view k r down reason ascending joined shown skipped =
      scan_host-passed k r down reason refl skipped
  scan_host-view k r unknown reason ascending joined shown skipped =
      scan_host-passed k r unknown reason refl skipped

  run_host-view :
      (k : ℕ) (r : ResolvedHost) {h : HostResult world.Time}
      → AscendingFrom 0 ports
      → ((port : ℕ) → world.joined k port ≡ true)
      → AllShow world cli timing k (behaviour k) r.ip ports
      → ProbesRespond world cli timing k (behaviour k) probes
      → run_host world cli timing k r ports ≡ ok h
      → view h ≡ expected_view k r
  unfolding run_host
  run_host-view k r ascending joined shown respond ran =
      let (found, discovered, scanned) = >>=-eq-ok (discover world cli timing k r.ip) _ ran in
      let state = discover-state world cli timing k (behaviour k) probes r.ip respond discovered in
      subst (λ (h : HostResult world.Time). view h ≡ expected_view k r) (ok-injective scanned)
        (scan_host-view k r found.0 found.1 ascending joined shown
            (λ (skip : cli.pn ≡ true). state ∙ rw skip refl)
          ∙ ap (view_of k r) state)

  run_hosts-views :
      (k : ℕ) (targets : List ResolvedHost) {hosts : List (HostResult world.Time)}
      → AscendingFrom 0 ports
      → ((k port : ℕ) → world.joined k port ≡ true)
      → HostsShow world cli timing behaviour ports k targets
      → HostsRespond k targets
      → run_hosts world cli timing ports k targets ≡ ok hosts
      → views hosts ≡ expected_views k targets
  unfolding run_hosts
  run_hosts-views k [] {hosts} ascending joined shown respond ran =
      subst (λ (hs : List (HostResult world.Time)). views hs ≡ [])
        (ok-injective {a = []} {b = hosts} ran) refl
  run_hosts-views k (r ∷ rs) ascending joined shown respond ran =
      let (h, first, more) = >>=-eq-ok (run_host world cli timing k r ports) _ ran in
      let (hs, rest, made) = >>=-eq-ok (run_hosts world cli timing ports (k + 1) rs) _ more in
      let here = run_host-view k r ascending (joined k) shown.0 respond.0 first in
      let there = run_hosts-views (k + 1) rs ascending joined shown.1 respond.1 rest in
      subst (λ (hs : List (HostResult world.Time)). views hs ≡ expected_views k (r ∷ rs))
        (ok-injective made) (ap (λ v. v ∷ views hs) here ∙ ap (λ vs. expected_view k r ∷ vs) there)

-- A run with `-p`, whose targets are resolved and whose tasks are all joined, on hosts whose ports each
-- accept, refuse or drop what is sent to them, as `Shows` and `Responds` have it, reports for each
-- target, in order, its address, whether it is up, and if it is, exactly the ports of the spec,
-- ascending, each with the state that it has: open, closed or filtered; otherwise no ports. The host is
-- up without discovery; by what the ICMP ping reports, if `-PE` asks for it; and else exactly if one of
-- the probed ports accepts or refuses. With `-sV` a port that is open has the service that the dialogue
-- with it detects; no other port has a service, and without `-sV` none has one. It does not matter which
-- kind of scan it is.
pub run-views :
    (world : World) (cli : Cli) (args : List Text) (started ended : world.Time) (elapsed : ℕ)
    (behaviour : ℕ → ℕ → Behaviour) (probes : List ℕ) (spec : Text) {p : PortSpec}
    {targets : TargetSpec} {report : ScanReport world.Time}
    → cli.ports ≡ some spec
    → parse spec ≡ ok p
    → resolve_targets world.net cli ≡ ok targets
    → ((k port : ℕ) → world.joined k port ≡ true)
    → HostsShow world cli (build_timing cli) behaviour p.ports 0 targets.addrs
    → HostsRespond world cli (build_timing cli) behaviour probes p.ports 0 targets.addrs
    → run world cli args started ended elapsed ≡ ok report
    → views report.hosts
      ≡ expected_views world cli (build_timing cli) behaviour probes p.ports 0 targets.addrs
unfolding run
run-views world cli args started ended elapsed behaviour probes spec {p} {targets} given parsed
      resolved joined shown respond ran =
    let chosen : choose_ports cli.ports cli.top_ports ≡ ok p =
      rw given (choose_ports-some spec cli.top_ports parsed) in
    let (hosts, hosts_ran, made) =
      >>=-eq-ok (run_hosts world cli (build_timing cli) p.ports 0 targets.addrs) _
        (rw (resolved, chosen) at ran) in
    subst
      (λ (r : ScanReport world.Time).
        views r.hosts
        ≡ expected_views world cli (build_timing cli) behaviour probes p.ports 0 targets.addrs)
      (ok-injective made)
      (run_hosts-views world cli (build_timing cli) behaviour probes p.ports 0 targets.addrs
        (parse-IsPortSet spec parsed).0.ascending joined shown respond hosts_ran)

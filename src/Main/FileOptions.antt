-- ===== src/Main/FileOptions.antt =====
-- The options for files change nothing of what is printed.
use mathlib.Core.Path.{fun_ext}
use rnmap.Base.{ℕ, ◌+◌, ◌≡◌, refl, ap, List, [], ◌∷◌, none, ok, err, ◌>>=◌, >>=-cong}
use rnmap.Text.{Text}
use rnmap.Timing.{Timing}
use rnmap.Report.{v4, v6, IpAddr, PortResult, HostState}
use rnmap.Target.{ResolvedHost}
use rnmap.Cli.{Cli, build_timing, resolve_targets, choose_ports}
use rnmap.Syn.{End, finished, panicked, running}
use rnmap.Host.{
  World, discover, scan_host, run_host, port_results, scan_ports, scan_port, syn_scan, or_connect,
  connect_scan, detect_services,
}
use rnmap.Run.{run_hosts, run}

-- The options without those for files.
abbrev pub without_files : Cli → Cli
without_files cli = record cli { o_n = none; o_x = none; o_j = none; o_a = none }

module _ (world : World) (cli : Cli) (timing : Timing) where
  or_connect-without_files :
      (k port : ℕ) (e : End)
      → or_connect world (without_files cli) timing k port e ≡ or_connect world cli timing k port e
  unfolding or_connect connect_scan
  or_connect-without_files k port (finished (ok r) sent) = refl
  or_connect-without_files k port (finished (err e) sent) = refl
  or_connect-without_files k port panicked = refl
  or_connect-without_files k port running = refl

  scan_port-without_files :
      (k : ℕ) (ip : IpAddr) (port : ℕ)
      → scan_port world (without_files cli) timing k ip port ≡ scan_port world cli timing k ip port
  unfolding scan_port syn_scan connect_scan
  scan_port-without_files k (v4 ip) port = rw or_connect-without_files refl
  scan_port-without_files k (v6 segments) port = refl

  scan_ports-without_files :
      (k : ℕ) (ip : IpAddr) (ports : List ℕ)
      → scan_ports world (without_files cli) timing k ip ports
        ≡ scan_ports world cli timing k ip ports
  unfolding scan_ports
  scan_ports-without_files k ip [] = refl
  scan_ports-without_files k ip (port ∷ ports) =
      rw (scan_ports-without_files k ip ports, scan_port-without_files k ip port) refl

  detect-without_files :
      (k : ℕ) (rs : List PortResult)
      → detect_services world (without_files cli) timing k rs
        ≡ detect_services world cli timing k rs
  unfolding detect_services
  detect-without_files k [] = refl
  detect-without_files k (r ∷ rs) = rw (detect-without_files k rs) refl

  port_results-without_files :
      (k : ℕ) (ip : IpAddr) (ports : List ℕ)
      → port_results world (without_files cli) timing k ip ports
        ≡ port_results world cli timing k ip ports
  unfolding port_results
  port_results-without_files k ip ports =
      rw (scan_ports-without_files k ip ports, detect-without_files k) refl

  pub scan_host-without_files :
      (k : ℕ) (r : ResolvedHost) (ports : List ℕ) (found : HostState × Text)
      → scan_host world (without_files cli) timing k r ports found
        ≡ scan_host world cli timing k r ports found
  unfolding scan_host
  scan_host-without_files k r ports (state, reason) = rw port_results-without_files refl

  run_host-without_files :
      (k : ℕ) (r : ResolvedHost) (ports : List ℕ)
      → run_host world (without_files cli) timing k r ports ≡ run_host world cli timing k r ports
  unfolding run_host discover
  run_host-without_files k r ports =
      let same = fun_ext (λ found. scan_host-without_files k r ports found) in
      ap (λ scanned. discover world cli timing k r.ip >>= (λ found. ok (scanned found))) same

  run_hosts-without_files :
      (ports : List ℕ) (k : ℕ) (rs : List ResolvedHost)
      → run_hosts world (without_files cli) timing ports k rs
        ≡ run_hosts world cli timing ports k rs
  unfolding run_hosts
  run_hosts-without_files ports k [] = refl
  run_hosts-without_files ports k (r ∷ rs) =
      rw (run_host-without_files k r ports, run_hosts-without_files ports (k + 1) rs) refl

pub run-without_files :
    (world : World) (cli : Cli) (args : List Text) (started ended : world.Time) (elapsed : ℕ)
    → run world (without_files cli) args started ended elapsed
      ≡ run world cli args started ended elapsed
unfolding run resolve_targets build_timing
run-without_files world cli args started ended elapsed =
    >>=-cong (resolve_targets world.net cli) _ _ (λ targets.
      >>=-cong (choose_ports cli.ports cli.top_ports) _ _ (λ spec.
        rw (run_hosts-without_files world cli (build_timing cli) spec.ports 0 targets.addrs) refl))

-- ===== src/Run.antt =====
-- crates/rnmap/src/main.rs: `main` from the parsed options to the report.
pub mod Hosts
pub mod Named
pub mod States
pub mod Views
pub mod Tests
use rnmap.Base.{ℕ, zero, suc, ◌+◌, List, [], ◌∷◌, Result, ok, err, ◌>>=◌}
use rnmap.Text.{Text, codes}
use rnmap.Report.{HostResult, ScanReport}
use rnmap.Ports.{PortSpec}
use rnmap.Timing.{Timing}
use rnmap.Target.{ResolvedHost, TargetSpec}
use rnmap.Cli.{Cli, Failure, choose_ports, build_timing, resolve_targets}
use rnmap.Host.{World, run_host}

module _ (world : World) (cli : Cli) where
  -- The loop over the hosts, from the one of number `k`.
  unfoldable pub run_hosts :
      Timing → List ℕ → ℕ → List ResolvedHost → Result (List (HostResult world.Time)) Failure
  run_hosts timing ports k [] = ok []
  run_hosts timing ports k (resolved ∷ hosts) = do
    host ← run_host world cli timing k resolved ports
    rest ← run_hosts timing ports (k + 1) hosts
    ok (host ∷ rest)

  -- `main`: the arguments as they were given, and when the scan began and ended.
  unfoldable pub run :
      List Text → world.Time → world.Time → ℕ → Result (ScanReport world.Time) Failure
  unfolding run_hosts
  run args started_at ended_at elapsed = do
    targets ← resolve_targets world.net cli
    port_spec ← choose_ports cli.ports cli.top_ports
    hosts ← run_hosts (build_timing cli) port_spec.ports 0 targets.addrs
    ok (record {
      scanner = codes "rnmap";
      version = codes "0.1.0";
      args = args;
      started_at = started_at;
      ended_at = ended_at;
      elapsed = elapsed;
      hosts = hosts;
    })

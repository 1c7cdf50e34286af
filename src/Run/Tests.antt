-- ===== src/Run/Tests.antt =====
-- Runs of the whole program on one target, and the theorems on their hosts.
use rnmap.Base.{
  ℕ, [], ◌∷◌, ◌≡◌, refl, ok, none, some, true, false, inl, inr, List, ◌==◌, if◌then◌else◌,
}
use rnmap.Text.{codes}
use rnmap.Text.Space.{trim, trim_end_matches}
use rnmap.Text.Utf8.{from_utf8_lossy}
use rnmap.Text.Split.{split, split_once, count_char}
use rnmap.Text.Number.{decimal, parse_uint}
use rnmap.Ip.{show_v4, parse_v4}
use rnmap.Ip.Show.{show_ip}
use rnmap.Ports.{PortSpec, parse}
use rnmap.Timing.{new}
use rnmap.Report.{ScanReport, v4, up, closed, open_port}
use rnmap.Connect.{scan}
use rnmap.Discovery.{tcp_ping}
use rnmap.Syn.{scan_blocking, pick_source_ipv4_for}
use rnmap.Target.{TargetSpec, parse_many, expand_one, parse_v4_range}
use rnmap.Cli.{Cli, build_timing, resolve_targets, choose_ports, hostname_for}
use rnmap.Service.{guess_from_banner, looks_http}
use rnmap.Service.Dialogue.{detect}
use rnmap.Host.{World, run_host, discover, port_results, probe_ports, scan_ports, scan_port}
use rnmap.Run.{run}
use rnmap.Run.Views.{views, expected_views, HostsRespond, run-views}
use rnmap.Report.Behaviour.{Behaviour, accepts, refuses}
use rnmap.Connect.Agreement.{Meets}
use rnmap.Fixtures.{ip_1, small_world, sample_cli, sample_port}

abbrev pub outcome : ScanReport ℕ
outcome = record {
  scanner = codes "rnmap";
  version = codes "0.1.0";
  args = codes "rnmap" ∷ [];
  started_at = 0;
  ended_at = 9;
  elapsed = 1000;
  hosts =
      record {
        address = v4 ip_1;
        hostname = none;
        state = up;
        reason = codes "tcp-syn-ack:80";
        ports =
            sample_port 80 open_port
            ∷ record (sample_port 443 closed) { reason = codes "conn-refused" }
            ∷ [];
        started_at = 0;
        ended_at = 1;
        elapsed = 5;
      }
      ∷ [];
}

pub sample_run : run small_world sample_cli (codes "rnmap" ∷ []) 0 9 1000 ≡ ok outcome
unfolding run show_ip resolve_targets parse_many choose_ports parse run_host discover port_results
    trim split split_once count_char parse_uint expand_one parse_v4_range parse_v4 show_v4
    hostname_for build_timing new scan tcp_ping scan_blocking decimal probe_ports scan_ports
    scan_port pick_source_ipv4_for
sample_run = refl

-- The same as a connect scan with `-sV`, of a host whose port 80 accepts and whose other ports refuse.
abbrev plain_cli : Cli
plain_cli = record sample_cli { s_s = false; s_v = true }

-- The web server answers the request.
abbrev web_world : World
web_world = record small_world {
  stream = λ k port. record {
    opened = true;
    banner = none;
    written = λ s. true;
    reply = some (ok (codes "HTTP/1.0 200 OK"));
  };
}

abbrev with_services : ScanReport ℕ
with_services = record outcome {
  hosts =
      record {
        address = v4 ip_1;
        hostname = none;
        state = up;
        reason = codes "tcp-syn-ack:80";
        ports =
            record (sample_port 80 open_port) {
              service = some (record {
                name = codes "http";
                product = none;
                version = none;
                banner = some (codes "HTTP/1.0 200 OK");
              });
            }
            ∷ record (sample_port 443 closed) { reason = codes "conn-refused" }
            ∷ [];
        started_at = 0;
        ended_at = 1;
        elapsed = 5;
      }
      ∷ [];
}

abbrev behaviour : ℕ → ℕ → Behaviour
behaviour k port = if port == 80 then accepts else refuses

abbrev targets : TargetSpec
targets = record {
  inputs = codes "10.0.0.5" ∷ [];
  addrs = record { label = codes "10.0.0.5"; ip = v4 ip_1 } ∷ [];
}

abbrev two_ports : PortSpec
two_ports = record { ports = 80 ∷ 443 ∷ [] }

plain_run : run web_world plain_cli (codes "rnmap" ∷ []) 0 9 1000 ≡ ok with_services
unfolding run show_ip resolve_targets parse_many choose_ports parse run_host discover port_results
    trim split split_once count_char parse_uint expand_one parse_v4_range parse_v4 show_v4
    hostname_for build_timing new scan tcp_ping scan_blocking decimal probe_ports scan_ports
    scan_port pick_source_ipv4_for detect trim_end_matches looks_http guess_from_banner
    from_utf8_lossy
plain_run = refl

two_ports_parsed : parse (codes "80,443") ≡ ok two_ports
unfolding parse trim split split_once parse_uint
two_ports_parsed = refl

targets_resolved : resolve_targets web_world.net plain_cli ≡ ok targets
unfolding resolve_targets parse_many trim split split_once count_char parse_uint expand_one
    parse_v4_range parse_v4 show_ip show_v4 decimal
targets_resolved = refl

abbrev probes : List ℕ
probes = 80 ∷ 443 ∷ 22 ∷ 3389 ∷ []

probes_respond :
    HostsRespond web_world plain_cli
      (build_timing plain_cli)
      behaviour
      probes
      two_ports.ports
      0
      targets.addrs
unfolding probe_ports
probes_respond = (inr (refl, (refl, (refl, (refl, (refl, tt))))), tt)

run-views_example :
    views with_services.hosts
    ≡ expected_views web_world plain_cli
        (build_timing plain_cli)
        behaviour
        probes
        two_ports.ports
        0
        targets.addrs
unfolding build_timing new
run-views_example =
    run-views web_world plain_cli (codes "rnmap" ∷ []) 0 9 1000 behaviour probes (codes "80,443")
      {p = two_ports} {targets = targets} {report = with_services} refl two_ports_parsed
      targets_resolved (λ k port. refl)
      (((Meets.accepted refl, inl refl), ((Meets.refused refl refl, inl refl), tt)), tt)
      probes_respond plain_run

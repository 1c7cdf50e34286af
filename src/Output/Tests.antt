-- ===== src/Output/Tests.antt =====
-- The theorems on the output, at small texts and reports.
use rnmap.Base.{ℕ, [], ◌∷◌, none, some, ◌≡◌, map, true, false}
use rnmap.Text.{codes}
use rnmap.Report.{PortResult, PortState, HostState, HostResult, ScanReport, v4}
use rnmap.Report.Counts.{only_open}
use rnmap.Output.{render, xml}
use rnmap.Output.Xml
use rnmap.Output.Select.{render-only_open}
use rnmap.Fixtures.{ip_1, plain_printers, sample_port, sample_report}

abbrev served : PortResult
served = record (sample_port 80 PortState.open_port) {
  service =
      some record {
        name = codes "http";
        product = some (codes "a&lt;");
        version = none;
        banner = none;
      };
}

-- A host with a name that has markup in it, and an open port with a service.
abbrev marked_host : HostResult ℕ
marked_host = record {
  address = v4 ip_1;
  hostname = some (codes "a&b<c>'d");
  state = HostState.up;
  reason = codes "skipped";
  ports = sample_port 22 PortState.closed ∷ served ∷ [];
  started_at = 0;
  ended_at = 1;
  elapsed = 1000;
}

abbrev marked_report : ScanReport ℕ
marked_report = record sample_report { hosts = marked_host ∷ [] }

render-only_open_example :
    render plain_printers sample_report xml true
    ≡ render plain_printers
        (record sample_report { hosts = map only_open sample_report.hosts })
        xml
        false
render-only_open_example = render-only_open plain_printers sample_report xml tt

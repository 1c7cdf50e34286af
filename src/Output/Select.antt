-- ===== src/Output/Select.antt =====
-- `--open`: the renderers agree on what is left out.
use rnmap.Base.{◌≡◌, refl, true, false, map, All}
use rnmap.Report.{ScanReport}
use rnmap.Report.Counts.{only_open}
use rnmap.Output.Formats.{Printers}
use rnmap.Output.{OutputFormat, render, normal, xml, json}
use rnmap.Output.Xml.Select
use rnmap.Output.Normal.Columns
use rnmap.Output.Normal.Columns.{ShowsTable}
use rnmap.Output.Json

-- The normal output notes a host without open ports in words of its own.
abbrev pub IsUniform : {Time : Type 0} → OutputFormat → ScanReport Time → Type 0
IsUniform normal r = All ShowsTable r.hosts
IsUniform xml r = Unit
IsUniform json r = Unit

-- The output restricted to open ports is the unrestricted output of the report whose other ports are
-- left out: in XML and JSON always, in the normal format if each host that is up has an open port.
pub render-only_open :
    {Time : Type 0} (printers : Printers Time) (r : ScanReport Time) (format : OutputFormat)
    → IsUniform format r
    → render printers r format true
      ≡ render printers (record r { hosts = map only_open r.hosts }) format false
unfolding render Json.render
render-only_open printers r normal h = Columns.render-only_open printers r h
render-only_open printers r xml h = Select.render-only_open printers r
render-only_open printers r json h = refl

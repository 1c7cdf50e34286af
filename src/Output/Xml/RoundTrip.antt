-- ===== src/Output/Xml/RoundTrip.antt =====
-- The reader gets a whole report back from its XML document.
use rnmap.Base.{ℕ, All}
use rnmap.Text.{Text, codes, join}
use rnmap.Report.{HostResult, ScanReport}
use rnmap.Output.Formats.{Printers}
use rnmap.Output.Xml.Document.{ports, hosts}
use rnmap.Output.Xml.Pieces.{IsPlain, IsRaw}
use rnmap.Output.Xml.ReadBack.{IsPlainGiven, IsPlainPort}

-- The texts of a host have no control characters.
abbrev pub IsPlainHost : {Time : Type 0} → HostResult Time → Type 0
IsPlainHost h = IsPlain h.reason × IsPlainGiven h.hostname × All IsPlainPort h.ports

-- The printers' texts of times and durations need no escaping.
abbrev pub ArePlain : {Time : Type 0} → Printers Time → Type 0
ArePlain {Time} printers =
    ((t : Time) → IsRaw (printers.timestamp t)) × ((n d : ℕ) → IsRaw (printers.secs n d))

-- The texts of a report have no control characters.
abbrev pub IsPlainReport : {Time : Type 0} → ScanReport Time → Type 0
IsPlainReport r =
    IsPlain r.scanner
    × IsPlain r.version
    × IsPlain (join (codes " ") r.args)
    × All IsPlainHost r.hosts

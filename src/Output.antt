-- ===== src/Output.antt =====
-- crates/rnmap-core/src/output/mod.rs: the choice of the renderer, and what the renderers share.
pub mod Formats
pub mod Xml
pub mod Normal
pub mod Json
pub mod Select
pub mod Tests
use rnmap.Base.{Bool}
use rnmap.Text.{Text}
use rnmap.Report.{ScanReport}
use Formats.{Printers}

pub data OutputFormat : Type 0 where
  normal xml json : OutputFormat

unfoldable pub render :
    {Time : Type 0} → Printers Time → ScanReport Time → OutputFormat → Bool → Text
render printers report normal only_open = Normal.render printers report only_open
render printers report xml only_open = Xml.render printers report only_open
render printers report json only_open = Json.render printers report only_open

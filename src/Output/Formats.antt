-- ===== src/Output/Formats.antt =====
-- What the renderers take from the crates `chrono` and `serde_json`, and from the printing of floating
-- point numbers.
use rnmap.Base.{ℕ, [], ◌∷◌, ◌++◌, Result}
use rnmap.Text.{Text, codes}
use rnmap.Report.{HostState, up, down, unknown, ScanReport}

pub record Printers (Time : Type 0) : Type 0 where
  -- `started_at.format("%Y-%m-%d %H:%M:%S UTC")` and `timestamp()`.
  pub format_time : Time → Text
  pub timestamp : Time → Text
  -- `as_secs_f64` of a duration with so many decimals.
  pub secs : ℕ → ℕ → Text
  -- `serde_json::to_string_pretty`.
  pub to_string_pretty : ScanReport Time → Result Text Text

-- A line, as `writeln!` appends it.
abbrev pub line : Text → Text
line s = s ++ 10 ∷ []

unfoldable pub state_word : HostState → Text
state_word up = codes "up"
state_word down = codes "down"
state_word unknown = codes "unknown"

abbrev pub quote : ℕ
quote = 34

-- ` name="value"`.
unfoldable pub attribute : Text → Text → Text
attribute name value = codes " " ++ (name ++ (codes "=" ++ (quote ∷ (value ++ quote ∷ []))))

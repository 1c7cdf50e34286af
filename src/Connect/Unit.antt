-- ===== src/Connect/Unit.antt =====
-- crates/rnmap-core/src/scan/connect.rs: the unit tests. A listener of the machine accepts each
-- connection, and a port without one refuses it.
use rnmap.Base.{ℕ, ◌≡◌, refl, Bool, true, false, [], ◌∷◌, All}
use rnmap.Timing.{new}
use rnmap.Report.{PortState, is_open}
use rnmap.Connect.{Connected, connected, failed, scan}
use rnmap.Fixtures.{refused}

abbrev listener : ℕ → Connected
listener n = connected

abbrev dropped : ℕ → Connected
dropped n = failed refused

abbrev is_closed : PortState → Bool
is_closed PortState.closed = true
is_closed PortState.open_port = false
is_closed PortState.filtered = false
is_closed PortState.unfiltered = false

module _ (port : ℕ) (clock : ℕ → ℕ) where
  abbrev detects_open_port : Bool
  detects_open_port = is_open (scan port (new 4) listener clock).result.state

  abbrev detects_closed_port : Bool
  detects_closed_port = is_closed (scan port (new 4) dropped clock).result.state

unit_tests :
    (port : ℕ) (clock : ℕ → ℕ)
    → All
        (λ (test : Bool). test ≡ true)
        (detects_open_port port clock ∷ detects_closed_port port clock ∷ [])
unfolding scan new
unit_tests port clock = (refl, (refl, tt))

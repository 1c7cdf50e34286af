-- ===== src/Args/Boundary.antt =====
-- Arguments on which the slices panic.
use rnmap.Base.{ℕ, ◌≤◌}
use rnmap.Text.{Text}

-- The argument begins with a dash and a character of three or four bytes, so that the slice of two
-- bytes behind the dash ends inside that character.
abbrev pub IsCut : ℕ → Type 0
IsCut c = 0x800 ≤ c

-- ===== src/Ports/Tests.antt =====
-- Runs of `PortSpec::parse` on the inputs of the unit tests, and the theorems at concrete inputs.
use mathlib.Core.List.{cons-ne-nil}
use rnmap.Base.{ℕ, List, [], ◌∷◌, ◌≡◌, ◌≢◌, refl, ok, err, arith, contains}
use rnmap.Text.{codes}
use rnmap.Text.Space.{trim}
use rnmap.Text.Split.{split, split_once}
use rnmap.Text.Number.{parse_uint, decimal, display_error}
use rnmap.Errors.{Error}
use rnmap.Ports.{parse}
use rnmap.Ports.Ascending.{IsPortSet, parse-IsPortSet}
use rnmap.Ports.Denotation.{spec_names, contains-parse}
use rnmap.Ports.Failures.{Verdict, accepts, parse-accepts}
use rnmap.Ports.RoundTrip.{spell, parse-spell}

mixed : parse (codes "22, 80-82,443,80") ≡ ok (record { ports = 22 ∷ 80 ∷ 81 ∷ 82 ∷ 443 ∷ [] })
unfolding parse trim split split_once parse_uint
mixed = refl

open_range : parse (codes "65533-") ≡ ok (record { ports = 65533 ∷ 65534 ∷ 65535 ∷ [] })
unfolding parse trim split split_once parse_uint
open_range = refl

reversed : parse (codes "100-50") ≡ err (Error.ports (codes "100-50") (codes "range 100 > 50"))
unfolding parse trim split split_once parse_uint decimal
reversed = refl

garbage :
    parse (codes "abc")
    ≡ err (Error.ports (codes "abc") (codes "invalid port `abc`: invalid digit found in string"))
unfolding parse trim split split_once parse_uint display_error
garbage = refl

three_ports : IsPortSet (22 ∷ 80 ∷ 443 ∷ [])
three_ports = record { ascending = omega arith; bounded = omega arith }

parse-accepts_example :
    Verdict (codes "22,100-50") (accepts (codes "22,100-50")) (parse (codes "22,100-50"))
parse-accepts_example = parse-accepts (codes "22,100-50")

contains-parse_example :
    contains (65533 ∷ 65534 ∷ 65535 ∷ []) 65534 ≡ spec_names (codes "65533-") 65534
contains-parse_example = contains-parse (codes "65533-") 65534 open_range

parse-IsPortSet_example :
    IsPortSet (22 ∷ 80 ∷ 81 ∷ 82 ∷ 443 ∷ []) × (◌≢◌ {A = List ℕ} (22 ∷ 80 ∷ 81 ∷ 82 ∷ 443 ∷ []) [])
parse-IsPortSet_example = parse-IsPortSet (codes "22, 80-82,443,80") mixed

parse-spell_example :
    parse (spell (22 ∷ 80 ∷ 443 ∷ [])) ≡ ok (record { ports = 22 ∷ 80 ∷ 443 ∷ [] })
parse-spell_example = parse-spell (22 ∷ 80 ∷ 443 ∷ []) three_ports (cons-ne-nil 22 (80 ∷ 443 ∷ []))

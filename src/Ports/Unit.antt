-- ===== src/Ports/Unit.antt =====
-- crates/rnmap-core/src/ports.rs: the unit tests. A test is a Boolean, true where all assertions hold.
use rnmap.Base.{
  ℕ, ◌≡◌, refl, Bool, true, false, ◌&&◌, List, [], ◌∷◌, Result, ok, err, All, length, ◌==◌,
  range_from,
}
use rnmap.Text.{codes, text_eq}
use rnmap.Text.Space.{trim}
use rnmap.Text.Split.{split, split_once}
use rnmap.Text.Number.{parse_uint}
use rnmap.Errors.{Error}
use rnmap.Ports.{PortSpec, parse, all_ports}

-- `parse(spec).unwrap()`, and a test of its ports; a panic is a failure.
abbrev unwrap : Result PortSpec Error → (List ℕ → Bool) → Bool
unwrap (ok p) test = test p.ports
unwrap (err e) test = false

abbrev is_err : Result PortSpec Error → Bool
is_err (ok p) = false
is_err (err e) = true

abbrev equals : List ℕ → List ℕ → Bool
equals ports expected = text_eq ports expected

abbrev single : Bool
unfolding parse
single = unwrap (parse (codes "22")) (λ ps. equals ps (22 ∷ []))

abbrev range : Bool
unfolding parse
range = unwrap (parse (codes "80-82")) (λ ps. equals ps (80 ∷ 81 ∷ 82 ∷ []))

abbrev list : Bool
unfolding parse
list = unwrap (parse (codes "22,80,443")) (λ ps. equals ps (22 ∷ 80 ∷ 443 ∷ []))

abbrev mixed : Bool
unfolding parse
mixed = unwrap (parse (codes "22,80-82,443")) (λ ps. equals ps (22 ∷ 80 ∷ 81 ∷ 82 ∷ 443 ∷ []))

abbrev dedup_sort : Bool
unfolding parse
dedup_sort = unwrap (parse (codes "443,22,80,22,80")) (λ ps. equals ps (22 ∷ 80 ∷ 443 ∷ []))

-- `*ps.last().unwrap()`.
abbrev last_is : ℕ → List ℕ → Bool
last_is n [] = false
last_is n (p ∷ []) = p == n
last_is n (p ∷ q ∷ ps) = last_is n (q ∷ ps)

abbrev first_is : ℕ → List ℕ → Bool
first_is n [] = false
first_is n (p ∷ ps) = p == n

abbrev dash_all : Bool
unfolding parse
dash_all =
    unwrap (parse (codes "-")) (λ ps. length ps == 65535 && (first_is 1 ps && last_is 65535 ps))

abbrev open_ranges : Bool
unfolding parse
open_ranges =
    unwrap (parse (codes "-1024")) (λ ps. length ps == 1024 && first_is 1 ps)
    && unwrap (parse (codes "65500-")) (λ ps. first_is 65500 ps && last_is 65535 ps)

abbrev rejects_zero : Bool
unfolding parse
rejects_zero = is_err (parse (codes "0")) && is_err (parse (codes "0-10"))

abbrev rejects_reverse : Bool
unfolding parse
rejects_reverse = is_err (parse (codes "100-50"))

abbrev rejects_garbage : Bool
unfolding parse
rejects_garbage = is_err (parse (codes "abc")) && is_err (parse [])

unit_tests :
    All
      (λ (test : Bool). test ≡ true)
      (single ∷ range ∷ list ∷ mixed ∷ dedup_sort ∷ dash_all ∷ open_ranges ∷ rejects_zero
        ∷ rejects_reverse ∷ rejects_garbage ∷ [])
unfolding parse single range list mixed dedup_sort dash_all open_ranges rejects_zero rejects_reverse
    rejects_garbage trim split split_once parse_uint all_ports range_from
unit_tests = (refl, (refl, (refl, (refl, (refl, (refl, (refl, (refl, (refl, (refl, tt))))))))))

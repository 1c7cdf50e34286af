-- ===== src/TopPorts/Unit.antt =====
-- crates/rnmap-core/src/top_ports.rs: the unit tests.
use rnmap.Base.{ℕ, ◌≡◌, refl, Bool, true, ◌&&◌, List, [], ◌∷◌, ◌==◌, length, contains, All}
use rnmap.Ports.{insert}
use rnmap.TopPorts.{top_n}

abbrev top_10_includes_22_and_80 : Bool
unfolding top_n
top_10_includes_22_and_80 = let t = top_n 10 in contains t 22 && contains t 80 && contains t 443

-- `t.iter().collect::<BTreeSet<_>>()`
abbrev collect : List ℕ → List ℕ
unfolding insert
collect [] = []
collect (p ∷ ps) = insert p (collect ps)

abbrev no_duplicates : Bool
unfolding top_n collect
no_duplicates = let t = top_n 150 in length t == length (collect t)

unit_tests : All (λ (test : Bool). test ≡ true) (top_10_includes_22_and_80 ∷ no_duplicates ∷ [])
unfolding top_10_includes_22_and_80 no_duplicates top_n collect insert
unit_tests = (refl, (refl, tt))

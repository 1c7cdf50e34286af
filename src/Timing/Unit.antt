-- ===== src/Timing/Unit.antt =====
-- crates/rnmap-core/src/timing.rs: the unit tests.
use rnmap.Base.{ℕ, ◌≡◌, refl, Bool, true, ◌&&◌, List, [], ◌∷◌, map, ltb, leb, range_from, All}
use rnmap.Timing.{Timing, new}

-- `(0..=5).map(|l| Timing::new(l).field)`
abbrev of_levels : (Timing → ℕ) → List ℕ
unfolding new range_from
of_levels field = map (λ level. field (new level)) (range_from 6 0)

-- An assertion on each of `windows(2)`.
abbrev windows : (ℕ → ℕ → Bool) → List ℕ → Bool
windows test [] = true
windows test (a ∷ []) = true
windows test (a ∷ b ∷ rest) = test a b && windows test (b ∷ rest)

abbrev levels_increase_parallelism : Bool
unfolding of_levels
levels_increase_parallelism = windows (λ a b. ltb a b) (of_levels (λ t. t.max_parallel))

abbrev levels_decrease_timeout : Bool
unfolding of_levels
levels_decrease_timeout = windows (λ a b. leb b a) (of_levels (λ t. t.connect_timeout))

unit_tests :
    All (λ (test : Bool). test ≡ true) (levels_increase_parallelism ∷ levels_decrease_timeout ∷ [])
unfolding levels_increase_parallelism levels_decrease_timeout of_levels new range_from
unit_tests = (refl, (refl, tt))

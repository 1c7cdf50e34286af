-- ===== src/Text/Split.antt =====
-- `split`, `split_once`, `find`, `matches(..).count()` on one character.
use rnmap.Base.{
  ℕ, suc, ◌≡◌, refl, false, List, [], ◌∷◌, ◌++◌, Option, none, some, arith, contains, false, ◌+◌,
  ◌==◌, if◌then◌else◌, All, ◌≢◌,
}
use rnmap.Text.Defs.{Text, join}

abbrev pub prepend : ℕ → List Text → List Text
prepend c [] = (c ∷ []) ∷ []
prepend c (p ∷ ps) = (c ∷ p) ∷ ps

unfoldable pub split : ℕ → Text → List Text
split sep [] = [] ∷ []
split sep (c ∷ s) = let rest = split sep s in if c == sep then [] ∷ rest else prepend c rest

abbrev pub before : ℕ → Option (Text × Text) → Option (Text × Text)
before c none = none
before c (some (l, r)) = some (c ∷ l, r)

unfoldable pub split_once : ℕ → Text → Option (Text × Text)
split_once sep [] = none
split_once sep (c ∷ s) =
    let rest = split_once sep s in if c == sep then some ([], s) else before c rest

unfoldable pub count_char : ℕ → Text → ℕ
count_char d [] = 0
count_char d (c ∷ s) = let rest = count_char d s in if c == d then suc rest else rest

-- The character does not occur in the text.
abbrev pub Lacks : ℕ → Text → Type 0
Lacks d s = All (λ c. c ≢ d) s

pub split_once-Lacks : (sep : ℕ) (s : Text) → Lacks sep s → split_once sep s ≡ none
unfolding split_once
split_once-Lacks sep [] h = refl
split_once-Lacks sep (c ∷ s) h = ground (arith, split_once-Lacks sep s h.1)

pub split-Lacks : (sep : ℕ) (s : Text) → Lacks sep s → split sep s ≡ s ∷ []
unfolding split
split-Lacks sep [] h = refl
split-Lacks sep (c ∷ s) h = ground (arith, split-Lacks sep s h.1)

pub split-append :
    (sep : ℕ) (s rest : Text) → Lacks sep s → split sep (s ++ sep ∷ rest) ≡ s ∷ split sep rest
unfolding split
split-append sep [] rest h = ground arith
split-append sep (c ∷ s) rest h = ground (arith, split-append sep s rest h.1)

-- Splitting a join of parts without the separator gives the parts back.
pub split-join :
    (sep : ℕ) (p : Text) (ps : List Text)
    → All (Lacks sep) (p ∷ ps)
    → split sep (join (sep ∷ []) (p ∷ ps)) ≡ p ∷ ps
split-join sep p [] h = split-Lacks sep p h.0
split-join sep p (q ∷ qs) h =
    rw (split-append sep p (join (sep ∷ []) (q ∷ qs)) h.0, split-join sep q qs h.1)

pub split_once-append :
    (sep : ℕ) (s rest : Text) → Lacks sep s → split_once sep (s ++ sep ∷ rest) ≡ some (s, rest)
unfolding split_once
split_once-append sep [] rest h = ground arith
split_once-append sep (c ∷ s) rest h = ground (arith, split_once-append sep s rest h.1)

pub count_char-Lacks : (d : ℕ) (s : Text) → Lacks d s → count_char d s ≡ 0
unfolding count_char
count_char-Lacks d [] h = refl
count_char-Lacks d (c ∷ s) h = ground (arith, count_char-Lacks d s h.1)

pub count_char-append :
    (d : ℕ) (s t : Text) → count_char d (s ++ t) ≡ count_char d s + count_char d t
unfolding count_char
count_char-append d [] t = omega arith
count_char-append d (c ∷ s) t = ground (arith, count_char-append d s t)

pub contains-Lacks : (d : ℕ) (s : Text) → Lacks d s → contains s d ≡ false
contains-Lacks d [] h = refl
contains-Lacks d (c ∷ s) h = ground (arith, contains-Lacks d s h.1)

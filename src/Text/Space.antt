-- ===== src/Text/Space.antt =====
-- `char::is_whitespace` (the White_Space property) and the `trim` family.
use rnmap.Base.{
  ℕ, ◌≡◌, refl, Bool, true, false, ◌&&◌, ◌||◌, [], ◌∷◌, ◌++◌, Option, none, some, arith, ◌==◌, leb,
  if◌then◌else◌, is_empty, All, ◌≢◌, ap, and_false, Bool-cases, inl, inr,
}
use rnmap.Text.Defs.{Text}

unfoldable pub is_whitespace : ℕ → Bool
is_whitespace c =
    (leb 9 c && leb c 13)
    || (c == 32)
    || (c == 133)
    || (c == 160)
    || (c == 5760)
    || (leb 8192 c && leb c 8202)
    || (c == 8232)
    || (c == 8233)
    || (c == 8239)
    || (c == 8287)
    || (c == 12288)

-- `trim_start_matches` and `trim_end_matches` with a test.
unfoldable pub trim_start_matches : (ℕ → Bool) → Text → Text
trim_start_matches p [] = []
trim_start_matches p (c ∷ s) = elim (p c) [ true ↦ trim_start_matches p s | false ↦ c ∷ s ]

unfoldable pub trim_end_matches : (ℕ → Bool) → Text → Text
trim_end_matches p [] = []
trim_end_matches p (c ∷ s) =
    let rest = trim_end_matches p s in if is_empty rest && p c then [] else c ∷ rest

unfoldable pub trim : Text → Text
unfolding trim_start_matches trim_end_matches is_whitespace
trim s = trim_end_matches is_whitespace (trim_start_matches is_whitespace s)

-- A text without white space is its own trim.
abbrev pub IsDense : Text → Type 0
IsDense s = All (λ c. is_whitespace c ≡ false) s

pub trim_end-IsDense : (s : Text) → IsDense s → trim_end_matches is_whitespace s ≡ s
unfolding trim_end_matches
trim_end-IsDense [] h = refl
trim_end-IsDense (c ∷ s) h = rw (trim_end-IsDense s h.1) (ground arith)

trim_start-dense : (s : Text) → IsDense s → trim_start_matches is_whitespace s ≡ s
unfolding trim_start_matches
trim_start-dense [] h = refl
trim_start-dense (c ∷ s) h = ground arith

pub trim-dense : (s : Text) → IsDense s → trim s ≡ s
unfolding trim
trim-dense s h = rw (trim_start-dense s h) (trim_end-IsDense s h)

-- `split_whitespace().next()`.
word : Text → Text
word [] = []
word (c ∷ s) = let rest = word s in if is_whitespace c then [] else c ∷ rest

unfoldable pub first_word : Text → Option Text
unfolding word trim_start_matches is_whitespace
first_word s = first (trim_start_matches is_whitespace s)
  where
    first : Text → Option Text
    first [] = none
    first (c ∷ t) = some (word (c ∷ t))

word-dense : (s : Text) → IsDense s → word s ≡ s
unfolding word
word-dense [] h = refl
word-dense (c ∷ s) h = rw (h.0, word-dense s h.1) refl

-- A text without white space is its own first word.
pub first_word-dense : (s : Text) → IsDense s → s ≢ [] → first_word s ≡ some s
unfolding first_word
first_word-dense [] h ne = absurd (ne refl)
first_word-dense (c ∷ s) h ne = rw (trim_start-dense (c ∷ s) h) (ap some (word-dense (c ∷ s) h))

-- The text is empty or begins with white space.
abbrev pub IsApart : Text → Type 0
IsApart [] = Unit
IsApart (c ∷ s) = is_whitespace c ≡ true

trim_start-head :
    (c : ℕ) (s : Text) → is_whitespace c ≡ false → trim_start_matches is_whitespace (c ∷ s) ≡ c ∷ s
unfolding trim_start_matches
trim_start-head c s h = ground arith

-- A text without white space, and not empty, is the first word where the rest is apart from it.
pub first_word-append :
    (s rest : Text) → IsDense s → s ≢ [] → IsApart rest → first_word (s ++ rest) ≡ some s
unfolding first_word
first_word-append [] rest h ne apart = absurd (ne refl)
first_word-append (c ∷ s) rest h ne apart =
    rw (trim_start-head c (s ++ rest) h.0) (ap some (word-append (c ∷ s) rest h apart))
  where
    word-append : (s rest : Text) → IsDense s → IsApart rest → word (s ++ rest) ≡ s
    word-append [] [] h apart = unfold word in refl
    word-append [] (c ∷ rest) h apart = unfold word in rw apart refl
    word-append (c ∷ s) rest h apart = unfold word in rw (h.0, word-append s rest h.1 apart) refl

pub trim_end-append :
    (s rest : Text)
    → IsDense s
    → trim_end_matches is_whitespace (s ++ rest) ≡ s ++ trim_end_matches is_whitespace rest
unfolding trim_end_matches
trim_end-append [] rest h = refl
trim_end-append (c ∷ s) rest h = rw (trim_end-append s rest h.1, h.0, and_false) refl

pub trim-append :
    (s rest : Text)
    → IsDense s
    → s ≢ []
    → trim (s ++ rest) ≡ s ++ trim_end_matches is_whitespace rest
unfolding trim
trim-append [] rest h ne = absurd (ne refl)
trim-append (c ∷ s) rest h ne =
    rw (trim_start-head c (s ++ rest) h.0) (trim_end-append (c ∷ s) rest h)

pub trim_end-IsApart : (s : Text) → IsApart s → IsApart (trim_end_matches is_whitespace s)
unfolding trim_end_matches
trim_end-IsApart [] h = tt
trim_end-IsApart (c ∷ s) h = elim (Bool-cases (is_empty (trim_end_matches is_whitespace s))) [
  | inl e ↦ rw (e, h) tt
  | inr e ↦ rw e h
]

-- What holds of every character holds of those that are kept.
pub All-trim_end {κ} :
    (P : ℕ → Type κ) (p : ℕ → Bool) (s : Text) → All P s → All P (trim_end_matches p s)
unfolding trim_end_matches
All-trim_end P p [] h = tt
All-trim_end P p (c ∷ s) (h, hs) = elim (Bool-cases (is_empty (trim_end_matches p s) && p c)) [
  | inl e ↦ rw e tt
  | inr e ↦ rw e (h, All-trim_end P p s hs)
]

-- The end is cut off the first text so that the second is left, which is not empty.
abbrev pub Leaves : (ℕ → Bool) → Text → Text → Type 0
Leaves p s kept = (trim_end_matches p s ≡ kept) × (is_empty (trim_end_matches p s) ≡ false)

-- Where something of the end is kept, all before it is kept.
pub append-Leaves :
    (p : ℕ → Bool) (s t kept : Text) → Leaves p t kept → Leaves p (s ++ t) (s ++ kept)
unfolding trim_end_matches
append-Leaves p [] t kept h = h
append-Leaves p (c ∷ s) t kept h =
    let (same, filled) = append-Leaves p s t kept h in
    (rw filled (ap (λ u. c ∷ u) same), rw filled refl)

-- Behind a character that is kept, the rest is trimmed.
pub cons-Leaves :
    (p : ℕ → Bool) (c : ℕ) (s : Text) → p c ≡ false → Leaves p (c ∷ s) (c ∷ trim_end_matches p s)
unfolding trim_end_matches
cons-Leaves p c s h = (rw (h, and_false) refl, rw (h, and_false) refl)

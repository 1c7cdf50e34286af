-- ===== src/Service/Pattern/Search.antt =====
-- What a search finds in a text: at its start, further on, or not at all.
use rnmap.Base.{
  ℕ, ◌≡◌, refl, ap, ◌∙◌, false, [], ◌∷◌, append-nil, Option, none, some, ◌==◌, All, Bool-cases, inl,
  inr,
}
use rnmap.Text.{Text, starts_with}
use rnmap.Service.Pattern.{text_start, literal, piece, Pattern, Captures}
use rnmap.Service.Pattern.Meaning.{
  Tables, each, first, is_start, take_text, step, matches, or_else, search, find,
}

module _ (tables : Tables) where
  -- A match that begins at once is the one that is found.
  pub search-here :
      (pattern : Pattern) (b : Option ℕ) (s : Text) {captures : Captures pattern}
      → first (matches tables pattern (b, s)) ≡ some captures
      → search tables pattern b s ≡ some captures
  unfolding search
  search-here pattern b [] h = h
  search-here pattern b (c ∷ s) h = rw h refl

  -- Where nothing matches, the search goes on.
  pub search-later :
      (pattern : Pattern) (b : Option ℕ) (c : ℕ) (s : Text)
      → first (matches tables pattern (b, c ∷ s)) ≡ none
      → search tables pattern b (c ∷ s) ≡ search tables pattern (some c) s
  unfolding search
  search-later pattern b c s h = rw h refl

  -- A pattern for the start of the text is tried there only.
  module _ (nodes : Pattern) where
    nowhere :
        (b : ℕ) (s : Text) → first (matches tables (piece text_start ∷ nodes) (some b, s)) ≡ none
    unfolding matches step is_start each first
    nowhere b s = refl

    never : (b : ℕ) (s : Text) → search tables (piece text_start ∷ nodes) (some b) s ≡ none
    unfolding search
    never b [] = nowhere b []
    never b (c ∷ s) =
        search-later (piece text_start ∷ nodes) (some b) c s (nowhere b (c ∷ s)) ∙ never c s

    or_else-none {ℓ} : {A : Type ℓ} (o : Option A) → or_else o none ≡ o
    or_else-none none = refl
    or_else-none (some a) = refl

    at_start :
        (s : Text)
        → matches tables (piece text_start ∷ nodes) (none, s) ≡ matches tables nodes (none, s)
    unfolding matches step is_start each
    at_start s = append-nil (matches tables nodes (none, s))

    pub find-text_start :
        (s : Text)
        → find tables (piece text_start ∷ nodes) s ≡ first (matches tables nodes (none, s))
    unfolding find search
    find-text_start [] = ap first (at_start [])
    find-text_start (c ∷ s) =
        ap (or_else (first (matches tables (piece text_start ∷ nodes) (none, c ∷ s)))) (never c s)
        ∙ or_else-none _
        ∙ ap first (at_start (c ∷ s))

  take_text-none :
      (b : Option ℕ) (t s : Text)
      → starts_with s t ≡ false
      → take_text tables (λ c d. c == d) t b s ≡ []
  unfolding take_text
  take_text-none b [] s h = cc
  take_text-none b (d ∷ t) [] h = refl
  take_text-none b (d ∷ t) (c ∷ s) h = elim (Bool-cases (c == d)) [
    | inl e ↦ rw (e, take_text-none (some c) t s (rw e at h)) refl
    | inr e ↦ rw e refl
  ]

  -- Nothing is found in a text that does not begin with the literal text of the pattern.
  pub find-literal-none :
      (t : Text) (nodes : Pattern) (s : Text)
      → starts_with s t ≡ false
      → find tables (piece text_start ∷ piece (literal t) ∷ nodes) s ≡ none
  unfolding matches step each first
  find-literal-none t nodes s h =
      find-text_start (piece (literal t) ∷ nodes) s
      ∙ ap (λ l. first (each l (λ (u, end). matches tables nodes end))) (take_text-none none t s h)

  -- A pattern that begins with a literal text is found only where its first character is.
  pub search-literal-none :
      (d : ℕ) (t : Text) (nodes : Pattern) (b : Option ℕ) (s : Text)
      → All (λ c. (c == d) ≡ false) s
      → search tables (piece (literal (d ∷ t)) ∷ nodes) b s ≡ none
  unfolding search
  search-literal-none d t nodes b [] h = unfold matches step take_text each first in refl
  search-literal-none d t nodes b (c ∷ s) h =
      search-later (piece (literal (d ∷ t)) ∷ nodes) b c s
        (unfold matches step take_text each first in rw h.0 refl)
      ∙ search-literal-none d t nodes (some c) s h.1

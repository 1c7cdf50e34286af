-- ===== src/Service/Pattern/First.antt =====
-- The first match at a place, piece by piece.
use rnmap.Base.{
  ℕ, zero, suc, length, ◌≡◌, ◌≢◌, refl, ap, ◌∙◌, Bool, true, false, List, [], ◌∷◌, ◌++◌, map,
  append-nil, Option, some, arith, ◌==◌, All, ==_refl,
}
use rnmap.Text.{Text}
use rnmap.Service.Pattern.{
  Class, Piece, line_start, literal, literal_folded, plus, times, star, piece, group, Pattern,
  Captures,
}
use rnmap.Service.Pattern.Meaning.{
  Tables, Place, each, first, is_line_start, fits, take_one, put, take_text, same_folded, take_many,
  take_times, behind, step, steps, matches,
}

module _ {ℓ} {A : Type ℓ} where
  pub first-append : {a : A} (l m : List A) → first l ≡ some a → first (l ++ m) ≡ some a
  unfolding first
  first-append [] m h = cc
  first-append (x ∷ l) m h = h

  pub first-map {κ} :
      {B : Type κ} (f : A → B) {a : A} (l : List A)
      → first l ≡ some a
      → first (map f l) ≡ some (f a)
  unfolding first
  first-map f [] h = cc
  first-map f (x ∷ l) h = cc

pub first-each {ℓ κ} :
    {A : Type ℓ} {B : Type κ} {a : A} {b : B} (l : List A) (f : A → List B)
    → first l ≡ some a
    → first (f a) ≡ some b
    → first (each l f) ≡ some b
unfolding first each
first-each [] f h k = cc
first-each (x ∷ l) f h k = first-append (f x) (each l f) (cc)

-- The character before the place behind a text.
abbrev pub last_of : Option ℕ → Text → Option ℕ
last_of b [] = b
last_of b (c ∷ s) = last_of (some c) s

-- The two texts have the same length, and the comparison holds of each pair of characters.
abbrev pub Alike : (ℕ → ℕ → Bool) → Text → Text → Type 0
Alike same [] [] = Unit
Alike same [] (d ∷ t) = ⊥
Alike same (c ∷ s) [] = ⊥
Alike same (c ∷ s) (d ∷ t) = (same c d ≡ true) × Alike same s t

module _ (tables : Tables) where
  -- The text is empty or begins with a character that is not of the class.
  abbrev pub Stops : Class → Text → Type 0
  Stops k [] = Unit
  Stops k (c ∷ rest) = fits tables k c ≡ false

  abbrev pub AllFit : Class → Text → Type 0
  AllFit k s = All (λ c. fits tables k c ≡ true) s

  pub first-take_many :
      (k : Class) (b : Option ℕ) (s rest : Text)
      → AllFit k s
      → Stops k rest
      → first (take_many tables k b (s ++ rest)) ≡ some (s, (last_of b s, rest))
  unfolding first take_many
  first-take_many k b [] [] hs stops = refl
  first-take_many k b [] (c ∷ rest) hs stops = rw stops refl
  first-take_many k b (c ∷ s) rest (h, hs) stops =
      rw h
        (first-append _ _ (first-map (put tables c) _ (first-take_many k (some c) s rest hs stops)))

  pub first-behind :
      {t u : Text} {place end : Place} (l : List (Text × Place))
      (next : Place → List (Text × Place))
      → first l ≡ some (t, place)
      → first (next place) ≡ some (u, end)
      → first (behind tables l next) ≡ some (t ++ u, end)
  unfolding behind
  first-behind l next h k = first-each l _ h (first-map _ _ k)

  pub first-take_one :
      (k : Class) (b : Option ℕ) (c : ℕ) (s : Text)
      → fits tables k c ≡ true
      → first (take_one tables k (b, c ∷ s)) ≡ some (c ∷ [], (some c, s))
  unfolding take_one first
  first-take_one k b c s h = rw h refl

  pub first-plus :
      (k : Class) (b : Option ℕ) (s rest : Text)
      → s ≢ []
      → AllFit k s
      → Stops k rest
      → first (step tables (plus k) (b, s ++ rest)) ≡ some (s, (last_of b s, rest))
  unfolding step
  first-plus k b [] rest ne hs stops = absurd (ne refl)
  first-plus k b (c ∷ s) rest ne (h, hs) stops =
      first-behind (take_one tables k (b, c ∷ (s ++ rest))) (λ (d, t). take_many tables k d t)
        (first-take_one k b c (s ++ rest) h) (first-take_many k (some c) s rest hs stops)

  pub first-take_text :
      (same : ℕ → ℕ → Bool) (b : Option ℕ) (t s rest : Text)
      → Alike same s t
      → first (take_text tables same t b (s ++ rest)) ≡ some (s, (last_of b s, rest))
  unfolding first take_text
  first-take_text same b [] [] rest h = refl
  first-take_text same b (d ∷ t) [] rest h = absurd h
  first-take_text same b [] (c ∷ s) rest h = absurd h
  first-take_text same b (d ∷ t) (c ∷ s) rest (h, hs) =
      rw h (first-map (put tables c) _ (first-take_text same (some c) t s rest hs))

  pub equal-Alike : (s : Text) → Alike (λ c d. c == d) s s
  equal-Alike [] = tt
  equal-Alike (c ∷ s) = (==_refl c, equal-Alike s)

  pub first-literal :
      (b : Option ℕ) (t rest : Text)
      → first (step tables (literal t) (b, t ++ rest)) ≡ some (t, (last_of b t, rest))
  unfolding step
  first-literal b t rest = first-take_text _ b t t rest (equal-Alike t)

  pub first-literal_folded :
      (b : Option ℕ) (t s rest : Text)
      → Alike (same_folded tables) s t
      → first (step tables (literal_folded t) (b, s ++ rest)) ≡ some (s, (last_of b s, rest))
  unfolding step
  first-literal_folded b t s rest h = first-take_text (same_folded tables) b t s rest h

  pub first-line_start :
      (b : Option ℕ) (s : Text)
      → is_line_start b ≡ true
      → first (step tables line_start (b, s)) ≡ some ([], (b, s))
  unfolding step first
  first-line_start b s h = rw h refl

  pub first-star :
      (k : Class) (b : Option ℕ) (s rest : Text)
      → AllFit k s
      → Stops k rest
      → first (step tables (star k) (b, s ++ rest)) ≡ some (s, (last_of b s, rest))
  unfolding step
  first-star k b s rest hs stops = first-take_many k b s rest hs stops

  -- A match that begins with the piece, or with the group.
  pub first-piece :
      (p : Piece) (place : Place) {end : Place} {t : Text} (nodes : Pattern)
      {captures : Captures nodes}
      → first (step tables p place) ≡ some (t, end)
      → first (matches tables nodes end) ≡ some captures
      → first (matches tables (piece p ∷ nodes) place) ≡ some captures
  unfolding matches
  first-piece p place nodes h k = first-each _ _ h k

  pub first-group :
      (g : List Piece) (place : Place) {end : Place} {t : Text} (nodes : Pattern)
      {captures : Captures nodes}
      → first (steps tables g place) ≡ some (t, end)
      → first (matches tables nodes end) ≡ some captures
      → first (matches tables (group g ∷ nodes) place) ≡ some (t, captures)
  unfolding matches
  first-group g place nodes h k = first-each _ _ h (first-map _ _ k)

  -- Nothing behind the last node.
  pub first-end : (place : Place) → first (matches tables [] place) ≡ some tt
  unfolding matches first
  first-end place = refl

  pub first-steps :
      (p : Piece) (ps : List Piece) (place : Place) {middle end : Place} {t u : Text}
      → first (step tables p place) ≡ some (t, middle)
      → first (steps tables ps middle) ≡ some (u, end)
      → first (steps tables (p ∷ ps) place) ≡ some (t ++ u, end)
  unfolding steps
  first-steps p ps place h k = first-behind _ _ h k

  pub first-last :
      (p : Piece) (place : Place) {end : Place} {t : Text}
      → first (step tables p place) ≡ some (t, end)
      → first (steps tables (p ∷ []) place) ≡ some (t, end)
  unfolding steps first
  first-last p place {end = end} {t = t} h =
      first-behind (step tables p place) (steps tables []) h refl
      ∙ ap some (ap (λ u. (u, end)) (append-nil t))

  pub first-times :
      (n : ℕ) (k : Class) (b : Option ℕ) (s rest : Text)
      → length s ≡ n
      → AllFit k s
      → first (step tables (times n k) (b, s ++ rest)) ≡ some (s, (last_of b s, rest))
  unfolding step
  first-times n k b s rest h fit = counted n b s h fit
    where
      counted :
          (n : ℕ) (b : Option ℕ) (s : Text)
          → length s ≡ n
          → AllFit k s
          → first (take_times tables n k (b, s ++ rest)) ≡ some (s, (last_of b s, rest))
      counted zero b [] h fit = unfold take_times first in refl
      counted zero b (c ∷ s) h fit = absurd (omega arith)
      counted (suc n) b [] h fit = absurd (omega arith)
      counted (suc n) b (c ∷ s) h fit =
          unfold take_times in
          first-behind (take_one tables k (b, c ∷ (s ++ rest))) (take_times tables n k)
            (first-take_one k b c (s ++ rest) fit.0) (counted n (some c) s (omega arith) fit.1)

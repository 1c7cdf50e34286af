-- ===== src/Service/Pattern/Meaning.antt =====
-- What the crate `regex` documents of a search: the match that begins first, and among those the one
-- that comes first if the repetitions take as much as they can.
use rnmap.Base.{
  ◌+◌, ℕ, zero, suc, ◌≡◌, Bool, true, false, not, ◌&&◌, ◌||◌, List, [], ◌∷◌, ◌++◌, map, Option,
  none, some, ◌==◌, leb, if◌then◌else◌,
}
use rnmap.Text.{Text}
use rnmap.Text.Space.{is_whitespace}
use rnmap.Service.Pattern.{
  Item, char, range, digit, space, Class, dot, one_of, none_of, Piece, text_start, line_start,
  literal, literal_folded, one, plus, star, times, piece, group, Pattern, Captures, Regex,
}

-- The tables of Unicode: the decimal digits, and simple case folding.
pub record Tables : Type 0 where
  pub is_digit : ℕ → Bool
  pub fold : ℕ → ℕ

-- A place in the text: the character before it, and what is behind.
abbrev pub Place : Type 0
Place = Option ℕ × Text

-- All alternatives of the first step, each with all of the second, in their order.
unfoldable pub each {ℓ κ} : {A : Type ℓ} {B : Type κ} → List A → (A → List B) → List B
each [] f = []
each (a ∷ rest) f = f a ++ each rest f

-- The first alternative, if there is one.
unfoldable pub first {ℓ} : {A : Type ℓ} → List A → Option A
first [] = none
first (a ∷ rest) = some a

abbrev pub or_else {ℓ} : {A : Type ℓ} → Option A → Option A → Option A
or_else (some a) later = some a
or_else none later = later

unfoldable pub is_start : Option ℕ → Bool
is_start none = true
is_start (some c) = false

unfoldable pub is_line_start : Option ℕ → Bool
is_line_start none = true
is_line_start (some c) = c == 10

module _ (tables : Tables) where
  unfoldable pub fits_item : Item → ℕ → Bool
  unfolding is_whitespace
  fits_item (char d) c = c == d
  fits_item (range lo hi) c = leb lo c && leb c hi
  fits_item digit c = tables.is_digit c
  fits_item space c = is_whitespace c

  unfoldable pub fits_any : List Item → ℕ → Bool
  unfolding fits_item
  fits_any [] c = false
  fits_any (item ∷ items) c = fits_item item c || fits_any items c

  unfoldable pub fits : Class → ℕ → Bool
  unfolding fits_any
  fits dot c = not (c == 10)
  fits (one_of items) c = fits_any items c
  fits (none_of items) c = not (fits_any items c)

  -- One character of the class.
  unfoldable pub take_one : Class → Place → List (Text × Place)
  unfolding fits
  take_one k (b, []) = []
  take_one k (b, c ∷ s) = if fits k c then (c ∷ [], (some c, s)) ∷ [] else []

  abbrev pub put : ℕ → Text × Place → Text × Place
  put c (t, place) = (c ∷ t, place)

  -- The characters of the text, up to a comparison.
  unfoldable pub take_text : (ℕ → ℕ → Bool) → Text → Option ℕ → Text → List (Text × Place)
  take_text same [] b s = ([], (b, s)) ∷ []
  take_text same (d ∷ t) b [] = []
  take_text same (d ∷ t) b (c ∷ s) =
      let rest = take_text same t (some c) s in if same c d then map (put c) rest else []

  abbrev pub same_folded : ℕ → ℕ → Bool
  same_folded c d = tables.fold c == tables.fold d

  -- As many characters of the class as there are, then one less, down to none.
  unfoldable pub take_many : Class → Option ℕ → Text → List (Text × Place)
  unfolding fits
  take_many k b [] = ([], (b, [])) ∷ []
  take_many k b (c ∷ s) =
      let rest = take_many k (some c) s in
      if fits k c then map (put c) rest ++ ([], (b, c ∷ s)) ∷ [] else ([], (b, c ∷ s)) ∷ []

  -- One step behind another; the texts that they take are put together.
  unfoldable pub behind : List (Text × Place) → (Place → List (Text × Place)) → List (Text × Place)
  unfolding each
  behind steps next = each steps (λ (t, place). map (λ (u, end). (t ++ u, end)) (next place))

  unfoldable pub take_times : ℕ → Class → Place → List (Text × Place)
  unfolding behind take_one
  take_times zero k place = ([], place) ∷ []
  take_times (suc n) k place = behind (take_one k place) (take_times n k)

  unfoldable pub step : Piece → Place → List (Text × Place)
  unfolding behind take_text take_one take_many take_times is_start is_line_start
  step text_start (b, s) = if is_start b then ([], (b, s)) ∷ [] else []
  step line_start (b, s) = if is_line_start b then ([], (b, s)) ∷ [] else []
  step (literal t) (b, s) = take_text (λ c d. c == d) t b s
  step (literal_folded t) (b, s) = take_text same_folded t b s
  step (one k) place = take_one k place
  step (plus k) place = behind (take_one k place) (λ (b, s). take_many k b s)
  step (star k) (b, s) = take_many k b s
  step (times n k) place = take_times n k place

  unfoldable pub steps : List Piece → Place → List (Text × Place)
  unfolding step
  steps [] place = ([], place) ∷ []
  steps (p ∷ ps) place = behind (step p place) (steps ps)

  -- The matches that begin at the place, with what they capture.
  unfoldable pub matches : (pattern : Pattern) → Place → List (Captures pattern)
  unfolding steps each
  matches [] place = tt ∷ []
  matches (piece p ∷ nodes) place = each (step p place) (λ (t, end). matches nodes end)
  matches (group g ∷ nodes) place =
      each (steps g place) (λ (t, end). map (λ captures. (t, captures)) (matches nodes end))

  unfoldable pub search : (pattern : Pattern) → Option ℕ → Text → Option (Captures pattern)
  unfolding matches first
  search pattern b [] = first (matches pattern (b, []))
  search pattern b (c ∷ s) =
      or_else (first (matches pattern (b, c ∷ s))) (search pattern (some c) s)

  unfoldable pub find : Regex
  unfolding search
  find pattern s = search pattern none s

-- What the tables hold of ASCII.
pub record IsUnicode (tables : Tables) : Type 0 where
  pub ascii_digit : (c : ℕ) → leb c 127 ≡ true → tables.is_digit c ≡ (leb b'0' c && leb c b'9')
  pub ascii_fold :
      (c : ℕ) → leb c 127 ≡ true → tables.fold c ≡ (if leb b'A' c && leb c b'Z' then c + 32 else c)

-- The crate finds what it documents, with the tables of Unicode.
pub record IsDocumented (regex : Regex) : Type 0 where
  pub tables : Tables
  pub unicode : IsUnicode tables
  pub finds : (pattern : Pattern) (s : Text) → regex pattern s ≡ find tables pattern s

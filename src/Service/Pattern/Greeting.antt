-- ===== src/Service/Pattern/Greeting.antt =====
-- The patterns for FTP and SMTP: what they find, and that the former matches where the latter does.
use rnmap.Base.{
  ℕ, ◌≡◌, refl, ap, ◌∙◌, drop, Bool, true, false, ◌&&◌, ◌||◌, [], ◌∷◌, append-nil, Option, sym,
  none, some, arith, ◌==◌, if◌then◌else◌, Bool-cases, inl, inr,
}
use rnmap.Text.{Text}
use rnmap.Service.Pattern.{Regex, Class, group, plus, code_220, ftp, smtp, dot, line_ends}
use rnmap.Service.Pattern.Meaning.{
  Tables, Place, IsDocumented, first, each, take_text, take_one, take_many, behind, put, step,
  steps, matches, find, fits, fits_any, fits_item,
}
use rnmap.Service.Pattern.First.{
  first-append, first-map, first-behind, first-take_one, first-group, first-last, first-end,
}
use rnmap.Service.Pattern.Search.{find-text_start}

-- The longest run of characters that pass the test, if it is not empty.
pub run : (ℕ → Bool) → Text → Text
run p [] = []
run p (c ∷ s) = let rest = run p s in if p c then c ∷ rest else []

abbrev groups : Option Text → Option (Text × Unit {0})
groups none = none
groups (some t) = some (t, tt)

abbrev pub non_empty : Text → Option Text
non_empty [] = none
non_empty (c ∷ s) = some (c ∷ s)

-- `^220[ \-](…+)`, whose group is the longest run of the characters of a class.
pub greeting : (ℕ → Bool) → Text → Option Text
unfolding run
greeting p (a ∷ b ∷ c ∷ d ∷ s) =
    if a == b'2' && b == b'2' && c == b'0' && (d == b' ' || d == b'-')
    then non_empty (run p s)
    else none
greeting p _ = none

module _ (tables : Tables) (k : Class) where
  run-first :
      (b : Option ℕ) (s : Text)
      → (place : Place) × (first (take_many tables k b s) ≡ some (run (fits tables k) s, place))
  unfolding run take_many first
  run-first b [] = ((b, []), refl)
  run-first b (c ∷ s) = elim (Bool-cases (fits tables k c)) [
    | inl fit ↦
        let (place, found) = run-first (some c) s in
        (place, rw fit (first-append _ _ (first-map (put tables c) _ found)))
    | inr other ↦ ((b, c ∷ s), rw other refl)
  ]

  first-plus-run :
      (b : Option ℕ) (c : ℕ) (s : Text)
      → fits tables k c ≡ true
      → (end : Place) × (first (step tables (plus k) (b, c ∷ s))
          ≡ some (c ∷ run (fits tables k) s, end))
  unfolding step
  first-plus-run b c s fit =
      let (end, found) = run-first (some c) s in
      (
        end,
        first-behind tables (take_one tables k (b, c ∷ s)) (λ (d, t). take_many tables k d t)
            (first-take_one tables k b c s fit) found,
      )

  first-group-run :
      (b : Option ℕ) (c : ℕ) (s : Text)
      → fits tables k c ≡ true
      → first (matches tables (group (plus k ∷ []) ∷ []) (b, c ∷ s))
        ≡ some (c ∷ run (fits tables k) s, tt)
  first-group-run b c s fit =
      let (end, found) = first-plus-run b c s fit in
      first-group tables (plus k ∷ []) (b, c ∷ s) [] (first-last tables (plus k) (b, c ∷ s) found)
        (first-end tables end)

  first-group-stop :
      (b : Option ℕ) (c : ℕ) (s : Text)
      → fits tables k c ≡ false
      → first (matches tables (group (plus k ∷ []) ∷ []) (b, c ∷ s)) ≡ none
  unfolding matches steps step take_one behind first each
  first-group-stop b c s other = rw other refl

  first-group-plus :
      (b : Option ℕ) (s : Text)
      → first (matches tables (group (plus k ∷ []) ∷ []) (b, s))
        ≡ groups (non_empty (run (fits tables k) s))
  unfolding run
  first-group-plus b [] = unfold matches steps step take_one behind first each in refl
  first-group-plus b (c ∷ s) = elim (Bool-cases (fits tables k c)) [
    | inl fit ↦ rw (fit, first-group-run b c s fit) refl
    | inr other ↦ rw (other, first-group-stop b c s other) refl
  ]

  behind_code :
      (a b c d : ℕ) (s : Text)
      → first (matches tables (drop 1 (code_220 k)) (none, a ∷ b ∷ c ∷ d ∷ s)) ≡ (
          if a == b'2' && b == b'2' && c == b'0' && (d == b' ' || d == b'-')
          then first (matches tables (drop 3 (code_220 k)) (some d, s))
          else none)
  unfolding matches step take_text take_one fits fits_any fits_item each first
  behind_code a b c d s = elim (Bool-cases (a == b'2')) [
    | inl ha ↦ rw ha (elim (Bool-cases (b == b'2')) [
      | inl hb ↦ rw hb (elim (Bool-cases (c == b'0')) [
        | inl hc ↦ rw hc (elim (Bool-cases (d == b' ')) [
          | inl hd ↦ rw hd (simp append-nil)
          | inr no_space ↦ rw no_space (elim (Bool-cases (d == b'-')) [
            | inl hd ↦ rw hd (simp append-nil)
            | inr other ↦ rw other refl
          ])
        ])
        | inr other ↦ rw other refl
      ])
      | inr other ↦ rw other refl
    ])
    | inr other ↦ rw other refl
  ]

  find-code_220 : (s : Text) → find tables (code_220 k) s ≡ groups (greeting (fits tables k) s)
  unfolding greeting matches step take_text first each
  find-code_220 [] = find-text_start tables (drop 1 (code_220 k)) []
  find-code_220 (a ∷ []) = find-text_start tables (drop 1 (code_220 k)) (a ∷ []) ∙ ground arith
  find-code_220 (a ∷ b ∷ []) =
      find-text_start tables (drop 1 (code_220 k)) (a ∷ b ∷ []) ∙ ground arith
  find-code_220 (a ∷ b ∷ c ∷ []) =
      find-text_start tables (drop 1 (code_220 k)) (a ∷ b ∷ c ∷ []) ∙ ground arith
  find-code_220 (a ∷ b ∷ c ∷ d ∷ s) =
      find-text_start tables (drop 1 (code_220 k)) (a ∷ b ∷ c ∷ d ∷ s)
      ∙ behind_code a b c d s
      ∙ rw (first-group-plus (some d) s) (ground arith)

run-some :
    (tables : Tables) (s : Text) → run (fits tables dot) s ≡ [] → run (fits tables line_ends) s ≡ []
unfolding run fits fits_any fits_item
run-some tables [] h = refl
run-some tables (c ∷ s) h = ground arith

non_empty-none : (s : Text) → non_empty s ≡ none → s ≡ []
non_empty-none [] h = refl
non_empty-none (c ∷ s) h = ground arith

greeting-none :
    (tables : Tables) (s : Text)
    → greeting (fits tables dot) s ≡ none
    → greeting (fits tables line_ends) s ≡ none
unfolding greeting
greeting-none tables [] h = refl
greeting-none tables (a ∷ []) h = refl
greeting-none tables (a ∷ b ∷ []) h = refl
greeting-none tables (a ∷ b ∷ c ∷ []) h = refl
greeting-none tables (a ∷ b ∷ c ∷ d ∷ s) h =
    elim (Bool-cases (a == b'2' && b == b'2' && c == b'0' && (d == b' ' || d == b'-'))) [
      | inl code ↦
          rw (code, run-some tables s (non_empty-none (run (fits tables dot) s) (rw code at h)))
            refl
      | inr other ↦ rw other refl
    ]

-- What the SMTP pattern matches, the FTP pattern matches.
pub find-ftp-none :
    (regex : Regex) (s : Text) → IsDocumented regex → regex ftp s ≡ none → regex smtp s ≡ none
find-ftp-none regex s documented h =
    let t = documented.tables in
    documented.finds smtp s
    ∙ find-code_220 t line_ends s
    ∙ ap groups (
        greeting-none t s
          (groups-none _ (sym (find-code_220 t dot s) ∙ sym (documented.finds ftp s) ∙ h)))
  where
    groups-none : (o : Option Text) → groups o ≡ none → o ≡ none
    groups-none none e = refl
    groups-none (some t) e = cc

-- ===== src/Text/Defs.antt =====
-- Texts, their literals, and comparison.
use Prim.Native.Char.{code}
use rnmap.Base.{
  ℕ, ◌≡◌, String, Bool, true, false, ◌&&◌, List, [], ◌∷◌, ◌++◌, arith, ◌==◌, refl, All,
}

abbrev pub Text : Type 0
Text = List ℕ

abbrev pub codes : String → Text
codes String.[] = []
codes (String.◌∷◌ c s) = code c ∷ codes s

-- `==` of texts.
abbrev pub text_eq : Text → Text → Bool
text_eq [] [] = true
text_eq [] (d ∷ t) = false
text_eq (c ∷ s) [] = false
text_eq (c ∷ s) (d ∷ t) = c == d && text_eq s t

pub text_eq_sound : (s t : Text) → text_eq s t ≡ true → s ≡ t
text_eq_sound [] [] h = refl
text_eq_sound [] (d ∷ t) h = ground arith
text_eq_sound (c ∷ s) [] h = ground arith
text_eq_sound (c ∷ s) (d ∷ t) h = ground (arith, text_eq_sound s t)

pub text_eq_refl : (s : Text) → text_eq s s ≡ true
text_eq_refl [] = refl
text_eq_refl (c ∷ s) = ground (arith, text_eq_refl s)

-- `starts_with` a text.
abbrev pub starts_with : Text → Text → Bool
starts_with s [] = true
starts_with [] (d ∷ t) = false
starts_with (c ∷ s) (d ∷ t) = c == d && starts_with s t

-- `contains` a text.
abbrev pub contains_text : Text → Text → Bool
contains_text [] t = starts_with [] t
contains_text (c ∷ s) t = elim (starts_with (c ∷ s) t) [ true ↦ true | false ↦ contains_text s t ]

-- `join` with a separator.
abbrev pub join : Text → List Text → Text
join sep [] = []
join sep (s ∷ []) = s
join sep (s ∷ t ∷ rest) = s ++ (sep ++ join sep (t ∷ rest))

-- A text is found only where its first character is.
pub contains_text-append :
    (s rest : Text) (d : ℕ) (t : Text)
    → All (λ c. (c == d) ≡ false) s
    → contains_text (s ++ rest) (d ∷ t) ≡ contains_text rest (d ∷ t)
contains_text-append [] rest d t h = refl
contains_text-append (c ∷ s) rest d t h = ground (arith, contains_text-append s rest d t h.1)

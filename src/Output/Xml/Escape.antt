-- ===== src/Output/Xml/Escape.antt =====
-- The escaping of attribute values.
use rnmap.Base.{
  ℕ, ◌≡◌, refl, ◌∙◌, [], ◌∷◌, ◌++◌, append_assoc, ◌==◌, if◌then◌else◌, arith, Bool-cases, inl, inr,
}
use rnmap.Text.{Text, codes}
use rnmap.Output.Formats.{quote}
use rnmap.Output.Xml.{replace, x}

-- The text that stands for one character.
unfoldable pub entity : ℕ → Text
entity c =
    if c == b'&'
    then codes "&amp;"
    else if c == b'<'
    then codes "&lt;"
    else if c == b'>'
    then codes "&gt;"
    else if c == quote
    then codes "&quot;"
    else if c == 39
    then codes "&apos;"
    else c ∷ []

-- One pass over the text, each character by its entity.
unfoldable pub escape : Text → Text
escape [] = []
escape (c ∷ s) = entity c ++ escape s

replace-append : (c : ℕ) (t s r : Text) → replace c t (s ++ r) ≡ replace c t s ++ replace c t r
unfolding replace
replace-append c t [] r = refl
replace-append c t (d ∷ s) r = elim (Bool-cases (d == c)) [
  | inl hit ↦ rw (hit, replace-append c t s r, append_assoc) refl
  | inr miss ↦ rw (miss, replace-append c t s r) refl
]

x-append : (s r : Text) → x (s ++ r) ≡ x s ++ x r
unfolding x
x-append s r = simp replace-append

x-entity : (c : ℕ) → x (c ∷ []) ≡ entity c
unfolding x entity
x-entity c = ground arith

-- The five replacements, one after the other, amount to one pass that replaces each of the five
-- characters of the text by its entity: no replacement touches what an earlier one has written.
pub x-escape : (s : Text) → x s ≡ escape s
unfolding escape
x-escape [] = unfold x in refl
x-escape (c ∷ s) = x-append (c ∷ []) s ∙ rw (x-entity c, x-escape s) refl

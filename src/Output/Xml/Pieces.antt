-- ===== src/Output/Xml/Pieces.antt =====
-- The reader run over the pieces of a document, with any `rest` behind each.
use rnmap.Base.{
  ℕ, ◌≡◌, ◌≤◌, ◌≢◌, refl, ap, ◌∙◌, false, List, [], ◌∷◌, ◌++◌, append_assoc, append-nil, arith, All,
}
use rnmap.Text.{Text, codes}
use rnmap.Output.Formats.{quote, attribute}
use rnmap.Output.Xml.{x}
use rnmap.Output.Xml.Escape.{entity, escape, x-escape}
use rnmap.Output.Xml.Reader.{
  Tag, Token, Mode, in_value, attr_name, before_attr, after_attr, has_attr, add_attr, at, step_in,
  run,
}

-- No control character, which XML 1.0 does not allow.
abbrev pub IsPlain : Text → Type 0
IsPlain s = All (λ c. 32 ≤ c) s

-- A character that stands for itself in a value.
abbrev pub IsRaw : Text → Type 0
IsRaw s = All (λ c. (32 ≤ c) × (c ≢ b'<') × (c ≢ b'&') × (c ≢ quote)) s

module _ (t : Tag) (n : Text) (names : List Text) (out : List Token) where
  run-entity :
      (c : ℕ) (v rest : Text)
      → 32 ≤ c
      → run (at (in_value t n v) names out) (entity c ++ rest)
        ≡ run (at (in_value t n (v ++ c ∷ [])) names out) rest
  unfolding run entity
  run-entity c v rest h = ground arith

  step-raw :
      (c : ℕ) (v : Text)
      → (32 ≤ c) × (c ≢ b'<') × (c ≢ b'&') × (c ≢ quote)
      → step_in (in_value t n v) (at (in_value t n v) names out) c
        ≡ at (in_value t n (v ++ c ∷ [])) names out
  unfolding step_in
  step-raw c v h = ground arith

  pub run-raw :
      (s v rest : Text)
      → IsRaw s
      → run (at (in_value t n v) names out) (s ++ rest)
        ≡ run (at (in_value t n (v ++ s)) names out) rest
  unfolding run step_in
  run-raw [] v rest h = rw append-nil
  run-raw (c ∷ s) v rest h =
      ap (λ r. run r (s ++ rest)) (step-raw c v h.0)
      ∙ run-raw s (v ++ c ∷ []) rest h.1
      ∙ rw append_assoc

  run-escape :
      (s v rest : Text)
      → IsPlain s
      → run (at (in_value t n v) names out) (escape s ++ rest)
        ≡ run (at (in_value t n (v ++ s)) names out) rest
  unfolding escape
  run-escape [] v rest h = rw append-nil
  run-escape (c ∷ s) v rest h = rw append_assoc (
      run-entity c v (escape s ++ rest) h.0 ∙ run-escape s (v ++ c ∷ []) rest h.1 ∙ rw append_assoc)

  pub run-x :
      (s v rest : Text)
      → IsPlain s
      → run (at (in_value t n v) names out) (x s ++ rest)
        ≡ run (at (in_value t n (v ++ s)) names out) rest
  run-x s v rest h = rw x-escape (run-escape s v rest h)

abbrev pub IsName : Text → Type 0
IsName s = All (λ c. (b'a' ≤ c) × (c ≤ b'z')) s

module _ (t : Tag) (names : List Text) (out : List Token) where
  step-letter :
      (c : ℕ) (n : Text)
      → (b'a' ≤ c) × (c ≤ b'z')
      → step_in (attr_name t n) (at (attr_name t n) names out) c
        ≡ at (attr_name t (n ++ c ∷ [])) names out
  unfolding step_in
  step-letter c n h = ground arith

  step-first :
      (c : ℕ)
      → (b'a' ≤ c) × (c ≤ b'z')
      → step_in (before_attr t) (at (before_attr t) names out) c
        ≡ at (attr_name t (c ∷ [])) names out
  unfolding step_in
  step-first c h = ground arith

  run-name :
      (s n rest : Text)
      → IsName s
      → run (at (attr_name t n) names out) (s ++ rest)
        ≡ run (at (attr_name t (n ++ s)) names out) rest
  unfolding run step_in
  run-name [] n rest h = rw append-nil
  run-name (c ∷ s) n rest h =
      ap (λ r. run r (s ++ rest)) (step-letter c n h.0)
      ∙ run-name s (n ++ c ∷ []) rest h.1
      ∙ rw append_assoc

  -- The text is read as a value.
  abbrev pub Reads : Text → Text → Text → Type 0
  Reads n text value =
      (v rest : Text)
      → run (at (in_value t n v) names out) (text ++ rest)
        ≡ run (at (in_value t n (v ++ value)) names out) rest

  step-quote :
      (n value : Text)
      → has_attr n t.attrs ≡ false
      → step_in (in_value t n value) (at (in_value t n value) names out) quote
        ≡ at (after_attr (record t { attrs = t.attrs ++ (n, value) ∷ [] })) names out
  unfolding step_in add_attr
  step-quote n value fresh = rw fresh refl

  -- An attribute, read behind a name or another attribute.
  pub run-attribute :
      (m : Mode) (c : ℕ) (n text value rest : Text)
      → step_in m (at m names out) 32 ≡ at (before_attr t) names out
      → IsName (c ∷ n)
      → has_attr (c ∷ n) t.attrs ≡ false
      → Reads (c ∷ n) text value
      → run (at m names out) (attribute (c ∷ n) text ++ rest)
        ≡ run (at (after_attr (record t { attrs = t.attrs ++ (c ∷ n, value) ∷ [] })) names out) rest
  unfolding run attribute
  run-attribute m c n text value rest behind h fresh reads =
      let tail = quote ∷ (text ++ quote ∷ []) in
      ap (λ r. run r (((c ∷ n) ++ (codes "=" ++ tail)) ++ rest)) behind
      ∙ ap (λ r. run r ((n ++ (codes "=" ++ tail)) ++ rest)) (step-first c h.0)
      ∙ ap (run (at (attr_name t (c ∷ [])) names out)) (append_assoc n (codes "=" ++ tail) rest)
      ∙ run-name n (c ∷ []) ((codes "=" ++ tail) ++ rest) h.1
      ∙ unfold step_in in
        ap (run (at (in_value t (c ∷ n) []) names out)) (append_assoc text (quote ∷ []) rest)
        ∙ reads [] (quote ∷ rest)
        ∙ ap (λ r. run r rest) (step-quote (c ∷ n) value fresh)

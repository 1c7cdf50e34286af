-- ===== src/Ports/RoundTrip.antt =====
-- A port set written as a comma-separated list is parsed back to itself.
use rnmap.Base.{
  ℕ, ◌≤◌, ◌<◌, ◌≡◌, ◌≢◌, refl, false, List, [], ◌∷◌, ◌++◌, map, arith, ok, All, All-append,
  AscendingFrom, append_assoc, append-nil, is_empty,
}
use rnmap.Text.{Text, codes, text_eq, join}
use rnmap.Text.Space.{trim, is_whitespace, IsDense, trim-dense}
use rnmap.Text.Split.{split, Lacks, split-join, split_once-Lacks}
use rnmap.Text.Number.{
  decimal, IsNumeric, decimal-IsNumeric, decimal-ne-nil, parse_uint-decimal, numeric-IsDense,
  numeric-Lacks,
}
use rnmap.Ports.{
  max_u16, parse_u16, insert, add_port, parse_piece, parse_chunk, parse_chunks, finish, parse,
}
use rnmap.Ports.Ascending.{IsPortSet}

-- How a port set is written on the command line.
pub spell : List ℕ → Text
spell ports = join (codes ",") (map decimal ports)

numbers-lack : (ports : List ℕ) → All (Lacks b',') (map decimal ports)
numbers-lack [] = tt
numbers-lack (p ∷ ps) = (numeric-Lacks b',' (decimal p) refl (decimal-IsNumeric p), numbers-lack ps)

spell-IsDense : (ports : List ℕ) → IsDense (spell ports)
unfolding spell
spell-IsDense [] = tt
spell-IsDense (p ∷ []) = numeric-IsDense (decimal p) (decimal-IsNumeric p)
spell-IsDense (p ∷ q ∷ ps) =
    All-append _ (decimal p) _ (numeric-IsDense (decimal p) (decimal-IsNumeric p))
      (unfold is_whitespace in refl, spell-IsDense (q ∷ ps))

-- A written number begins the text, so the text is neither empty nor the lone dash.
digit_first :
    (s rest : Text)
    → s ≢ []
    → IsNumeric s
    → (is_empty (s ++ rest) ≡ false) × (text_eq (s ++ rest) (codes "-") ≡ false)
digit_first [] rest ne h = absurd (ne refl)
digit_first (c ∷ s) rest ne h = (refl, ground arith)

spell_start :
    (p : ℕ) (ps : List ℕ)
    → (is_empty (spell (p ∷ ps)) ≡ false) × (text_eq (spell (p ∷ ps)) (codes "-") ≡ false)
unfolding spell
spell_start p [] =
    rw (← append-nil (decimal p))
      (digit_first (decimal p) [] (decimal-ne-nil p) (decimal-IsNumeric p))
spell_start p (q ∷ ps) = digit_first (decimal p) _ (decimal-ne-nil p) (decimal-IsNumeric p)

parse_u16-decimal : (spec : Text) (p : ℕ) → p ≤ max_u16 → parse_u16 spec (decimal p) ≡ ok p
unfolding parse_u16
parse_u16-decimal spec p h = rw (parse_uint-decimal max_u16 p h)

insert-last : (p : ℕ) (set : List ℕ) → All (λ q. q < p) set → insert p set ≡ set ++ p ∷ []
unfolding insert
insert-last p [] h = refl
insert-last p (q ∷ qs) h = ground (arith, insert-last p qs)

not-empty-decimal : (p : ℕ) → is_empty (decimal p) ≡ false
not-empty-decimal p = go (decimal p) (decimal-ne-nil p)
  where
    go : (s : Text) → s ≢ [] → is_empty s ≡ false
    go [] h = absurd (h refl)
    go (c ∷ s) h = refl

parse_chunk-decimal :
    (spec : Text) (p : ℕ) (set : List ℕ)
    → 0 < p
    → p ≤ max_u16
    → parse_chunk spec (trim (decimal p)) set ≡ ok (insert p set)
unfolding parse_chunk parse_piece add_port
parse_chunk-decimal spec p set pos fits =
    rw
      (
        trim-dense (decimal p) (numeric-IsDense (decimal p) (decimal-IsNumeric p)),
        not-empty-decimal p,
        split_once-Lacks b'-' (decimal p)
            (numeric-Lacks b'-' (decimal p) refl (decimal-IsNumeric p)),
        parse_u16-decimal spec p fits,
      )
      (ground arith)

below_next :
    (p q : ℕ) (set : List ℕ) → p < q → All (λ x. x < p) set → All (λ x. x < q) (set ++ p ∷ [])
below_next p q [] h s = (h, tt)
below_next p q (x ∷ xs) h s = (omega arith, below_next p q xs h s.1)

-- The set built so far lies below the ports that are left.
abbrev Below : List ℕ → List ℕ → Type 0
Below set [] = Unit
Below set (p ∷ ps) = All (λ q. q < p) set

parse_chunks-spell :
    (spec : Text) (ports set : List ℕ) (lo : ℕ)
    → AscendingFrom lo ports
    → All (λ p. p ≤ max_u16) ports
    → Below set ports
    → parse_chunks spec (map decimal ports) set ≡ ok (set ++ ports)
unfolding parse_chunks
parse_chunks-spell spec [] set lo up fits below = rw append-nil
parse_chunks-spell spec (p ∷ ps) set lo up fits below =
    rw
      (
        parse_chunk-decimal spec p set (omega arith) fits.0,
        insert-last p set below,
        parse_chunks-spell spec ps (set ++ p ∷ []) p up.1 fits.1 (next ps up.1),
        append_assoc,
      )
      refl
  where
    next : (rest : List ℕ) → AscendingFrom p rest → Below (set ++ p ∷ []) rest
    next [] h = tt
    next (q ∷ qs) h = below_next p q set h.0 below

finish-set : (spec : Text) (set : List ℕ) → set ≢ [] → finish spec set ≡ ok (record { ports = set })
unfolding finish
finish-set spec [] h = absurd (h refl)
finish-set spec (q ∷ qs) h = refl

-- Every non-empty ascending list of valid ports, written with commas, is parsed to itself.
pub parse-spell :
    (ports : List ℕ)
    → IsPortSet ports
    → ports ≢ []
    → parse (spell ports) ≡ ok (record { ports = ports })
unfolding parse
parse-spell [] s h = absurd (h refl)
parse-spell (p ∷ ps) s h =
    rw
      (
        trim-dense (spell (p ∷ ps)) (spell-IsDense (p ∷ ps)),
        (spell_start p ps).0,
        (spell_start p ps).1,
        split-spell,
        parse_chunks-spell (spell (p ∷ ps)) (p ∷ ps) [] 0 s.ascending s.bounded tt,
      )
      (finish-set (spell (p ∷ ps)) (p ∷ ps) h)
  where
    split-spell : split b',' (spell (p ∷ ps)) ≡ map decimal (p ∷ ps)
    split-spell =
        unfold spell in split-join b',' (decimal p) (map decimal ps) (numbers-lack (p ∷ ps))

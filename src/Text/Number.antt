-- ===== src/Text/Number.antt =====
-- Decimal numbers: `Display` of an unsigned integer, and `str::parse` into one of at most `max`.
use rnmap.Base.{
  ℕ, zero, suc, ◌+◌, ◌-◌, ◌*◌, ◌/◌, ◌%◌, ◌≤◌, ◌<◌, ◌≡◌, refl, Bool, true, false, not, ◌&&◌, ◌||◌,
  [], ◌∷◌, arith, ◌==◌, ltb, leb, if◌then◌else◌, All, ◌≢◌, Result, ok, err, Bool-cases, ltb→lt, inl,
  inr, ◌∙◌,
}
use rnmap.Text.Defs.{Text, codes}
use rnmap.Text.Space.{is_whitespace, IsDense}
use rnmap.Text.Split.{Lacks}

-- `core::num::ParseIntError` and its `Display`.
pub data ParseIntError : Type 0 where
  empty invalid_digit pos_overflow : ParseIntError

unfoldable pub display_error : ParseIntError → Text
display_error empty = codes "cannot parse integer from empty string"
display_error invalid_digit = codes "invalid digit found in string"
display_error pos_overflow = codes "number too large to fit in target type"

abbrev pub is_digit : ℕ → Bool
is_digit c = leb 48 c && leb c 57

-- The digit loop. A character that is no digit is reported before an overflow.
unfoldable pub scan : ℕ → Text → ℕ → Result ℕ ParseIntError
scan limit [] n = ok n
scan limit (c ∷ s) n =
    if not (is_digit c)
    then err invalid_digit
    else if ltb limit (n * 10 + (c - 48))
    then err pos_overflow
    else scan limit s (n * 10 + (c - 48))

-- A single sign is no number; one leading plus sign is skipped.
unfoldable pub parse_uint : ℕ → Text → Result ℕ ParseIntError
unfolding scan
parse_uint limit [] = err empty
parse_uint limit (c ∷ []) =
    if c == b'+' || c == b'-' then err invalid_digit else scan limit (c ∷ []) 0
parse_uint limit (c ∷ d ∷ s) = if c == b'+' then scan limit (d ∷ s) 0 else scan limit (c ∷ d ∷ s) 0

-- The decimal digits of `n` before `out`; any fuel above `n` is enough.
digits : ℕ → ℕ → Text → Text
digits zero n out = out
digits (suc fuel) n out =
    let rest = digits fuel (n / 10) ((48 + n % 10) ∷ out) in
    if ltb n 10 then (48 + n) ∷ out else rest

unfoldable pub decimal : ℕ → Text
unfolding digits
decimal n = digits (suc n) n []

decimal_65535 : decimal 65535 ≡ codes "65535"
unfolding decimal
decimal_65535 = refl

-- The text is digits only.
abbrev pub IsNumeric : Text → Type 0
IsNumeric s = All (λ c. is_digit c ≡ true) s

digits-IsNumeric : (fuel n : ℕ) (out : Text) → IsNumeric out → IsNumeric (digits fuel n out)
unfolding digits
digits-IsNumeric zero n out h = h
digits-IsNumeric (suc fuel) n out h = elim (Bool-cases (ltb n 10)) [
  | inl small ↦ rw small (ground arith, h)
  | inr large ↦ rw large (digits-IsNumeric fuel (n / 10) ((48 + n % 10) ∷ out) (ground arith, h))
]

pub decimal-IsNumeric : (n : ℕ) → IsNumeric (decimal n)
unfolding decimal
decimal-IsNumeric n = digits-IsNumeric (suc n) n [] tt

digits-ne-nil : (fuel n : ℕ) (out : Text) → out ≢ [] → digits fuel n out ≢ []
unfolding digits
digits-ne-nil zero n out h = h
digits-ne-nil (suc fuel) n out h = ground (arith, digits-ne-nil fuel (n / 10) ((48 + n % 10) ∷ out))

pub decimal-ne-nil : (n : ℕ) → decimal n ≢ []
unfolding decimal digits
decimal-ne-nil n = ground (arith, digits-ne-nil n (n / 10) ((48 + n % 10) ∷ []))

scan_last :
    (limit n : ℕ) (out : Text)
    → n ≤ limit
    → scan limit ((48 + n % 10) ∷ out) (n / 10) ≡ scan limit out n
unfolding scan
scan_last limit n out h = ground arith

scan_first :
    (limit n : ℕ) (out : Text)
    → n < 10
    → n ≤ limit
    → scan limit ((48 + n) ∷ out) 0 ≡ scan limit out n
unfolding scan
scan_first limit n out h k = ground arith

scan-digits :
    (limit fuel n : ℕ) (out : Text)
    → n < fuel
    → n ≤ limit
    → scan limit (digits fuel n out) 0 ≡ scan limit out n
unfolding digits
scan-digits limit zero n out f h = absurd (omega arith)
scan-digits limit (suc fuel) n out f h = elim (Bool-cases (ltb n 10)) [
  | inl small ↦ rw small (scan_first limit n out (ltb→lt n 10 small) h)
  | inr large ↦ rw large (
      scan-digits limit fuel (n / 10) ((48 + n % 10) ∷ out) (ground arith) (omega arith)
      ∙ scan_last limit n out h)
]

-- On a text that begins with a digit the sign rules play no part.
parse_uint-numeric :
    (limit : ℕ) (s : Text) → s ≢ [] → IsNumeric s → parse_uint limit s ≡ scan limit s 0
unfolding parse_uint
parse_uint-numeric limit [] ne h = absurd (ne refl)
parse_uint-numeric limit (c ∷ []) ne h = ground arith
parse_uint-numeric limit (c ∷ d ∷ s) ne h = ground arith

-- A number that fits is read back from its decimal print.
pub parse_uint-decimal : (limit n : ℕ) → n ≤ limit → parse_uint limit (decimal n) ≡ ok n
parse_uint-decimal limit n h =
    parse_uint-numeric limit (decimal n) (decimal-ne-nil n) (decimal-IsNumeric n)
    ∙ (unfold decimal scan in scan-digits limit (suc n) n [] (omega arith) h)

scan-le : (limit : ℕ) (s : Text) (n : ℕ) {r : ℕ} → n ≤ limit → scan limit s n ≡ ok r → r ≤ limit
unfolding scan
scan-le limit [] n h e = ground arith
scan-le limit (c ∷ s) n {r} h e = ground (arith, scan-le limit s (n * 10 + (c - 48)) {r = r})

-- An accepted number is within the limit.
pub parse_uint-le : (limit : ℕ) (s : Text) {r : ℕ} → parse_uint limit s ≡ ok r → r ≤ limit
unfolding parse_uint
parse_uint-le limit [] h = cc
parse_uint-le limit (c ∷ []) {r} h = ground (arith, scan-le limit (c ∷ []) 0 {r = r})
parse_uint-le limit (c ∷ d ∷ s) {r} h =
    ground (arith, scan-le limit (d ∷ s) 0 {r = r}, scan-le limit (c ∷ d ∷ s) 0 {r = r})

digit-dense : (c : ℕ) → is_digit c ≡ true → is_whitespace c ≡ false
unfolding is_whitespace
digit-dense c h = ground arith

pub numeric-IsDense : (s : Text) → IsNumeric s → IsDense s
numeric-IsDense [] h = tt
numeric-IsDense (c ∷ s) h = (digit-dense c h.0, numeric-IsDense s h.1)

pub numeric-Lacks : (d : ℕ) (s : Text) → is_digit d ≡ false → IsNumeric s → Lacks d s
numeric-Lacks d [] no_digit h = tt
numeric-Lacks d (c ∷ s) no_digit h = (ground arith, numeric-Lacks d s no_digit h.1)

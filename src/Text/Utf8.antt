-- ===== src/Text/Utf8.antt =====
-- `String::from_utf8_lossy`: the text of bytes in UTF-8, with U+FFFD for each longest part of a sequence
-- that cannot be completed.
use rnmap.Base.{
  ℕ, zero, suc, ◌+◌, ◌-◌, ◌*◌, ◌/◌, ◌%◌, ◌<◌, ◌≤◌, ◌≡◌, refl, ap, ◌∙◌, Bool, true, false, ◌&&◌, [],
  ◌∷◌, ◌++◌, All, leb, if◌then◌else◌, Bytes, arith, Bool-cases, inl, inr,
}
use rnmap.Text.{Text}

abbrev pub replacement : ℕ
replacement = 0xFFFD

-- Between two characters, or inside one: the bytes that are missing, the bits so far, and the range of the
-- next byte.
pub data Pending : Type 0 where
  idle : Pending
  inside : ℕ → ℕ → ℕ → ℕ → Pending

-- What a byte gives: the characters that are complete, and the state behind it.
pub record Step : Type 0 where
  pub chars : Text
  pub state : Pending

abbrev gives : Text → Pending → Step
gives chars state = record { chars = chars; state = state }

abbrev is_in : ℕ → ℕ → ℕ → Bool
is_in lo hi b = leb lo b && leb b hi

-- The first byte of a character. The ranges exclude encodings that are too long, the surrogates, and
-- numbers above 0x10FFFF.
pub first_byte : ℕ → Step
first_byte b =
    if leb b 0x7F
    then gives (b ∷ []) idle
    else if is_in 0xC2 0xDF b
    then gives [] (inside 0 (b - 0xC0) 0x80 0xBF)
    else if is_in 0xE0 0xEF b
    then gives [] (
        inside 1 (b - 0xE0) (if leb b 0xE0 then 0xA0 else 0x80)
          (if leb b 0xEC then 0xBF else if leb b 0xED then 0x9F else 0xBF))
    else if is_in 0xF0 0xF4 b
    then gives [] (
        inside 2 (b - 0xF0) (if leb b 0xF0 then 0x90 else 0x80) (if leb b 0xF3 then 0xBF else 0x8F))
    else gives (replacement ∷ []) idle

-- A further byte; `more` are missing behind it. A byte out of range ends the sequence and begins anew.
pub step : Pending → ℕ → Step
unfolding first_byte
step idle b = first_byte b
step (inside zero bits lo hi) b =
    if is_in lo hi b
    then gives ((bits * 64 + (b - 0x80)) ∷ []) idle
    else gives (replacement ∷ (first_byte b).chars) (first_byte b).state
step (inside (suc more) bits lo hi) b =
    if is_in lo hi b
    then gives [] (inside more (bits * 64 + (b - 0x80)) 0x80 0xBF)
    else gives (replacement ∷ (first_byte b).chars) (first_byte b).state

pub decode_from : Pending → Bytes → Text
unfolding step
decode_from idle [] = []
decode_from (inside more bits lo hi) [] = replacement ∷ []
decode_from state (b ∷ bytes) = (step state b).chars ++ decode_from (step state b).state bytes

unfoldable pub from_utf8_lossy : Bytes → Text
unfolding decode_from
from_utf8_lossy bytes = decode_from idle bytes

-- The UTF-8 bytes of a character and of a text.
unfoldable pub encode_char : ℕ → Bytes
encode_char c =
    if leb c 0x7F
    then c ∷ []
    else if leb c 0x7FF
    then (0xC0 + c / 64) ∷ (0x80 + c % 64) ∷ []
    else if leb c 0xFFFF
    then (0xE0 + c / 4096) ∷ (0x80 + c / 64 % 64) ∷ (0x80 + c % 64) ∷ []
    else (0xF0 + c / 262144) ∷ (0x80 + c / 4096 % 64) ∷ (0x80 + c / 64 % 64) ∷ (0x80 + c % 64) ∷ []

unfoldable pub encode : Text → Bytes
unfolding encode_char
encode [] = []
encode (c ∷ s) = encode_char c ++ encode s

-- A Unicode scalar value, which is what a `char` is.
abbrev pub IsScalar : ℕ → Type 0
IsScalar c = (c < 0x110000) × ((leb 0xD800 c && leb c 0xDFFF) ≡ false)

decode-first :
    (b : ℕ) (rest : Bytes) {state : Pending}
    → first_byte b ≡ gives [] state
    → decode_from idle (b ∷ rest) ≡ decode_from state rest
unfolding decode_from step
decode-first b rest h = rw h refl

-- Inside of a character a byte in range is taken.
module _ (bits lo hi b : ℕ) (rest : Bytes) where
  decode-last :
      is_in lo hi b ≡ true
      → decode_from (inside zero bits lo hi) (b ∷ rest)
        ≡ (bits * 64 + (b - 0x80)) ∷ decode_from idle rest
  unfolding decode_from step
  decode-last h = rw h refl

  decode-more :
      (more : ℕ)
      → is_in lo hi b ≡ true
      → decode_from (inside (suc more) bits lo hi) (b ∷ rest)
        ≡ decode_from (inside more (bits * 64 + (b - 0x80)) 0x80 0xBF) rest
  unfolding decode_from step
  decode-more more h = rw h refl

module _ (c : ℕ) (rest : Bytes) where
  decode_one : c ≤ 0x7F → decode_from idle (c ∷ rest) ≡ c ∷ decode_from idle rest
  unfolding decode_from step first_byte
  decode_one h = let ascii : leb c 0x7F ≡ true = ground arith in rw ascii refl

  decode_two :
      0x7F < c
      → c ≤ 0x7FF
      → decode_from idle ((0xC0 + c / 64) ∷ (0x80 + c % 64) ∷ rest) ≡ c ∷ decode_from idle rest
  decode_two low high =
      let begun : first_byte (0xC0 + c / 64) ≡ gives [] (inside 0 (c / 64) 0x80 0xBF) =
        unfold first_byte in ground arith in
      decode-first (0xC0 + c / 64) _ begun
      ∙ decode-last (c / 64) 0x80 0xBF (0x80 + c % 64) rest (ground arith)
      ∙ ap (λ d. d ∷ decode_from idle rest) (omega arith)

  decode_three :
      0x7FF < c
      → c ≤ 0xFFFF
      → (leb 0xD800 c && leb c 0xDFFF) ≡ false
      → decode_from idle ((0xE0 + c / 4096) ∷ (0x80 + c / 64 % 64) ∷ (0x80 + c % 64) ∷ rest)
        ≡ c ∷ decode_from idle rest
  decode_three low high whole =
      let b : ℕ = 0xE0 + c / 4096 in
      let lo : ℕ = if leb b 0xE0 then 0xA0 else 0x80 in
      let hi : ℕ = if leb b 0xEC then 0xBF else if leb b 0xED then 0x9F else 0xBF in
      let begun : first_byte b ≡ gives [] (inside 1 (c / 4096) lo hi) =
        unfold first_byte in ground arith in
      decode-first b _ begun
      ∙ decode-more (c / 4096) lo hi (0x80 + c / 64 % 64) _ 0 (ground arith)
      ∙ decode-last _ 0x80 0xBF (0x80 + c % 64) rest (ground arith)
      ∙ ap (λ d. d ∷ decode_from idle rest) (omega arith)

  decode_four :
      0xFFFF < c
      → c < 0x110000
      → decode_from idle (
          (0xF0 + c / 262144)
          ∷ (0x80 + c / 4096 % 64)
          ∷ (0x80 + c / 64 % 64)
          ∷ (0x80 + c % 64)
          ∷ rest)
        ≡ c ∷ decode_from idle rest
  decode_four low high =
      let b : ℕ = 0xF0 + c / 262144 in
      let lo : ℕ = if leb b 0xF0 then 0x90 else 0x80 in
      let hi : ℕ = if leb b 0xF3 then 0xBF else 0x8F in
      let begun : first_byte b ≡ gives [] (inside 2 (c / 262144) lo hi) =
        unfold first_byte in ground arith in
      decode-first b _ begun
      ∙ decode-more (c / 262144) lo hi (0x80 + c / 4096 % 64) _ 1 (ground arith)
      ∙ decode-more _ 0x80 0xBF (0x80 + c / 64 % 64) _ 0 (ground arith)
      ∙ decode-last _ 0x80 0xBF (0x80 + c % 64) rest (ground arith)
      ∙ ap (λ d. d ∷ decode_from idle rest) (omega arith)

decode-encode_char :
    (c : ℕ) (rest : Bytes)
    → IsScalar c
    → decode_from idle (encode_char c ++ rest) ≡ c ∷ decode_from idle rest
unfolding encode_char
decode-encode_char c rest h = elim (Bool-cases (leb c 0x7F)) [
  | inl one ↦ rw one (decode_one c rest (ground arith))
  | inr a ↦ rw a (elim (Bool-cases (leb c 0x7FF)) [
    | inl two ↦ rw two (decode_two c rest (ground arith) (ground arith))
    | inr b ↦ rw b (elim (Bool-cases (leb c 0xFFFF)) [
      | inl three ↦ rw three (decode_three c rest (ground arith) (ground arith) h.1)
      | inr four ↦ rw four (decode_four c rest (ground arith) h.0)
    ])
  ])
]

-- The bytes of a text in UTF-8 are read as that text.
pub from_utf8_lossy-encode : (s : Text) → All IsScalar s → from_utf8_lossy (encode s) ≡ s
unfolding from_utf8_lossy encode
from_utf8_lossy-encode [] h = unfold decode_from in refl
from_utf8_lossy-encode (c ∷ s) h =
    decode-encode_char c (encode s) h.0 ∙ ap (λ rest. c ∷ rest) (from_utf8_lossy-encode s h.1)

pub from_utf8_lossy-ascii :
    (b : ℕ) (bytes : Bytes)
    → leb b 0x7F ≡ true
    → from_utf8_lossy (b ∷ bytes) ≡ b ∷ from_utf8_lossy bytes
unfolding from_utf8_lossy decode_from step first_byte
from_utf8_lossy-ascii b bytes h = rw h refl

-- A byte before a NUL is an ASCII character or cannot be decoded.
abbrev pub shown : ℕ → ℕ
shown b = if leb b 0x7F then b else replacement

pub from_utf8_lossy-nul :
    (b : ℕ) (bytes : Bytes) → from_utf8_lossy (b ∷ 0 ∷ bytes) ≡ shown b ∷ 0 ∷ from_utf8_lossy bytes
unfolding from_utf8_lossy decode_from step first_byte
from_utf8_lossy-nul b bytes = elim (Bool-cases (leb b 0x7F)) [
  | inl h ↦ rw h refl
  | inr h ↦ rw h (elim (Bool-cases (is_in 0xC2 0xDF b)) [
    | inl two ↦ rw two refl
    | inr a ↦ rw a (elim (Bool-cases (is_in 0xE0 0xEF b)) [
      | inl three ↦
          rw three (elim (Bool-cases (leb b 0xE0)) [ inl e ↦ rw e refl | inr e ↦ rw e refl ])
      | inr c ↦ rw c (elim (Bool-cases (is_in 0xF0 0xF4 b)) [
        | inl four ↦
            rw four (elim (Bool-cases (leb b 0xF0)) [ inl e ↦ rw e refl | inr e ↦ rw e refl ])
        | inr other ↦ rw other refl
      ])
    ])
  ])
]

-- ===== src/Checksum/Sum.antt =====
-- The loops of `checksum16`: the carry loop ends, and computes in one's complement.
use rnmap.Base.{
  ℕ, suc, ◌+◌, ◌-◌, ◌*◌, ◌%◌, ◌<◌, ◌≡◌, [], ◌∷◌, ◌==◌, arith, if◌then◌else◌, Bytes, u16_from_be,
}
use rnmap.Checksum.{u32_mod, add_words, fold_carry}

-- The sum of the 16-bit words of a byte sequence, an odd byte being the high one of its word.
abbrev pub word_sum : Bytes → ℕ
word_sum [] = 0
word_sum (a ∷ []) = a * 256
word_sum (a ∷ b ∷ rest) = a * 256 + b + word_sum rest

-- Without overflow the loop adds the words.
pub add_words-word_sum :
    (bytes : Bytes) (sum : ℕ)
    → sum + word_sum bytes < u32_mod
    → add_words bytes sum ≡ sum + word_sum bytes
unfolding add_words
add_words-word_sum [] sum h = omega arith
add_words-word_sum (a ∷ []) sum h = omega arith
add_words-word_sum (a ∷ b ∷ rest) sum h =
    let same : (sum + u16_from_be a b) % u32_mod ≡ sum + u16_from_be a b = omega arith in
    rw same (omega (arith, add_words-word_sum rest (sum + u16_from_be a b) (omega arith)))

-- For a 32-bit sum the carry loop has ended after two rounds: more fuel changes nothing.
pub fold_carry-stable :
    (fuel sum : ℕ) → sum < u32_mod → fold_carry (suc (suc (suc fuel))) sum ≡ fold_carry 3 sum
unfolding fold_carry
fold_carry-stable fuel sum h = ground arith

pub fold_carry-lt : (sum : ℕ) → sum < u32_mod → fold_carry 3 sum < 65536
unfolding fold_carry
fold_carry-lt sum h = ground arith

-- The value that the carry loop leaves: 0 for 0, and otherwise the residue from 1 to 65535.
pub fold_carry-residue :
    (sum : ℕ) → sum < u32_mod → fold_carry 3 sum ≡ (if sum == 0 then 0 else (sum - 1) % 65535 + 1)
unfolding fold_carry
fold_carry-residue sum h = ground arith

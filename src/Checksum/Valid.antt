-- ===== src/Checksum/Valid.antt =====
-- What makes a checksum field correct.
use rnmap.Base.{
  ℕ, zero, suc, ◌+◌, ◌-◌, ◌*◌, ◌/◌, ◌%◌, ◌≤◌, ◌<◌, ◌≡◌, refl, ◌∙◌, ap, [], ◌∷◌, ◌==◌, arith,
  if◌then◌else◌, Bytes, length, All, IsByte,
}
use rnmap.Checksum.{u32_mod, checksum16}
use rnmap.Checksum.Sum.{word_sum, add_words-word_sum, fold_carry-residue}

-- The checksum in terms of the sum of the words.
pub checksum16-word_sum :
    (bytes : Bytes)
    → word_sum bytes < u32_mod
    → checksum16 bytes
      ≡ (if word_sum bytes == 0 then 65535 else 65534 - (word_sum bytes - 1) % 65535)
unfolding checksum16
checksum16-word_sum bytes h =
    ground (arith, add_words-word_sum bytes 0 (omega arith), fold_carry-residue (word_sum bytes) h)

pub checksum16-lt : (bytes : Bytes) → checksum16 bytes < 65536
unfolding checksum16
checksum16-lt bytes = omega arith

complement : ℕ → ℕ
complement sum = if sum == 0 then 65535 else 65534 - (sum - 1) % 65535

complement_cancel : (sum : ℕ) → complement (sum + complement sum) ≡ 0
complement_cancel zero = unfold complement in refl
complement_cancel (suc k) =
    rw (complement_suc k) (rw (suc_total k) (complement_suc _ ∙ omega arith))
  where
    complement_suc : (k : ℕ) → complement (suc k) ≡ 65534 - k % 65535
    complement_suc k = unfold complement in ground arith

    suc_total : (k : ℕ) → suc k + (65534 - k % 65535) ≡ suc (65535 * (k / 65535) + 65534)
    suc_total k = omega arith

-- A sequence whose words sum to that of `blank` plus the checksum of `blank` has the checksum 0.
pub checksum16-filled :
    (blank filled : Bytes)
    → word_sum filled ≡ word_sum blank + checksum16 blank
    → word_sum blank + 65535 < u32_mod
    → checksum16 filled ≡ 0
checksum16-filled blank filled sum h =
    checksum16-word_sum filled (omega (arith, checksum16-lt blank))
    ∙ (ap (λ (s : ℕ). if s == 0 then 65535 else 65534 - (s - 1) % 65535)
          (sum ∙ ap (λ (c : ℕ). word_sum blank + c) (checksum16-word_sum blank (omega arith)))
        ∙ (unfold complement in complement_cancel (word_sum blank)))

-- The words of a byte sequence sum to at most 65535 for each pair.
pub word_sum-le : (bytes : Bytes) → All IsByte bytes → word_sum bytes ≤ 32768 * (length bytes + 1)
word_sum-le [] h = omega arith
word_sum-le (a ∷ []) h = omega arith
word_sum-le (a ∷ b ∷ rest) h = omega (arith, word_sum-le rest h.1.1)

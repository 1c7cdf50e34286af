-- ===== src/Checksum.antt =====
-- crates/rnmap-core/src/discovery.rs: `checksum16`, the Internet checksum.
pub mod Sum
pub mod Valid
use rnmap.Base.{
  ℕ, zero, suc, ◌+◌, ◌-◌, ◌*◌, ◌/◌, ◌%◌, ◌^◌, [], ◌∷◌, ◌==◌, if◌then◌else◌, Bytes, u16_from_be,
}

abbrev pub u32_mod : ℕ
u32_mod = 2 ^ 32

-- The loop over the pairs of bytes, and the odd byte at the end.
pub add_words : Bytes → ℕ → ℕ
add_words [] sum = sum
add_words (a ∷ []) sum = (sum + a * 256) % u32_mod
add_words (a ∷ b ∷ rest) sum = add_words rest ((sum + u16_from_be a b) % u32_mod)

-- `while sum >> 16 != 0 { sum = (sum & 0xffff) + (sum >> 16); }`
pub fold_carry : ℕ → ℕ → ℕ
fold_carry zero sum = sum
fold_carry (suc fuel) sum =
    let next = fold_carry fuel (sum % 65536 + sum / 65536) in if sum / 65536 == 0 then sum else next

-- Two rounds are enough for a 32-bit sum.
abbrev pub fold_fuel : ℕ
fold_fuel = 3

-- `!(sum as u16)`.
unfoldable pub checksum16 : Bytes → ℕ
unfolding add_words fold_carry
checksum16 bytes = 65535 - fold_carry fold_fuel (add_words bytes 0) % 65536

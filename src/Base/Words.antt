-- ===== src/Base/Words.antt =====
-- Machine integers as byte sequences: `to_be_bytes` and `from_be_bytes`, and checks over all bytes.
use Prim.Native.Nat.{ℕ, zero, suc, ◌<◌, ◌≤◌, ◌%◌, ◌/◌, ◌*◌, ◌+◌}
use mathlib.Core.Path.{◌≡◌, refl}
use mathlib.Core.Bool.{Bool, true, ◌&&◌}
use mathlib.Core.List.{List, [], ◌∷◌}
use native.Mathlib.Omega.{arith}
use rnmap.Base.Lists.{length, get_or, drop}
use rnmap.Base.Outcome.{Result, ok, err}

abbrev pub Bytes : Type 0
Bytes = List ℕ

abbrev pub IsByte : ℕ → Type 0
IsByte b = b < 256

abbrev pub u16_to_be : ℕ → Bytes
u16_to_be n = (n / 256 % 256) ∷ (n % 256) ∷ []

abbrev pub u16_from_be : ℕ → ℕ → ℕ
u16_from_be a b = a * 256 + b

abbrev pub u32_to_be : ℕ → Bytes
u32_to_be n = (n / 16777216 % 256) ∷ (n / 65536 % 256) ∷ (n / 256 % 256) ∷ (n % 256) ∷ []

abbrev pub u32_from_be : ℕ → ℕ → ℕ → ℕ → ℕ
u32_from_be a b c d = a * 16777216 + b * 65536 + c * 256 + d

-- A property of all numbers below a bound, by evaluation.
unfoldable pub holds_below : (ℕ → Bool) → ℕ → Bool
holds_below test zero = true
holds_below test (suc bound) = holds_below test bound && test bound

pub holds_below_at :
    (test : ℕ → Bool) (bound i : ℕ) → i < bound → holds_below test bound ≡ true → test i ≡ true
unfolding holds_below
holds_below_at test zero i below every = absurd (omega arith)
holds_below_at test (suc bound) i below every = ground (arith, holds_below_at test bound i)

-- Indexing and slicing panic out of range.
pub data Panic : Type 0 where
  out_of_range : Panic

abbrev pub index : Bytes → ℕ → Result ℕ Panic
index [] i = err out_of_range
index (b ∷ bytes) zero = ok b
index (b ∷ bytes) (suc i) = index bytes i

-- `&bytes[from..]`.
abbrev pub slice_from : ℕ → Bytes → Result Bytes Panic
slice_from zero bytes = ok bytes
slice_from (suc n) [] = err out_of_range
slice_from (suc n) (b ∷ bytes) = slice_from n bytes

pub index-get_or :
    (bytes : Bytes) (i : ℕ) → i < length bytes → index bytes i ≡ ok (get_or bytes i 0)
index-get_or [] i h = elim h [ ]
index-get_or (b ∷ bytes) zero h = refl
index-get_or (b ∷ bytes) (suc i) h = index-get_or bytes i (omega arith)

pub slice_from-drop :
    (n : ℕ) (bytes : Bytes) → n ≤ length bytes → slice_from n bytes ≡ ok (drop n bytes)
slice_from-drop zero bytes h = refl
slice_from-drop (suc n) [] h = absurd (omega arith)
slice_from-drop (suc n) (b ∷ bytes) h = slice_from-drop n bytes (omega arith)

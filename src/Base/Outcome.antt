-- ===== src/Base/Outcome.antt =====
-- `std::result::Result`, the `?` operator as `>>=`, and inversion of a chain of steps.
use mathlib.Core.Path.{◌≡◌, refl, ap}

pub data Result {ℓ} (A : Type ℓ) (E : Type 0) : Type ℓ where
  ok : A → Result A E
  err : E → Result A E

infixl 5 ◌>>=◌
abbrev pub ◌>>=◌ {ℓ κ} :
    {A : Type ℓ} {B : Type κ} {E : Type 0} → Result A E → (A → Result B E) → Result B E
ok a >>= f = f a
err e >>= f = err e

abbrev pub map_err {ℓ} : {A : Type ℓ} {E F : Type 0} → (E → F) → Result A E → Result A F
map_err f (ok a) = ok a
map_err f (err e) = err (f e)

-- Where the value of a chain comes from: its first step has a value, which the next step takes on.
abbrev pub Passed {ℓ κ} :
    {A : Type ℓ} {B : Type κ} {E : Type 0} → Result A E → (A → Result B E) → B → Type (ℓ ⊔ κ)
Passed {A = A} first next last = (a : A) × (first ≡ ok a) × (next a ≡ ok last)

pub >>=-eq-ok {ℓ κ} :
    {A : Type ℓ} {B : Type κ} {E : Type 0} (first : Result A E) (next : A → Result B E) {last : B}
    → (first >>= next) ≡ ok last
    → Passed first next last
>>=-eq-ok (ok value) next found = (value, refl, found)
>>=-eq-ok (err reason) next found = cc

pub ok-injective {ℓ} :
    {A : Type ℓ} {E : Type 0} {a b : A} → ◌≡◌ {A = Result A E} (ok a) (ok b) → a ≡ b
ok-injective {a = a} {b = b} h = cc

pub map_err-eq-ok {ℓ} :
    {A : Type ℓ} {E F : Type 0} (f : E → F) (r : Result A E) {a : A} → map_err f r ≡ ok a → r ≡ ok a
map_err-eq-ok f (ok b) h = ap ok (ok-injective h)
map_err-eq-ok f (err e) h = cc

pub >>=-cong {ℓ κ} :
    {A : Type ℓ} {B : Type κ} {E : Type 0} (first : Result A E) (f g : A → Result B E)
    → ((a : A) → f a ≡ g a)
    → (first >>= f) ≡ (first >>= g)
>>=-cong (ok value) f g h = h value
>>=-cong (err reason) f g h = refl

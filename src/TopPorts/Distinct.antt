-- ===== src/TopPorts/Distinct.antt =====
-- `top_n` is a prefix of the list's first occurrences.
use rnmap.Base.{
  ℕ, zero, suc, ◌-◌, min, max, ◌≡◌, refl, sym, true, false, ◌&&◌, not, List, [], ◌∷◌, ◌++◌,
  append-nil, append_assoc, arith, leb, contains, length, length-append, take, if◌then◌else◌,
  Bool-cases, inl, inr,
}
use rnmap.TopPorts.{top, pick, top_n}

-- The first occurrence of each port that is not in `seen`, in order.
pub distinct : List ℕ → List ℕ → List ℕ
distinct [] seen = []
distinct (p ∷ ps) seen =
    let new = p ∷ distinct ps (p ∷ seen) in
    let old = distinct ps seen in if contains seen p then old else new

-- No port occurs twice.
abbrev pub IsDistinct : List ℕ → Type 0
IsDistinct [] = Unit
IsDistinct (p ∷ ps) = (contains ps p ≡ false) × IsDistinct ps

distinct-not_seen :
    (ps seen : List ℕ) (a : ℕ) → contains seen a ≡ true → contains (distinct ps seen) a ≡ false
unfolding distinct
distinct-not_seen [] seen a h = refl
distinct-not_seen (p ∷ ps) seen a h =
    ground (arith, distinct-not_seen ps seen a h, distinct-not_seen ps (p ∷ seen) a)

pub distinct-IsDistinct : (ps seen : List ℕ) → IsDistinct (distinct ps seen)
unfolding distinct
distinct-IsDistinct [] seen = tt
distinct-IsDistinct (p ∷ ps) seen = elim (Bool-cases (contains seen p)) [
  | inl old ↦ rw old (distinct-IsDistinct ps seen)
  | inr new ↦
      rw new (distinct-not_seen ps (p ∷ seen) p (ground arith), distinct-IsDistinct ps (p ∷ seen))
]

contains-distinct :
    (ps seen : List ℕ) (a : ℕ)
    → contains (distinct ps seen) a ≡ (contains ps a && not (contains seen a))
unfolding distinct
contains-distinct [] seen a = refl
contains-distinct (p ∷ ps) seen a =
    ground (arith, contains-distinct ps seen a, contains-distinct ps (p ∷ seen) a)

take-IsDistinct : (n : ℕ) (xs : List ℕ) → IsDistinct xs → IsDistinct (take n xs)
take-IsDistinct zero xs h = tt
take-IsDistinct (suc n) [] h = tt
take-IsDistinct (suc n) (x ∷ xs) h = (take-not_mem n xs x h.0, take-IsDistinct n xs h.1)
  where
    take-not_mem :
        (n : ℕ) (xs : List ℕ) (a : ℕ) → contains xs a ≡ false → contains (take n xs) a ≡ false
    take-not_mem zero xs a h = refl
    take-not_mem (suc n) [] a h = refl
    take-not_mem (suc n) (x ∷ xs) a h = ground (arith, take-not_mem n xs a)

-- What the loop adds to `out`: at least one new port, if there is one.
pick-take :
    (n : ℕ) (ps seen out : List ℕ)
    → pick n ps seen out ≡ out ++ take (max (n - length out) 1) (distinct ps seen)
unfolding pick distinct
pick-take n [] seen out = rw (take_nil (max (n - length out) 1)) (sym (append-nil out))
  where
    take_nil : (k : ℕ) → take {A = ℕ} k [] ≡ []
    take_nil zero = refl
    take_nil (suc k) = refl
pick-take n (p ∷ ps) seen out = elim (Bool-cases (contains seen p)) [
  | inl old ↦ rw old (pick-take n ps seen out)
  | inr new ↦ rw new (elim (Bool-cases (leb n (length (out ++ p ∷ [])))) [
    | inl full ↦
        let room : max (n - length out) 1 ≡ 1 = ground (arith, length-append out (p ∷ [])) in
        rw (full, room) refl
    | inr short ↦
        let room : max (n - length out) 1 ≡ suc (max (n - length (out ++ p ∷ [])) 1) =
          ground (arith, length-append out (p ∷ [])) in
        rw (short, room, pick-take n ps (p ∷ seen) (out ++ p ∷ []), append_assoc) refl
  ])
]

-- `top_n` gives the first `n` distinct ports of the list, and one port where `n` is 0.
pub top_n-take : (n : ℕ) → top_n n ≡ take (max n 1) (distinct top [])
unfolding top_n
top_n-take n = rw (pick-take n top [] []) (rw sub_zero refl)
  where
    sub_zero : n - 0 ≡ n
    sub_zero = omega arith

-- No port is returned twice.
pub top_n-IsDistinct : (n : ℕ) → IsDistinct (top_n n)
top_n-IsDistinct n =
    rw top_n-take (take-IsDistinct (max n 1) (distinct top []) (distinct-IsDistinct top []))

length-distinct-top : length (distinct top []) ≡ 191
unfolding distinct top
length-distinct-top = refl

pub length-take : (n : ℕ) (xs : List ℕ) → length (take n xs) ≡ min n (length xs)
length-take zero xs = omega arith
length-take (suc n) [] = omega arith
length-take (suc n) (x ∷ xs) = omega (arith, length-take n xs)

-- The number of ports: `n`, but at least 1 and at most the 191 distinct ports of the list.
pub length-top_n : (n : ℕ) → length (top_n n) ≡ min (max n 1) 191
length-top_n n = rw (top_n-take, length-take, length-distinct-top) refl

top_0 : top_n 0 ≡ 80 ∷ []
unfolding top_n
top_0 = refl

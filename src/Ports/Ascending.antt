-- ===== src/Ports/Ascending.antt =====
-- The set that `PortSpec::parse` builds: ascending, without repetition, of valid ports.
use rnmap.Base.{
  ℕ, zero, suc, ◌+◌, ◌-◌, ◌%◌, ◌≤◌, ◌<◌, ◌≡◌, ◌≢◌, true, false, ap, List, [], ◌∷◌, Option, none,
  some, inl, inr, arith, ok, All, AscendingFrom, range_from, >>=-eq-ok, Bool-cases, is_empty,
}
use mathlib.Core.List.{cons-ne-nil}
use rnmap.Text.{Text, codes, text_eq, text_eq_sound}
use rnmap.Text.Space.{trim}
use rnmap.Text.Split.{split, split_once}
use rnmap.Text.Number.{parse_uint-le}
use rnmap.Ports.{
  PortSpec, max_u16, parse_u16, insert, insert_range, range_end, add_range, add_port, parse_piece,
  parse_chunk, parse_chunks, finish, all_ports, parse,
}

-- A list of ports as `parse` returns it, the empty one included.
pub record IsPortSet (set : List ℕ) : Type 0 where
  pub ascending : AscendingFrom 0 set
  pub bounded : All (λ p. p ≤ max_u16) set

insert-ascending :
    (p : ℕ) (set : List ℕ) (lo : ℕ)
    → lo < p
    → AscendingFrom lo set
    → AscendingFrom lo (insert p set)
unfolding insert
insert-ascending p [] lo h s = (h, tt)
insert-ascending p (q ∷ qs) lo h s = ground (arith, insert-ascending p qs q)

insert-bounded :
    (p : ℕ) (set : List ℕ)
    → p ≤ max_u16
    → All (λ q. q ≤ max_u16) set
    → All (λ q. q ≤ max_u16) (insert p set)
unfolding insert
insert-bounded p [] h s = (h, tt)
insert-bounded p (q ∷ qs) h s = ground (arith, insert-bounded p qs)

pub insert-IsPortSet :
    (p : ℕ) (set : List ℕ) → 0 < p → p ≤ max_u16 → IsPortSet set → IsPortSet (insert p set)
insert-IsPortSet p set pos fits s = record {
  ascending = insert-ascending p set 0 pos s.ascending;
  bounded = insert-bounded p set fits s.bounded;
}

insert_range-IsPortSet :
    (rounds lo : ℕ) (set : List ℕ)
    → 0 < lo
    → lo + rounds ≤ 65536
    → IsPortSet set
    → IsPortSet (insert_range rounds lo set)
unfolding insert_range
insert_range-IsPortSet zero lo set pos fits s = s
insert_range-IsPortSet (suc rounds) lo set pos fits s =
    let same : lo % 65536 ≡ lo = omega arith in
    rw same (
      insert_range-IsPortSet rounds (lo + 1) (insert lo set) (omega arith) (omega arith)
        (insert-IsPortSet lo set pos (omega arith) s))

parse_u16-le : (spec raw : Text) {n : ℕ} → parse_u16 spec raw ≡ ok n → n ≤ max_u16
unfolding parse_u16
parse_u16-le spec raw {n} h = ground (arith, parse_uint-le max_u16 raw {r = n})

pub range_end-le :
    (spec : Text) (missing : ℕ) (s : Text) {n : ℕ}
    → missing ≤ max_u16
    → range_end spec missing s ≡ ok n
    → n ≤ max_u16
unfolding range_end
range_end-le spec missing [] fits h = ground arith
range_end-le spec missing (c ∷ s) fits h = parse_u16-le spec (c ∷ s) h

add_range-IsPortSet :
    (spec : Text) (lo hi : ℕ) (set : List ℕ) {set' : List ℕ}
    → hi ≤ max_u16
    → IsPortSet set
    → add_range spec lo hi set ≡ ok set'
    → IsPortSet set'
unfolding add_range
add_range-IsPortSet spec lo hi set fits s h =
    ground (arith, insert_range-IsPortSet (hi + 1 - lo) lo set)

add_port-IsPortSet :
    (spec : Text) (p : ℕ) (set : List ℕ) {set' : List ℕ}
    → p ≤ max_u16
    → IsPortSet set
    → add_port spec p set ≡ ok set'
    → IsPortSet set'
unfolding add_port
add_port-IsPortSet spec p set fits s h = ground (arith, insert-IsPortSet p set)

parse_piece-IsPortSet :
    (spec c : Text) (set : List ℕ) (cut : Option (Text × Text)) {set' : List ℕ}
    → IsPortSet set
    → parse_piece spec c set cut ≡ ok set'
    → IsPortSet set'
unfolding parse_piece
parse_piece-IsPortSet spec c set none s h =
    let (p, read, added) = >>=-eq-ok (parse_u16 spec c) _ h in
    add_port-IsPortSet spec p set (parse_u16-le spec c read) s added
parse_piece-IsPortSet spec c set (some (l, r)) s h =
    let (lo, low, more) = >>=-eq-ok (range_end spec 1 (trim l)) _ h in
    let (hi, high, added) = >>=-eq-ok (range_end spec max_u16 (trim r)) _ more in
    add_range-IsPortSet spec lo hi set (range_end-le spec max_u16 (trim r) (omega arith) high) s
      added

parse_chunk-IsPortSet :
    (spec c : Text) (set : List ℕ) {set' : List ℕ}
    → IsPortSet set
    → parse_chunk spec c set ≡ ok set'
    → IsPortSet set'
unfolding parse_chunk
parse_chunk-IsPortSet spec [] set s h = ground arith
parse_chunk-IsPortSet spec (x ∷ c) set s h =
    parse_piece-IsPortSet spec (x ∷ c) set (split_once b'-' (x ∷ c)) s h

parse_chunks-IsPortSet :
    (spec : Text) (chunks : List Text) (set : List ℕ) {set' : List ℕ}
    → IsPortSet set
    → parse_chunks spec chunks set ≡ ok set'
    → IsPortSet set'
unfolding parse_chunks
parse_chunks-IsPortSet spec [] set s h = ground arith
parse_chunks-IsPortSet spec (c ∷ cs) set s h =
    let (next, first, rest) = >>=-eq-ok (parse_chunk spec (trim c) set) _ h in
    parse_chunks-IsPortSet spec cs next (parse_chunk-IsPortSet spec (trim c) set s first) rest

range_from-ascending : (n lo : ℕ) (below : ℕ) → below < lo → AscendingFrom below (range_from n lo)
unfolding range_from
range_from-ascending zero lo below h = tt
range_from-ascending (suc n) lo below h = (h, range_from-ascending n (lo + 1) lo (omega arith))

range_from-bounded : (n lo : ℕ) → lo + n ≤ 65536 → All (λ p. p ≤ max_u16) (range_from n lo)
unfolding range_from
range_from-bounded zero lo h = tt
range_from-bounded (suc n) lo h = (omega arith, range_from-bounded n (lo + 1) (omega arith))

finish-ok :
    (spec : Text) (set : List ℕ) {p : PortSpec}
    → finish spec set ≡ ok p
    → (p.ports ≡ set) × (set ≢ [])
unfolding finish
finish-ok spec [] h = ground arith
finish-ok spec (q ∷ qs) h = ground arith

-- What an accepted spec that is not the lone dash went through.
pub parse-chunks :
    (spec : Text) {p : PortSpec}
    → text_eq (trim spec) (codes "-") ≡ false
    → parse spec ≡ ok p
    → (parse_chunks spec (split b',' (trim spec)) [] ≡ ok p.ports) × (p.ports ≢ [])
unfolding parse
parse-chunks spec {p} not_all h = elim (Bool-cases (is_empty (trim spec))) [
  | inl nothing ↦ absurd (ground arith)
  | inr some_text ↦
      let (set, built, done) =
        >>=-eq-ok (parse_chunks spec (split b',' (trim spec)) []) (finish spec)
          (rw (some_text, not_all) at h) in
      let (same, filled) = finish-ok spec set done in (rw same built, rw same filled)
]

range_from-ne-nil : (n lo : ℕ) → 0 < n → range_from n lo ≢ []
unfolding range_from
range_from-ne-nil zero lo h = absurd (omega arith)
range_from-ne-nil (suc n) lo h = cons-ne-nil lo (range_from n (lo + 1))

-- The lone dash is every port.
pub parse-dash :
    (spec : Text)
    → text_eq (trim spec) (codes "-") ≡ true
    → parse spec ≡ ok (record { ports = all_ports })
unfolding parse
parse-dash spec dash = ground (arith, ap is_empty (text_eq_sound (trim spec) (codes "-") dash))

all_ports-IsPortSet : IsPortSet all_ports × (all_ports ≢ [])
unfolding all_ports
all_ports-IsPortSet = (
  record {
    ascending = range_from-ascending 65535 1 0 (omega arith);
    bounded = range_from-bounded 65535 1 (omega arith);
  },
  range_from-ne-nil 65535 1 (omega arith),
)

-- Every accepted spec gives at least one port, each from 1 to 65535, strictly ascending.
pub parse-IsPortSet :
    (spec : Text) {p : PortSpec} → parse spec ≡ ok p → IsPortSet p.ports × (p.ports ≢ [])
parse-IsPortSet spec {p} h = elim (Bool-cases (text_eq (trim spec) (codes "-"))) [
  | inl dash ↦
      let same : all_ports ≡ p.ports = ground (arith, parse-dash spec dash) in
      rw same at all_ports-IsPortSet
  | inr chunks ↦
      let (built, filled) = parse-chunks spec chunks h in
      (
        parse_chunks-IsPortSet spec (split b',' (trim spec)) []
            (record { ascending = tt; bounded = tt }) built,
        filled,
      )
]

-- ===== src/Ports/Denotation.antt =====
-- Which ports an accepted spec holds: those that one of its chunks names.
use rnmap.Base.{
  ℕ, zero, suc, ◌+◌, ◌-◌, ◌%◌, ◌≤◌, ◌≡◌, refl, Bool, false, not, ◌&&◌, ◌||◌, List, [], ◌∷◌, Option,
  none, some, arith, ok, err, ◌==◌, ltb, leb, contains, is_empty, >>=-eq-ok, if◌then◌else◌,
  range_from, Bool-cases, inl, inr, ap, sym, ◌∙◌, ok-injective, Result,
}
use rnmap.Text.{Text, codes, text_eq}
use rnmap.Text.Space.{trim}
use rnmap.Text.Split.{split, split_once}
use rnmap.Text.Number.{parse_uint}
use rnmap.Errors.{Error}
use rnmap.Ports.{
  PortSpec, max_u16, parse_u16, insert, insert_range, range_end, add_range, add_port, parse_piece,
  parse_chunk, parse_chunks, parse, all_ports,
}
use rnmap.Ports.Ascending.{parse-chunks, parse-dash, range_end-le}

-- The number that a text spells, 0 if it spells none.
unfoldable pub number : Text → ℕ
number s = elim (parse_uint max_u16 s) [ ok n ↦ n | err e ↦ 0 ]

unfoldable pub end_of : ℕ → Text → ℕ
unfolding number
end_of missing s = if is_empty s then missing else number s

-- Whether the chunk, given by its split at the first dash, names the port.
pub names : Text → Option (Text × Text) → ℕ → Bool
unfolding number end_of
names c none p = p == number c
names c (some (l, r)) p = leb (end_of 1 (trim l)) p && leb p (end_of max_u16 (trim r))

-- Whether some chunk that is not empty names the port.
pub any_names : List Text → ℕ → Bool
unfolding names
any_names [] p = false
any_names (chunk ∷ rest) p =
    (not (is_empty (trim chunk)) && names (trim chunk) (split_once b'-' (trim chunk)) p)
    || any_names rest p

contains-insert :
    (p : ℕ) (set : List ℕ) (a : ℕ) → contains (insert p set) a ≡ (a == p || contains set a)
unfolding insert
contains-insert p [] a = refl
contains-insert p (q ∷ qs) a = ground (arith, contains-insert p qs a)

contains-insert_range :
    (rounds lo : ℕ) (set : List ℕ) (a : ℕ)
    → lo + rounds ≤ 65536
    → contains (insert_range rounds lo set) a
      ≡ ((leb lo a && ltb a (lo + rounds)) || contains set a)
unfolding insert_range
contains-insert_range zero lo set a h = ground arith
contains-insert_range (suc rounds) lo set a h =
    let same : lo % 65536 ≡ lo = omega arith in
    rw same (
      ground
        (arith, contains-insert_range rounds (lo + 1) (insert lo set) a, contains-insert lo set a))

parse_u16-number : (spec s : Text) {n : ℕ} → parse_u16 spec s ≡ ok n → number s ≡ n
unfolding parse_u16 number
parse_u16-number spec s h = ground arith

range_end-end_of :
    (spec : Text) (missing : ℕ) (s : Text) {n : ℕ}
    → range_end spec missing s ≡ ok n
    → end_of missing s ≡ n
unfolding range_end end_of
range_end-end_of spec missing [] h = ground arith
range_end-end_of spec missing (c ∷ s) h = parse_u16-number spec (c ∷ s) h

contains-add_range :
    (spec : Text) (lo hi : ℕ) (set : List ℕ) (a : ℕ) {set' : List ℕ}
    → hi ≤ max_u16
    → add_range spec lo hi set ≡ ok set'
    → contains set' a ≡ ((leb lo a && leb a hi) || contains set a)
unfolding add_range
contains-add_range spec lo hi set a fits h =
    ground (arith, contains-insert_range (hi + 1 - lo) lo set a)

contains-parse_piece :
    (spec c : Text) (set : List ℕ) (cut : Option (Text × Text)) (a : ℕ) {set' : List ℕ}
    → parse_piece spec c set cut ≡ ok set'
    → contains set' a ≡ (names c cut a || contains set a)
unfolding parse_piece names
contains-parse_piece spec c set none a h =
    let (p, read, added) = >>=-eq-ok (parse_u16 spec c) _ h in
    unfold add_port in ground (arith, parse_u16-number spec c read, contains-insert p set a)
contains-parse_piece spec c set (some (l, r)) a h =
    let (lo, low, more) = >>=-eq-ok (range_end spec 1 (trim l)) _ h in
    let (hi, high, added) = >>=-eq-ok (range_end spec max_u16 (trim r)) _ more in
    rw (range_end-end_of spec 1 (trim l) low, range_end-end_of spec max_u16 (trim r) high)
      (contains-add_range spec lo hi set a (range_end-le spec max_u16 (trim r) (omega arith) high)
        added)

contains-parse_chunk :
    (spec c : Text) (set : List ℕ) (a : ℕ) {set' : List ℕ}
    → parse_chunk spec c set ≡ ok set'
    → contains set' a ≡ ((not (is_empty c) && names c (split_once b'-' c) a) || contains set a)
unfolding parse_chunk
contains-parse_chunk spec [] set a h = ground arith
contains-parse_chunk spec (x ∷ c) set a h = contains-parse_piece spec (x ∷ c) set _ a h

contains-parse_chunks :
    (spec : Text) (chunks : List Text) (set : List ℕ) (a : ℕ) {set' : List ℕ}
    → parse_chunks spec chunks set ≡ ok set'
    → contains set' a ≡ (contains set a || any_names chunks a)
unfolding parse_chunks any_names
contains-parse_chunks spec [] set a h = ground arith
contains-parse_chunks spec (c ∷ cs) set a h =
    let (next, first, rest) = >>=-eq-ok (parse_chunk spec (trim c) set) _ h in
    ground (
      arith,
      contains-parse_chunks spec cs next a rest,
      contains-parse_chunk spec (trim c) set a first,
    )

contains-range_from : (n lo a : ℕ) → contains (range_from n lo) a ≡ (leb lo a && ltb a (lo + n))
unfolding range_from
contains-range_from zero lo a = ground arith
contains-range_from (suc n) lo a = ground (arith, contains-range_from n (lo + 1) a)

named_by_dash :
    (a : ℕ) (p : PortSpec)
    → ◌≡◌ {A = Result PortSpec Error} (ok (record { ports = all_ports })) (ok p)
    → contains p.ports a ≡ (leb 1 a && leb a max_u16)
unfolding all_ports
named_by_dash a p same =
    ap (λ (q : PortSpec). contains q.ports a) (sym (ok-injective same))
    ∙ (contains-range_from max_u16 1 a ∙ ground arith)

-- Whether the spec names the port: the lone dash names every port but 0.
pub spec_names : Text → ℕ → Bool
unfolding any_names
spec_names spec a =
    if text_eq (trim spec) (codes "-")
    then leb 1 a && leb a max_u16
    else any_names (split b',' (trim spec)) a

-- An accepted spec holds exactly the ports that it names: the lone dash those from 1 to 65535, and any
-- other spec those that one of its chunks names.
pub contains-parse :
    (spec : Text) {p : PortSpec} (a : ℕ)
    → parse spec ≡ ok p
    → contains p.ports a ≡ spec_names spec a
unfolding spec_names
contains-parse spec {p} a h = elim (Bool-cases (text_eq (trim spec) (codes "-"))) [
  | inl dash ↦ rw dash (named_by_dash a p (sym (parse-dash spec dash) ∙ h))
  | inr chunks ↦
      rw chunks
        (contains-parse_chunks spec (split b',' (trim spec)) [] a (parse-chunks spec chunks h).0)
]

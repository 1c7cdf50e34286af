-- ===== src/Ports/Failures.antt =====
-- Which specs `PortSpec::parse` refuses, and with which error.
use rnmap.Base.{
  ℕ, zero, suc, ◌+◌, ◌-◌, ◌%◌, ◌<◌, ◌≡◌, refl, ◌++◌, Bool, true, false, not, ◌&&◌, ◌||◌, List, [],
  ◌∷◌, Option, none, some, arith, ok, err, ◌==◌, ltb, leb, ◌>>=◌, is_empty, Result, map_err,
  Bool-cases, inl, inr, and_assoc, and_false,
}
use rnmap.Text.{Text, codes, text_eq}
use rnmap.Text.Space.{trim}
use rnmap.Text.Split.{split, split_once}
use rnmap.Text.Number.{parse_uint, ParseIntError, display_error}
use rnmap.Errors.{Error}
use rnmap.Ports.{
  PortSpec, max_u16, parse_u16, insert, insert_range, range_end, add_range, add_port, parse_piece,
  parse_chunk, parse_chunks, finish, parse,
}
use rnmap.Ports.Denotation.{number, end_of}

abbrev pub is_ok {ℓ} : {A : Type ℓ} {E : Type 0} → Result A E → Bool
is_ok (ok a) = true
is_ok (err e) = false

-- A port or a range that may be scanned, given by the chunk's split at its first dash.
pub valid : Text → Option (Text × Text) → Bool
unfolding number end_of
valid c none = is_ok (parse_uint max_u16 c) && not (number c == 0)
valid c (some (l, r)) =
    (is_empty (trim l) || is_ok (parse_uint max_u16 (trim l)))
    && (is_empty (trim r) || is_ok (parse_uint max_u16 (trim r)))
    && not (end_of 1 (trim l) == 0)
    && leb (end_of 1 (trim l)) (end_of max_u16 (trim r))

pub all_valid : List Text → Bool
unfolding valid
all_valid [] = true
all_valid (chunk ∷ rest) =
    (is_empty (trim chunk) || valid (trim chunk) (split_once b'-' (trim chunk))) && all_valid rest

abbrev pub all_blank : List Text → Bool
all_blank [] = true
all_blank (chunk ∷ rest) = is_empty (trim chunk) && all_blank rest

-- The specs that are accepted.
pub accepts : Text → Bool
unfolding all_valid
accepts spec =
    text_eq (trim spec) (codes "-")
    || (not (is_empty (trim spec))
        && all_valid (split b',' (trim spec))
        && not (all_blank (split b',' (trim spec))))

-- The error is about ports and names the whole spec.
abbrev pub Blames : Text → Error → Type 0
Blames spec e = (why : Text) × (e ≡ Error.ports spec why)

-- A step that succeeds exactly on valid input, and whose set is empty exactly as `blank` says.
abbrev Outcome : Text → Bool → Bool → Result (List ℕ) Error → Type 0
Outcome spec fine blank (ok set) = (fine ≡ true) × (is_empty set ≡ blank)
Outcome spec fine blank (err e) = (fine ≡ false) × Blames spec e

is_empty-insert : (p : ℕ) (set : List ℕ) → is_empty (insert p set) ≡ false
unfolding insert
is_empty-insert p [] = refl
is_empty-insert p (q ∷ qs) = ground arith

is_empty-insert_range :
    (rounds lo : ℕ) (set : List ℕ)
    → is_empty set ≡ false
    → is_empty (insert_range rounds lo set) ≡ false
unfolding insert_range
is_empty-insert_range zero lo set h = h
is_empty-insert_range (suc rounds) lo set h =
    is_empty-insert_range rounds (lo + 1) _ (is_empty-insert (lo % 65536) set)

is_empty-range :
    (rounds lo : ℕ) (set : List ℕ) → 0 < rounds → is_empty (insert_range rounds lo set) ≡ false
unfolding insert_range
is_empty-range zero lo set h = absurd (omega arith)
is_empty-range (suc rounds) lo set h =
    is_empty-insert_range rounds (lo + 1) _ (is_empty-insert (lo % 65536) set)

-- A number read, or blame; the test and the value are those of the description.
abbrev Reads : Text → Bool → ℕ → Result ℕ Error → Type 0
Reads spec fine n (ok m) = (fine ≡ true) × (m ≡ n)
Reads spec fine n (err e) = (fine ≡ false) × Blames spec e

parse_u16-Reads :
    (spec s : Text) → Reads spec (is_ok (parse_uint max_u16 s)) (number s) (parse_u16 spec s)
unfolding parse_u16 number
parse_u16-Reads spec s = go (parse_uint max_u16 s)
  where
    go :
        (r : Result ℕ ParseIntError)
        → Reads spec
            (is_ok r)
            (elim r [ ok n ↦ n | err e ↦ 0 ])
            (map_err
              (λ e.
                Error.ports spec
                  (codes "invalid port `" ++ (s ++ (codes "`: " ++ display_error e))))
              r)
    go (ok n) = (refl, refl)
    go (err e) = (refl, (_, refl))

range_end-Reads :
    (spec : Text) (missing : ℕ) (s : Text)
    → Reads spec
        (is_empty s || is_ok (parse_uint max_u16 s))
        (end_of missing s)
        (range_end spec missing s)
unfolding range_end end_of
range_end-Reads spec missing [] = (refl, refl)
range_end-Reads spec missing (c ∷ s) = parse_u16-Reads spec (c ∷ s)

-- The rule for a step that reads a number and goes on.
Reads-bind :
    (spec : Text) (fine : Bool) (n : ℕ) (m : Result ℕ Error) (fine' blank : Bool)
    (f : ℕ → Result (List ℕ) Error)
    → Reads spec fine n m
    → Outcome spec fine' blank (f n)
    → Outcome spec (fine && fine') blank (m >>= f)
Reads-bind spec fine n (ok m) fine' blank f r o = rw (r.0, r.1) o
Reads-bind spec fine n (err e) fine' blank f r o = (rw (r.0) refl, r.1)

add_range-Outcome :
    (spec : Text) (lo hi : ℕ) (set : List ℕ)
    → Outcome spec (not (lo == 0) && leb lo hi) false (add_range spec lo hi set)
unfolding add_range
add_range-Outcome spec lo hi set = elim (Bool-cases (lo == 0 || hi == 0)) [
  | inl zero_end ↦ rw zero_end (ground arith, (_, refl))
  | inr positive ↦ rw positive (elim (Bool-cases (ltb hi lo)) [
    | inl reversed ↦ rw reversed (ground arith, (_, refl))
    | inr ordered ↦ rw ordered (ground arith, is_empty-range (hi + 1 - lo) lo set (ground arith))
  ])
]

add_port-Outcome :
    (spec : Text) (p : ℕ) (set : List ℕ) → Outcome spec (not (p == 0)) false (add_port spec p set)
unfolding add_port
add_port-Outcome spec p set = elim (Bool-cases (p == 0)) [
  | inl no_port ↦ rw no_port (refl, (_, refl))
  | inr port ↦ rw port (refl, is_empty-insert p set)
]

parse_piece-Outcome :
    (spec c : Text) (set : List ℕ) (cut : Option (Text × Text))
    → Outcome spec (valid c cut) false (parse_piece spec c set cut)
unfolding parse_piece valid
parse_piece-Outcome spec c set none =
    Reads-bind spec _ (number c) (parse_u16 spec c) _ false (λ p. add_port spec p set)
      (parse_u16-Reads spec c) (add_port-Outcome spec (number c) set)
parse_piece-Outcome spec c set (some (l, r)) =
    let low = end_of 1 (trim l) in
    let high = end_of max_u16 (trim r) in
    rw (and_assoc, and_assoc)
      (Reads-bind spec _ low (range_end spec 1 (trim l)) _ false _ (range_end-Reads spec 1 (trim l))
        (Reads-bind spec _ high (range_end spec max_u16 (trim r)) _ false
          (λ hi. add_range spec low hi set) (range_end-Reads spec max_u16 (trim r))
          (add_range-Outcome spec low high set)))

parse_chunk-Outcome :
    (spec c : Text) (set : List ℕ)
    → Outcome spec
        (is_empty c || valid c (split_once b'-' c))
        (is_empty set && is_empty c)
        (parse_chunk spec c set)
unfolding parse_chunk
parse_chunk-Outcome spec [] set = (refl, ground arith)
parse_chunk-Outcome spec (x ∷ c) set =
    rw (and_false (is_empty set)) (parse_piece-Outcome spec (x ∷ c) set (split_once b'-' (x ∷ c)))

Outcome-bind :
    (spec : Text) (fine blank fine' more : Bool) (m : Result (List ℕ) Error)
    (f : List ℕ → Result (List ℕ) Error)
    → Outcome spec fine blank m
    → ((set : List ℕ) → Outcome spec fine' (is_empty set && more) (f set))
    → Outcome spec (fine && fine') (blank && more) (m >>= f)
Outcome-bind spec fine blank fine' more (ok set) f o next = rw (o.0, ← o.1) (next set)
Outcome-bind spec fine blank fine' more (err e) f o next = (rw (o.0) refl, o.1)

parse_chunks-Outcome :
    (spec : Text) (chunks : List Text) (set : List ℕ)
    → Outcome spec
        (all_valid chunks)
        (is_empty set && all_blank chunks)
        (parse_chunks spec chunks set)
unfolding parse_chunks all_valid
parse_chunks-Outcome spec [] set = (refl, ground arith)
parse_chunks-Outcome spec (c ∷ cs) set = rw (← and_assoc) (
    Outcome-bind spec _ _ (all_valid cs) (all_blank cs) (parse_chunk spec (trim c) set)
      (parse_chunks spec cs) (parse_chunk-Outcome spec (trim c) set)
      (λ next. parse_chunks-Outcome spec cs next))

-- The result of the whole parse: accepted exactly as described, and otherwise the blame.
abbrev pub Verdict : Text → Bool → Result PortSpec Error → Type 0
Verdict spec fine (ok p) = fine ≡ true
Verdict spec fine (err e) = (fine ≡ false) × Blames spec e

finish-Verdict : (spec : Text) (set : List ℕ) → Verdict spec (not (is_empty set)) (finish spec set)
unfolding finish
finish-Verdict spec [] = (refl, (_, refl))
finish-Verdict spec (q ∷ qs) = refl

finish_bind :
    (spec : Text) (fine blank : Bool) (m : Result (List ℕ) Error)
    → Outcome spec fine blank m
    → Verdict spec (fine && not blank) (m >>= finish spec)
finish_bind spec fine blank (ok set) o = rw (o.0, ← o.1) (finish-Verdict spec set)
finish_bind spec fine blank (err e) o = (rw (o.0) refl, o.1)

blank-not-dash : (s : Text) → is_empty s ≡ true → text_eq s (codes "-") ≡ false
blank-not-dash [] h = refl
blank-not-dash (c ∷ s) h = ground arith

-- The parse succeeds exactly on the specs that `accepts` describes: the lone dash, or a list with a
-- chunk that is not blank and whose chunks are blank, a port from 1 to 65535, or a range of such
-- ports whose low end is at most its high end. Every error blames the ports and names the whole spec.
pub parse-accepts : (spec : Text) → Verdict spec (accepts spec) (parse spec)
unfolding parse accepts
parse-accepts spec = elim (Bool-cases (is_empty (trim spec))) [
  | inl nothing ↦ rw nothing (rw (blank-not-dash (trim spec) nothing) refl, (_, refl))
  | inr some_text ↦ rw some_text (elim (Bool-cases (text_eq (trim spec) (codes "-"))) [
    | inl dash ↦ rw dash refl
    | inr chunks ↦ rw chunks (
        finish_bind spec _ _ (parse_chunks spec (split b',' (trim spec)) [])
          (parse_chunks-Outcome spec (split b',' (trim spec)) []))
  ])
]

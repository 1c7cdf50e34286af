-- ===== src/Ports.antt =====
-- crates/rnmap-core/src/ports.rs: `PortSpec::parse`. A `BTreeSet<u16>` is its ascending list.
pub mod Ascending
pub mod Denotation
pub mod Failures
pub mod RoundTrip
pub mod Tests
pub mod Unit
use rnmap.Base.{
  ℕ, zero, suc, ◌+◌, ◌-◌, ◌%◌, ◌++◌, Bool, List, [], ◌∷◌, Option, none, some, ◌==◌, ltb, ◌||◌,
  if◌then◌else◌, is_empty, length, range_from, Result, ok, err, ◌>>=◌, map_err,
}
use rnmap.Text.{Text, codes, text_eq}
use rnmap.Text.Space.{trim}
use rnmap.Text.Split.{split, split_once}
use rnmap.Text.Number.{parse_uint, decimal, display_error}
use rnmap.Errors
use rnmap.Errors.{Error}

pub record PortSpec : Type 0 where
  pub ports : List ℕ

pub len : PortSpec → ℕ
len spec = length spec.ports

pub is_empty_spec : PortSpec → Bool
is_empty_spec spec = is_empty spec.ports

abbrev pub max_u16 : ℕ
max_u16 = 65535

-- `parse_u16`: the error names the whole spec and the piece at fault.
pub parse_u16 : Text → Text → Result ℕ Error
parse_u16 spec raw =
    map_err
      (λ e. Error.ports spec (codes "invalid port `" ++ (raw ++ (codes "`: " ++ display_error e))))
      (parse_uint max_u16 raw)

-- `BTreeSet::insert`.
unfoldable pub insert : ℕ → List ℕ → List ℕ
insert p [] = p ∷ []
insert p (q ∷ qs) = if ltb p q then p ∷ q ∷ qs else if p == q then q ∷ qs else q ∷ insert p qs

-- `for p in lo..=hi { set.insert(p as u16); }`, with the number of rounds.
pub insert_range : ℕ → ℕ → List ℕ → List ℕ
unfolding insert
insert_range zero lo set = set
insert_range (suc rounds) lo set = insert_range rounds (lo + 1) (insert (lo % 65536) set)

-- One end of a range, with the end that an empty text stands for.
pub range_end : Text → ℕ → Text → Result ℕ Error
unfolding parse_u16
range_end spec missing s = if is_empty s then ok missing else parse_u16 spec s

-- The checks on a range and its insertion.
pub add_range : Text → ℕ → ℕ → List ℕ → Result (List ℕ) Error
unfolding insert_range
add_range spec lo hi set =
    if lo == 0 || hi == 0
    then err (Error.ports spec (codes "port 0 is not valid"))
    else if ltb hi lo
    then err (Error.ports spec (codes "range " ++ (decimal lo ++ (codes " > " ++ decimal hi))))
    else ok (insert_range (hi + 1 - lo) lo set)

pub add_port : Text → ℕ → List ℕ → Result (List ℕ) Error
unfolding insert
add_port spec p set =
    if p == 0 then err (Error.ports spec (codes "port 0 is not valid")) else ok (insert p set)

-- A chunk with its split at the first dash, if it has one.
pub parse_piece : Text → Text → List ℕ → Option (Text × Text) → Result (List ℕ) Error
unfolding range_end add_range parse_u16 add_port
parse_piece spec c set (some (lo_s, hi_s)) = do
  lo ← range_end spec 1 (trim lo_s)
  hi ← range_end spec max_u16 (trim hi_s)
  add_range spec lo hi set
parse_piece spec c set none = do p ← parse_u16 spec c; add_port spec p set

-- One comma-separated chunk, already trimmed; an empty one is passed over.
pub parse_chunk : Text → Text → List ℕ → Result (List ℕ) Error
unfolding parse_piece
parse_chunk spec c set = if is_empty c then ok set else parse_piece spec c set (split_once b'-' c)

pub parse_chunks : Text → List Text → List ℕ → Result (List ℕ) Error
unfolding parse_chunk
parse_chunks spec [] set = ok set
parse_chunks spec (chunk ∷ rest) set = do
  set' ← parse_chunk spec (trim chunk) set
  parse_chunks spec rest set'

-- The last test: a set with no port is an error.
pub finish : Text → List ℕ → Result PortSpec Error
finish spec set =
    if is_empty set
    then err (Error.ports spec (codes "no ports parsed"))
    else ok (record { ports = set })

-- `(1u16..=65535).collect()`.
pub all_ports : List ℕ
all_ports = range_from max_u16 1

unfoldable pub parse : Text → Result PortSpec Error
unfolding parse_chunks finish
parse spec =
    let raw = trim spec in
    if is_empty raw
    then err (Error.ports spec (codes "empty"))
    else if text_eq raw (codes "-")
    then ok (record { ports = all_ports })
    else (do set ← parse_chunks spec (split b',' raw) []; finish spec set)

-- ===== src/Args.antt =====
-- crates/rnmap/src/main.rs: `rewrite_nmap_args`. Lengths and slices of a `str` count the bytes of its
-- UTF-8 form, and a slice that does not fall between two characters panics.
pub mod Flags
pub mod Boundary
pub mod Tests
use rnmap.Base.{
  ℕ, zero, suc, ◌+◌, ◌-◌, Bool, true, false, not, ◌&&◌, ◌||◌, String, List, [], ◌∷◌, ◌++◌, Option,
  none, some, ◌==◌, ltb, if◌then◌else◌, Result, ok, err, ◌>>=◌, Panic, out_of_range,
}
use rnmap.Text.{Text, codes, text_eq, starts_with}

-- `char::len_utf8`.
unfoldable pub len_utf8 : ℕ → ℕ
len_utf8 c = if ltb c 0x80 then 1 else if ltb c 0x800 then 2 else if ltb c 0x10000 then 3 else 4

-- `str::len`.
unfoldable pub byte_len : Text → ℕ
unfolding len_utf8
byte_len [] = 0
byte_len (c ∷ s) = len_utf8 c + byte_len s

pub keep : ℕ → Result (Text × Text) Panic → Result (Text × Text) Panic
keep c (ok (l, r)) = ok (c ∷ l, r)
keep c (err p) = err p

-- The text before and after a byte offset.
pub split_at : ℕ → Text → Result (Text × Text) Panic
unfolding keep len_utf8
split_at zero s = ok ([], s)
split_at (suc n) [] = err out_of_range
split_at (suc n) (c ∷ s) =
    let rest = split_at (suc n - len_utf8 c) s in
    if ltb (suc n) (len_utf8 c) then err out_of_range else keep c rest

unfoldable pub nmap_flags : List Text
nmap_flags =
    codes "Pn"
    ∷ codes "PE"
    ∷ codes "PS"
    ∷ codes "PA"
    ∷ codes "PU"
    ∷ codes "PR"
    ∷ codes "sS"
    ∷ codes "sT"
    ∷ codes "sU"
    ∷ codes "sV"
    ∷ codes "sN"
    ∷ codes "sF"
    ∷ codes "sX"
    ∷ codes "sA"
    ∷ codes "sW"
    ∷ codes "sM"
    ∷ codes "sO"
    ∷ codes "sY"
    ∷ codes "oN"
    ∷ codes "oX"
    ∷ codes "oJ"
    ∷ codes "oG"
    ∷ codes "oA"
    ∷ codes "oS"
    ∷ []

-- `NMAP_FLAGS.contains`.
pub is_flag : List Text → Text → Bool
is_flag [] s = false
is_flag (f ∷ fs) s = text_eq s f || is_flag fs s

-- A single dash, and not two.
pub single_dash : Text → Bool
single_dash a = starts_with a (codes "-") && not (starts_with a (codes "--"))

pub dashed : Text → Text
dashed s = codes "--" ++ s

-- `-PS22,80`: what is made of the two characters behind the dash and of the rest, `&a[1..3]` and
-- `&a[3..]`.
pub attached : Text → Text × Text → List Text
unfolding is_flag nmap_flags dashed
attached a (two, value) = if is_flag nmap_flags two then dashed two ∷ value ∷ [] else a ∷ []

pub long_form : Text → Result (Text × Text) Panic → Result (List Text) Panic
unfolding attached
long_form a (ok parts) = ok (attached a parts)
long_form a (err p) = err p

-- The characters behind the dash, `&a[1..]`.
pub behind_dash : Text → Text
behind_dash [] = []
behind_dash (c ∷ s) = s

-- The second test, for an argument of more than three bytes.
pub rewrite_long : Text → Result (List Text) Panic
unfolding long_form split_at behind_dash byte_len single_dash
rewrite_long a =
    if ltb 3 (byte_len a) && single_dash a
    then long_form a (split_at 2 (behind_dash a))
    else ok (a ∷ [])

-- One round of the loop: what is pushed for an argument.
pub rewrite_one : Text → Result (List Text) Panic
unfolding rewrite_long is_flag nmap_flags byte_len single_dash behind_dash dashed
rewrite_one a =
    if byte_len a == 3 && single_dash a && is_flag nmap_flags (behind_dash a)
    then ok (dashed (behind_dash a) ∷ [])
    else rewrite_long a

unfoldable pub rewrite_nmap_args : List Text → Result (List Text) Panic
unfolding rewrite_one
rewrite_nmap_args [] = ok []
rewrite_nmap_args (a ∷ input) = do
  pushed ← rewrite_one a
  rest ← rewrite_nmap_args input
  ok (pushed ++ rest)

-- ===== src/Ip/Parse6.antt =====
-- The `FromStr` of `std::net::Ipv6Addr`: a reader that takes what it can from the front of a text.
use rnmap.Base.{
  ℕ, zero, suc, ◌+◌, ◌-◌, ◌*◌, Bool, true, false, not, ◌&&◌, ◌||◌, List, [], ◌∷◌, ◌++◌, Option,
  none, some, ◌==◌, ltb, leb, if◌then◌else◌, length, is_empty,
}
use rnmap.Text.{Text}
use rnmap.Packet.{Ipv4Addr}

-- What a reader has read, and the rest of the text.
abbrev Read : Type 0 → Type 0
Read A = Option (A × Text)

-- The chain of two readers.
abbrev and_then : {A B : Type 0} → Read A → (A → Text → Read B) → Read B
and_then none next = none
and_then (some (a, rest)) next = next a rest

-- `to_digit` for a radix up to 16.
pub to_digit : ℕ → ℕ → Option ℕ
to_digit radix c =
    let value =
      if leb b'0' c && leb c b'9'
      then c - b'0'
      else if leb b'a' c && leb c b'f'
      then c - b'a' + 10
      else if leb b'A' c && leb c b'F'
      then c - b'A' + 10
      else 16 in
    if ltb value radix then some value else none

-- The digits in front: how many, their value, and the rest.
pub read_digits : ℕ → Text → ℕ → ℕ → ℕ × ℕ × Text
unfolding to_digit
read_digits radix [] count value = (count, value, [])
read_digits radix (c ∷ s) count value = elim (to_digit radix c) [
  | none ↦ (count, value, c ∷ s)
  | some d ↦ read_digits radix s (count + 1) (value * radix + d)
]

abbrev has_leading_zero : Text → Bool
has_leading_zero [] = false
has_leading_zero (c ∷ s) = c == b'0'

-- `read_number`, for numbers up to `limit` of at most `max_digits` digits.
pub read_number : ℕ → ℕ → Bool → ℕ → Text → Read ℕ
unfolding read_digits
read_number radix max_digits allow_zero_prefix limit s =
    let (count, value, rest) = read_digits radix s 0 0 in
    if count == 0
      || ltb max_digits count
      || (not allow_zero_prefix && has_leading_zero s && ltb 1 count)
      || ltb limit value
    then none
    else some (value, rest)

pub read_given_char : ℕ → Text → Read ℕ
read_given_char target [] = none
read_given_char target (c ∷ s) = if c == target then some (c, s) else none

-- `read_separator`: the separator is read in front of all but the first.
pub read_separator : {A : Type 0} → ℕ → ℕ → (Text → Read A) → Text → Read A
unfolding read_given_char
read_separator sep index inner s =
    if index == 0 then inner s else and_then (read_given_char sep s) (λ c rest. inner rest)

pub read_v4 : Text → Read Ipv4Addr
unfolding read_separator read_number
read_v4 s =
    let octet = read_number 10 3 false 255 in
    and_then (read_separator b'.' 0 octet s) (λ a s1.
      and_then (read_separator b'.' 1 octet s1) (λ b s2.
        and_then (read_separator b'.' 2 octet s2) (λ c s3.
          and_then (read_separator b'.' 3 octet s3)
            (λ d s4. some (record { a = a; b = b; c = c; d = d }, s4)))))

-- The groups that were read, whether the last two were an address of version 4, and the rest.
pub record Groups : Type 0 where
  pub groups : List ℕ
  pub has_v4 : Bool
  pub rest : Text

-- `read_groups`, with the number of groups left and the number of the next one. An address of version 4
-- needs two groups.
pub read_groups : ℕ → ℕ → Text → Groups
unfolding read_separator read_v4 read_number
read_groups zero i s = record { groups = []; has_v4 = false; rest = s }
read_groups (suc left) i s = elim (if left == 0 then none else read_separator b':' i read_v4 s) [
  | some (ip, rest) ↦ record {
    groups = (ip.a * 256 + ip.b) ∷ (ip.c * 256 + ip.d) ∷ [];
    has_v4 = true;
    rest = rest;
  }
  | none ↦ elim (read_separator b':' i (read_number 16 4 true 65535) s) [
    | none ↦ record { groups = []; has_v4 = false; rest = s }
    | some (group, rest) ↦
        let more = read_groups left (i + 1) rest in record more { groups = group ∷ more.groups }
  ]
]

abbrev zeroes : ℕ → List ℕ
zeroes zero = []
zeroes (suc n) = 0 ∷ zeroes n

-- The reader has to come to the end of the text.
abbrev at_end : List ℕ → Text → Option (List ℕ)
at_end segments rest = if is_empty rest then some segments else none

-- The tail behind `::`, which stands for at least one zero.
pub behind_colons : List ℕ → Read ℕ → Option (List ℕ)
unfolding read_groups
behind_colons head none = none
behind_colons head (some (c, s)) =
    let tail = read_groups (8 - (length head + 1)) 0 s in
    at_end (head ++ (zeroes (8 - length head - length tail.groups) ++ tail.groups)) tail.rest

unfoldable pub parse_v6 : Text → Option (List ℕ)
unfolding read_groups behind_colons read_given_char
parse_v6 s =
    let head = read_groups 8 0 s in
    if length head.groups == 8
    then at_end head.groups head.rest
    else if head.has_v4
    then none
    else behind_colons head.groups
        (and_then (read_given_char b':' head.rest) (λ c rest. read_given_char b':' rest))

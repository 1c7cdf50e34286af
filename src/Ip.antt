-- ===== src/Ip.antt =====
-- `std::net::Ipv4Addr`: its `FromStr` and its `Display`.
pub mod RoundTrip
pub mod Show
pub mod Parse6
pub mod Tests
use rnmap.Base.{
  ℕ, zero, suc, ◌+◌, ◌-◌, ◌*◌, Bool, true, false, not, ◌&&◌, ◌||◌, List, [], ◌∷◌, ◌++◌, Option,
  none, some, ◌==◌, ltb, leb, if◌then◌else◌, length,
}
use rnmap.Text.{Text, codes}
use rnmap.Text.Split.{split}
use rnmap.Text.Number.{is_digit, decimal}
use rnmap.Packet.{Ipv4Addr}

-- The value of up to three digits.
pub octet_value : Text → ℕ → Option ℕ
octet_value [] n = some n
octet_value (c ∷ s) n =
    let rest = octet_value s (n * 10 + (c - 48)) in if is_digit c then rest else none

-- One octet: one to three digits with no leading zero, at most 255.
pub parse_octet : Text → Option ℕ
unfolding octet_value
parse_octet [] = none
parse_octet (c ∷ []) = octet_value (c ∷ []) 0
parse_octet (c ∷ d ∷ s) =
    if c == b'0' || ltb 1 (length s) then none else elim (octet_value (c ∷ d ∷ s) 0) [
      | none ↦ none
      | some n ↦ if ltb 255 n then none else some n
    ]

pub of_octets : Option ℕ → Option ℕ → Option ℕ → Option ℕ → Option Ipv4Addr
of_octets (some a) (some b) (some c) (some d) = some (record { a = a; b = b; c = c; d = d })
of_octets _ _ _ _ = none

pub of_parts : List Text → Option Ipv4Addr
unfolding parse_octet of_octets
of_parts (p ∷ q ∷ r ∷ s ∷ []) =
    of_octets (parse_octet p) (parse_octet q) (parse_octet r) (parse_octet s)
of_parts parts = none

-- `Ipv4Addr::from_str`: four octets with dots between them, and nothing else.
unfoldable pub parse_v4 : Text → Option Ipv4Addr
unfolding of_parts
parse_v4 s = of_parts (split b'.' s)

-- `to_string`.
unfoldable pub show_v4 : Ipv4Addr → Text
show_v4 ip =
    decimal ip.a ++ (b'.' ∷ (decimal ip.b ++ (b'.' ∷ (decimal ip.c ++ (b'.' ∷ decimal ip.d)))))

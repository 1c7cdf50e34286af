-- ===== src/Ip/Show.antt =====
-- The `Display` of `std::net::Ipv6Addr` and `std::net::IpAddr`.
use rnmap.Base.{
  ℕ, ◌+◌, ◌-◌, ◌/◌, ◌%◌, List, [], ◌∷◌, ◌++◌, Option, none, some, ◌==◌, ltb, if◌then◌else◌, map,
  take, drop, ◌&&◌,
}
use rnmap.Text.{Text, codes, join}
use rnmap.Packet.{Ipv4Addr}
use rnmap.Ip.{show_v4}
use rnmap.Report.{IpAddr, v4, v6}

abbrev pub hex_digit : ℕ → ℕ
hex_digit d = if ltb d 10 then b'0' + d else b'a' + d - 10

-- `{:x}` of a 16-bit number.
unfoldable pub hex : ℕ → Text
hex n =
    let d0 = hex_digit (n % 16) in
    let d1 = hex_digit (n / 16 % 16) in
    let d2 = hex_digit (n / 256 % 16) in
    if ltb n 16
    then d0 ∷ []
    else if ltb n 256
    then d1 ∷ d0 ∷ []
    else if ltb n 4096
    then d2 ∷ d1 ∷ d0 ∷ []
    else hex_digit (n / 4096 % 16) ∷ d2 ∷ d1 ∷ d0 ∷ []

-- A run of zeros among the segments.
pub record Span : Type 0 where
  pub start : ℕ
  pub len : ℕ

abbrev pub no_span : Span
no_span = record { start = 0; len = 0 }

abbrev extended : ℕ → Span → Span
extended i current = record {
  start = if current.len == 0 then i else current.start;
  len = current.len + 1;
}

-- The first of the longest runs of zeros, from the segment of number `i`.
pub longest : List ℕ → ℕ → Span → Span → Span
longest [] i current best = best
longest (s ∷ ss) i current best =
    let next = if s == 0 then extended i current else no_span in
    longest ss (i + 1) next (if ltb best.len next.len then next else best)

unfoldable pub show_segments : List ℕ → Text
unfolding hex
show_segments ss = join (codes ":") (map hex ss)

-- `to_ipv4_mapped`.
unfoldable pub mapped : List ℕ → Option Ipv4Addr
mapped (a ∷ b ∷ c ∷ d ∷ e ∷ f ∷ g ∷ h ∷ []) =
    if a == 0 && b == 0 && c == 0 && d == 0 && e == 0 && f == 0xFFFF
    then some (record { a = g / 256; b = g % 256; c = h / 256; d = h % 256 })
    else none
mapped _ = none

-- One zero is not left out.
unfoldable pub compressed : List ℕ → Span → Text
unfolding show_segments
compressed ss zeroes =
    if ltb 1 zeroes.len
    then show_segments (take zeroes.start ss)
      ++ (codes "::" ++ show_segments (drop (zeroes.start + zeroes.len) ss))
    else show_segments ss

-- The whole, by the version 4 address that it is mapped from, if it is.
unfoldable pub written : List ℕ → Option Ipv4Addr → Text
unfolding compressed longest
written ss (some ip) = codes "::ffff:" ++ show_v4 ip
written ss none = compressed ss (longest ss 0 no_span no_span)

unfoldable pub show_v6 : List ℕ → Text
unfolding mapped written
show_v6 ss = written ss (mapped ss)

unfoldable pub show_ip : IpAddr → Text
unfolding show_v6
show_ip (v4 ip) = show_v4 ip
show_ip (v6 segments) = show_v6 segments

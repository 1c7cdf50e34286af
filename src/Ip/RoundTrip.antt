-- ===== src/Ip/RoundTrip.antt =====
-- An address is read back from its print.
use rnmap.Base.{
  ℕ, ◌≡◌, refl, Bool, true, false, [], ◌∷◌, Option, none, some, arith, ◌==◌, holds_below,
  holds_below_at, ◌<◌, leb, ◌&&◌, All-append,
}
use rnmap.Text.Split.{Lacks, split, split-append, split-Lacks}
use rnmap.Text.Number.{decimal, decimal-IsNumeric, numeric-Lacks}
use rnmap.Packet.{Ipv4Addr}
use rnmap.Packet.Checked.{IsAddr}
use rnmap.Ip.{parse_octet, of_octets, of_parts, parse_v4, show_v4}

is_octet : Option ℕ → ℕ → Bool
is_octet none n = false
is_octet (some m) n = m == n

is_octet_sound : (o : Option ℕ) (n : ℕ) → is_octet o n ≡ true → o ≡ some n
unfolding is_octet
is_octet_sound none n h = ground arith
is_octet_sound (some m) n h = ground arith

octets_table : holds_below (λ n. is_octet (parse_octet (decimal n)) n) 256 ≡ true
unfolding holds_below is_octet parse_octet decimal
octets_table = refl

pub parse_octet-decimal : (n : ℕ) → n < 256 → parse_octet (decimal n) ≡ some n
parse_octet-decimal n h = is_octet_sound _ n (holds_below_at _ 256 n h octets_table)

decimal-Lacks : (d n : ℕ) → (leb 48 d && leb d 57) ≡ false → Lacks d (decimal n)
decimal-Lacks d n h = numeric-Lacks d (decimal n) h (decimal-IsNumeric n)

split-show_v4 :
    (ip : Ipv4Addr)
    → split b'.' (show_v4 ip) ≡ decimal ip.a ∷ decimal ip.b ∷ decimal ip.c ∷ decimal ip.d ∷ []
unfolding show_v4
split-show_v4 ip =
    rw
      (
        split-append b'.' (decimal ip.a) _ (decimal-Lacks b'.' ip.a refl),
        split-append b'.' (decimal ip.b) _ (decimal-Lacks b'.' ip.b refl),
        split-append b'.' (decimal ip.c) _ (decimal-Lacks b'.' ip.c refl),
        split-Lacks b'.' (decimal ip.d) (decimal-Lacks b'.' ip.d refl),
      )
      refl

-- Every version 4 address is read back from the text that it is written as.
pub parse_v4-show_v4 : (ip : Ipv4Addr) → IsAddr ip → parse_v4 (show_v4 ip) ≡ some ip
unfolding parse_v4 of_parts of_octets
parse_v4-show_v4 ip h =
    rw
      (
        split-show_v4,
        parse_octet-decimal ip.a h.0,
        parse_octet-decimal ip.b h.1,
        parse_octet-decimal ip.c h.2,
        parse_octet-decimal ip.d h.3,
      )
      refl

-- A written address has digits and dots only.
pub show_v4-Lacks :
    (d : ℕ) (ip : Ipv4Addr)
    → (leb 48 d && leb d 57) ≡ false
    → (d == b'.') ≡ false
    → Lacks d (show_v4 ip)
unfolding show_v4
show_v4-Lacks d ip digit dot =
    let part = λ (n : ℕ). decimal-Lacks d n digit in
    All-append _ (decimal ip.a) _ (part ip.a) (
      ground arith,
      All-append _ (decimal ip.b) _ (part ip.b)
          (ground arith, All-append _ (decimal ip.c) _ (part ip.c) (ground arith, part ip.d)),
    )

-- ===== src/Output/Xml/Addresses.antt =====
-- Addresses are written without characters that an attribute value would have to escape.
use rnmap.Base.{
  ℕ, ◌+◌, List, [], ◌∷◌, Option, none, some, ltb, take, drop, arith, All-append, Bool-cases, inl,
  inr,
}
use rnmap.Text.{codes}
use rnmap.Text.Number.{decimal}
use rnmap.Packet.{Ipv4Addr}
use rnmap.Ip.{show_v4}
use rnmap.Ip.Show.{
  Span, hex, longest, show_segments, mapped, compressed, no_span, written, show_v6, show_ip,
}
use rnmap.Report.{IpAddr, v4, v6}
use rnmap.Output.Xml.Pieces.{IsRaw}
use rnmap.Output.Xml.ReadBack.{decimal-IsRaw}

show_v4-IsRaw : (ip : Ipv4Addr) → IsRaw (show_v4 ip)
unfolding show_v4
show_v4-IsRaw ip =
    let part = decimal-IsRaw in
    All-append _ (decimal ip.a) _ (part ip.a) (
      omega arith,
      All-append _ (decimal ip.b) _ (part ip.b)
          (omega arith, All-append _ (decimal ip.c) _ (part ip.c) (omega arith, part ip.d)),
    )

hex-IsRaw : (n : ℕ) → IsRaw (hex n)
unfolding hex
hex-IsRaw n = ground arith

show_segments-IsRaw : (ss : List ℕ) → IsRaw (show_segments ss)
unfolding show_segments
show_segments-IsRaw [] = tt
show_segments-IsRaw (s ∷ []) = hex-IsRaw s
show_segments-IsRaw (s ∷ t ∷ ss) =
    All-append _ (hex s) _ (hex-IsRaw s) (omega arith, show_segments-IsRaw (t ∷ ss))

compressed-IsRaw : (ss : List ℕ) (zeroes : Span) → IsRaw (compressed ss zeroes)
unfolding compressed
compressed-IsRaw ss zeroes = elim (Bool-cases (ltb 1 zeroes.len)) [
  | inl left_out ↦ rw left_out (
      All-append _ (show_segments (take zeroes.start ss)) _
        (show_segments-IsRaw (take zeroes.start ss))
        (All-append _ (codes "::") _ (omega arith)
          (show_segments-IsRaw (drop (zeroes.start + zeroes.len) ss))))
  | inr whole ↦ rw whole (show_segments-IsRaw ss)
]

written-IsRaw : (ss : List ℕ) (o : Option Ipv4Addr) → IsRaw (written ss o)
unfolding written
written-IsRaw ss (some ip) = All-append _ (codes "::ffff:") _ (omega arith) (show_v4-IsRaw ip)
written-IsRaw ss none = compressed-IsRaw ss (longest ss 0 no_span no_span)

pub show_ip-IsRaw : (a : IpAddr) → IsRaw (show_ip a)
unfolding show_ip
show_ip-IsRaw (v4 ip) = show_v4-IsRaw ip
show_ip-IsRaw (v6 segments) = unfold show_v6 in written-IsRaw segments (mapped segments)

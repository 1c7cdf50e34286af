-- ===== src/Packet/Safety.antt =====
-- No received packet makes the parsers panic.
use rnmap.Base.{
  ℕ, ◌+◌, ◌*◌, ◌%◌, ◌≤◌, ◌<◌, ◌≡◌, refl, Option, none, some, Bool, true, false, not, ◌==◌, ltb, leb,
  ◌||◌, ◌&&◌, arith, Bytes, length, get_or, drop, length-drop, Result, ok, Panic, index-get_or,
  slice_from-drop, Bool-cases, inl, inr, u16_from_be, u32_from_be, if◌then◌else◌,
}
use rnmap.Packet.{
  Ipv4Addr, ip_eq, strip_ipv4, Segment, ip_at, u16_at, u32_at, read_segment, read_between,
  parse_tcp_in_ipv4,
}

-- What `strip_ipv4` returns, with total accessors: 0 stands for a byte out of range.
pub stripped : Bytes → Option Bytes
stripped buf =
    if ltb (length buf) 20
      || not (get_or buf 9 0 == 1)
      || ltb (length buf) (get_or buf 0 0 % 16 * 4)
    then none
    else some (drop (get_or buf 0 0 % 16 * 4) buf)

-- No input makes `strip_ipv4` index out of range: it returns what lies behind the header of an ICMP
-- packet that is long enough for its header, and otherwise nothing.
pub strip_ipv4-stripped : (buf : Bytes) → strip_ipv4 buf ≡ ok (stripped buf)
unfolding strip_ipv4 stripped
strip_ipv4-stripped buf = elim (Bool-cases (ltb (length buf) 20)) [
  | inl short ↦ rw short refl
  | inr long ↦
      rw (long, index-get_or buf 9 (ground arith), index-get_or buf 0 (ground arith))
        (elim (Bool-cases (get_or buf 9 0 == 1)) [
          | inr other ↦ rw other refl
          | inl icmp ↦ rw icmp (elim (Bool-cases (ltb (length buf) (get_or buf 0 0 % 16 * 4))) [
            | inl cut ↦ rw cut refl
            | inr whole ↦
                rw (whole, slice_from-drop (get_or buf 0 0 % 16 * 4) buf (ground arith)) refl
          ])
        ])
]

abbrev ip_of : Bytes → ℕ → Ipv4Addr
ip_of buf i = record {
  a = get_or buf i 0;
  b = get_or buf (i + 1) 0;
  c = get_or buf (i + 2) 0;
  d = get_or buf (i + 3) 0;
}

ip_at-ip_of : (buf : Bytes) (i : ℕ) → i + 3 < length buf → ip_at buf i ≡ ok (ip_of buf i)
unfolding ip_at
ip_at-ip_of buf i h =
    rw
      (
        index-get_or buf i (omega arith),
        index-get_or buf (i + 1) (omega arith),
        index-get_or buf (i + 2) (omega arith),
        index-get_or buf (i + 3) (omega arith),
      )
      refl

-- The header fields of a segment.
unfoldable pub segment_of : Bytes → Segment
segment_of tcp = record {
  sp = u16_from_be (get_or tcp 0 0) (get_or tcp 1 0);
  dp = u16_from_be (get_or tcp 2 0) (get_or tcp 3 0);
  flags = get_or tcp 13 0;
  seq = u32_from_be (get_or tcp 4 0) (get_or tcp 5 0) (get_or tcp 6 0) (get_or tcp 7 0);
  ack = u32_from_be (get_or tcp 8 0) (get_or tcp 9 0) (get_or tcp 10 0) (get_or tcp 11 0);
}

read_segment-segment_of : (tcp : Bytes) → 20 ≤ length tcp → read_segment tcp ≡ ok (segment_of tcp)
unfolding read_segment segment_of u16_at u32_at
read_segment-segment_of tcp h =
    rw
      (
        index-get_or tcp 0 (omega arith),
        index-get_or tcp 1 (omega arith),
        index-get_or tcp 2 (omega arith),
        index-get_or tcp 3 (omega arith),
        index-get_or tcp 4 (omega arith),
        index-get_or tcp 5 (omega arith),
        index-get_or tcp 6 (omega arith),
        index-get_or tcp 7 (omega arith),
        index-get_or tcp 8 (omega arith),
        index-get_or tcp 9 (omega arith),
        index-get_or tcp 10 (omega arith),
        index-get_or tcp 11 (omega arith),
        index-get_or tcp 13 (omega arith),
      )
      refl

-- Whether the packet is a TCP packet between the two addresses, with a whole header.
unfoldable pub is_between : Bytes → Ipv4Addr → Ipv4Addr → Bool
is_between buf src dst =
    leb 20 (length buf)
    && leb (get_or buf 0 0 % 16 * 4 + 20) (length buf)
    && get_or buf 9 0 == 6
    && ip_eq (ip_of buf 12) src
    && ip_eq (ip_of buf 16) dst

read_between-segment_of :
    (buf : Bytes) (ihl : ℕ) (src dst : Ipv4Addr)
    → 20 ≤ length buf
    → ihl + 20 ≤ length buf
    → read_between buf ihl src dst
      ≡ ok (
          if ip_eq (ip_of buf 12) src && ip_eq (ip_of buf 16) dst
          then some (segment_of (drop ihl buf))
          else none)
unfolding read_between
read_between-segment_of buf ihl src dst long whole =
    rw
      (
        ip_at-ip_of buf 12 (omega arith),
        ip_at-ip_of buf 16 (omega arith),
        slice_from-drop ihl buf (omega arith),
        read_segment-segment_of (drop ihl buf) (omega (arith, length-drop ihl buf)),
      )
      (cases (ip_eq (ip_of buf 12) src) (ip_eq (ip_of buf 16) dst))
  where
    cases :
        (s d : Bool)
        → ◌≡◌ {A = Result (Option Segment) Panic}
            (if not s || not d then ok none else ok (some (segment_of (drop ihl buf))))
            (ok (if s && d then some (segment_of (drop ihl buf)) else none))
    cases true true = refl
    cases true false = refl
    cases false d = refl

ltb-leb : (a b : ℕ) → ltb a b ≡ true → leb b a ≡ false
ltb-leb a b h = ground arith

not_ltb-leb : (a b : ℕ) → ltb a b ≡ false → leb b a ≡ true
not_ltb-leb a b h = ground arith

-- No input makes `parse_tcp_in_ipv4` index out of range: it returns the header fields of the segment
-- of a TCP packet with a whole header between the two addresses, and otherwise nothing.
pub parse_tcp_in_ipv4-segment_of :
    (buf : Bytes) (src dst : Ipv4Addr)
    → parse_tcp_in_ipv4 buf src dst
      ≡ ok (
          if is_between buf src dst
          then some (segment_of (drop (get_or buf 0 0 % 16 * 4) buf))
          else none)
unfolding parse_tcp_in_ipv4 is_between
parse_tcp_in_ipv4-segment_of buf src dst = elim (Bool-cases (ltb (length buf) 20)) [
  | inl short ↦ rw (short, ltb-leb (length buf) 20 short) refl
  | inr long ↦
      rw (long, not_ltb-leb (length buf) 20 long, index-get_or buf 0 (ground arith))
        (elim (Bool-cases (ltb (length buf) (get_or buf 0 0 % 16 * 4 + 20))) [
          | inl cut ↦ rw (cut, ltb-leb (length buf) _ cut) refl
          | inr whole ↦
              rw (whole, not_ltb-leb (length buf) _ whole, index-get_or buf 9 (ground arith))
                (elim (Bool-cases (get_or buf 9 0 == 6)) [
                  | inr other ↦ rw other refl
                  | inl tcp ↦ rw tcp (
                      read_between-segment_of buf (get_or buf 0 0 % 16 * 4) src dst (ground arith)
                        (ground arith))
                ])
        ])
]

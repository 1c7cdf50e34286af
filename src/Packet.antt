-- ===== src/Packet.antt =====
-- The packet builders and parsers of crates/rnmap-core/src/discovery.rs (ICMP) and
-- crates/rnmap-core/src/scan/syn.rs (IPv4 and TCP).
pub mod Lengths
pub mod Safety
pub mod Checked
pub mod Tests
pub mod Unit
use rnmap.Base.{
  ℕ, ◌+◌, ◌*◌, ◌/◌, ◌%◌, List, [], ◌∷◌, ◌++◌, Option, none, some, Bool, not, ◌==◌, ltb, ◌&&◌, ◌||◌,
  if◌then◌else◌, Bytes, u16_to_be, u32_to_be, u16_from_be, u32_from_be, length, set, Result, ok,
  err, ◌>>=◌, Panic, index, slice_from,
}
use rnmap.Checksum.{checksum16}

-- `std::net::Ipv4Addr`, by its octets.
pub record Ipv4Addr : Type 0 where
  pub a : ℕ
  pub b : ℕ
  pub c : ℕ
  pub d : ℕ

abbrev pub octets : Ipv4Addr → Bytes
octets ip = ip.a ∷ ip.b ∷ ip.c ∷ ip.d ∷ []

abbrev pub ip_eq : Ipv4Addr → Ipv4Addr → Bool
ip_eq x y = x.a == y.a && x.b == y.b && x.c == y.c && x.d == y.d

-- `t[at..at + 2].copy_from_slice(&value.to_be_bytes())`.
abbrev pub put_u16 : Bytes → ℕ → ℕ → Bytes
put_u16 bytes at value = set (set bytes at (value / 256 % 256)) (at + 1) (value % 256)

-- The echo request before its checksum is filled in.
abbrev pub icmp_echo_blank : ℕ → ℕ → Bytes → Bytes
icmp_echo_blank id seq payload =
    8 ∷ 0 ∷ 0 ∷ 0 ∷ (id / 256 % 256) ∷ (id % 256) ∷ (seq / 256 % 256) ∷ (seq % 256) ∷ payload

unfoldable pub build_icmp_echo : ℕ → ℕ → Bytes → Bytes
build_icmp_echo id seq payload =
    let pkt = icmp_echo_blank id seq payload in put_u16 pkt 2 (checksum16 pkt)

-- The ICMP message of an IPv4 packet: behind the header, whose length is in the low half of the
-- first byte (`buf[0] & 0x0f`, in words of four bytes).
unfoldable pub strip_ipv4 : Bytes → Result (Option Bytes) Panic
strip_ipv4 buf = if ltb (length buf) 20 then ok none else (do
  proto ← index buf 9
  if not (proto == 1) then ok none else (do
    first ← index buf 0
    let ihl = first % 16 * 4
    if ltb (length buf) ihl then ok none else (do rest ← slice_from ihl buf; ok (some rest))))

-- The IPv4 header before its checksum is filled in. `id` is the random identification. The sum
-- `20 + payload.len() as u16` is taken modulo 2 ^ 16.
abbrev pub ipv4_blank : ℕ → Ipv4Addr → Ipv4Addr → Bytes → Bytes
ipv4_blank id src dst payload =
    let total = (20 + length payload % 65536) % 65536 in
    0x45
      ∷ 0
      ∷ (total / 256 % 256)
      ∷ (total % 256)
      ∷ (id / 256 % 256)
      ∷ (id % 256)
      ∷ 0x40
      ∷ 0
      ∷ 64
      ∷ 6
      ∷ 0
      ∷ 0
      ∷ octets src
    ++ octets dst

unfoldable pub build_ipv4 : ℕ → Ipv4Addr → Ipv4Addr → Bytes → Bytes
build_ipv4 id src dst payload = let h = ipv4_blank id src dst payload in put_u16 h 10 (checksum16 h)

-- The pseudo header and the segment, padded to an even length.
abbrev pub pseudo : Ipv4Addr → Ipv4Addr → Bytes → Bytes
pseudo src dst tcp = octets src ++ (octets dst ++ (0 ∷ 6 ∷ u16_to_be (length tcp % 65536) ++ tcp))

abbrev pub pad_even : Bytes → Bytes
pad_even buf = if length buf % 2 == 0 then buf else buf ++ 0 ∷ []

unfoldable pub tcp_checksum : Ipv4Addr → Ipv4Addr → Bytes → ℕ
tcp_checksum src dst tcp = checksum16 (pad_even (pseudo src dst tcp))

-- The TCP segment before its checksum is filled in.
abbrev pub tcp_blank : ℕ → ℕ → ℕ → ℕ → ℕ → ℕ → Bytes
tcp_blank sp dp seq ack flags win =
    u16_to_be sp
    ++ (u16_to_be dp
        ++ (u32_to_be seq
            ++ (u32_to_be ack
                ++ (0x50 ∷ flags ∷ (win / 256 % 256) ∷ (win % 256) ∷ 0 ∷ 0 ∷ 0 ∷ 0 ∷ []))))

unfoldable pub build_tcp : Ipv4Addr → Ipv4Addr → ℕ → ℕ → ℕ → ℕ → ℕ → ℕ → Bytes
unfolding tcp_checksum
build_tcp src dst sp dp seq ack flags win =
    let t = tcp_blank sp dp seq ack flags win in put_u16 t 16 (tcp_checksum src dst t)

-- SYN, with the widest window.
unfoldable pub build_syn_packet : ℕ → Ipv4Addr → Ipv4Addr → ℕ → ℕ → ℕ → Bytes
unfolding build_tcp build_ipv4
build_syn_packet id src dst sp dp seq =
    let tcp = build_tcp src dst sp dp seq 0 0x02 0xffff in build_ipv4 id src dst tcp ++ tcp

-- What `send_rst` sends.
unfoldable pub build_rst_packet : ℕ → Ipv4Addr → Ipv4Addr → ℕ → ℕ → ℕ → Bytes
unfolding build_tcp build_ipv4
build_rst_packet id src dst sp dp ack_we_got =
    let p = build_tcp src dst sp dp ack_we_got 0 0x04 0 in build_ipv4 id src dst p ++ p

-- Source port, destination port, flags, sequence and acknowledgement numbers.
pub record Segment : Type 0 where
  pub sp : ℕ
  pub dp : ℕ
  pub flags : ℕ
  pub seq : ℕ
  pub ack : ℕ

-- `Ipv4Addr::new(buf[i], …, buf[i + 3])`.
pub ip_at : Bytes → ℕ → Result Ipv4Addr Panic
ip_at buf i = do
  a ← index buf i
  b ← index buf (i + 1)
  c ← index buf (i + 2)
  d ← index buf (i + 3)
  ok (record { a = a; b = b; c = c; d = d })

pub u16_at : Bytes → ℕ → Result ℕ Panic
u16_at buf i = do a ← index buf i; b ← index buf (i + 1); ok (u16_from_be a b)

pub u32_at : Bytes → ℕ → Result ℕ Panic
u32_at buf i = do
  a ← index buf i
  b ← index buf (i + 1)
  c ← index buf (i + 2)
  d ← index buf (i + 3)
  ok (u32_from_be a b c d)

-- The fields of a TCP header.
pub read_segment : Bytes → Result Segment Panic
unfolding u16_at u32_at
read_segment tcp = do
  sp ← u16_at tcp 0
  dp ← u16_at tcp 2
  seq ← u32_at tcp 4
  ack ← u32_at tcp 8
  flags ← index tcp 13
  ok (record { sp = sp; dp = dp; flags = flags; seq = seq; ack = ack })

-- The addresses are compared, and then the segment is read.
pub read_between : Bytes → ℕ → Ipv4Addr → Ipv4Addr → Result (Option Segment) Panic
unfolding ip_at read_segment
read_between buf ihl expect_src expect_dst = do
  s ← ip_at buf 12
  d ← ip_at buf 16
  if not (ip_eq s expect_src) || not (ip_eq d expect_dst)
      then ok none
      else (do tcp ← slice_from ihl buf; segment ← read_segment tcp; ok (some segment))

unfoldable pub parse_tcp_in_ipv4 : Bytes → Ipv4Addr → Ipv4Addr → Result (Option Segment) Panic
unfolding read_between
parse_tcp_in_ipv4 buf expect_src expect_dst = if ltb (length buf) 20 then ok none else (do
  first ← index buf 0
  let ihl = first % 16 * 4
  if ltb (length buf) (ihl + 20) then ok none else (do
    proto ← index buf 9
    if not (proto == 6) then ok none else read_between buf ihl expect_src expect_dst))

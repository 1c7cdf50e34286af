-- ===== src/Packet/Checked.antt =====
-- The checksum fields of the packets that are built verify, and a packet is parsed back.
use rnmap.Base.{
  ℕ, ◌*◌, ◌%◌, ◌≤◌, ◌<◌, ◌≡◌, refl, some, ok, true, arith, Bytes, length, ◌++◌, All, IsByte,
  ==_refl, drop, get_or, ap,
}
use rnmap.Checksum.{u32_mod, checksum16}
use rnmap.Checksum.Valid.{checksum16-filled, checksum16-lt, word_sum-le}
use rnmap.Packet.{
  Ipv4Addr, ip_eq, put_u16, icmp_echo_blank, build_icmp_echo, ipv4_blank, build_ipv4, tcp_blank,
  pseudo, tcp_checksum, build_tcp, build_syn_packet, parse_tcp_in_ipv4,
}
use rnmap.Packet.Safety.{is_between, segment_of, parse_tcp_in_ipv4-segment_of}

-- The four octets are bytes.
abbrev pub IsAddr : Ipv4Addr → Type 0
IsAddr ip = (ip.a < 256) × (ip.b < 256) × (ip.c < 256) × (ip.d < 256)

-- For two addresses of bytes, the header that `build_ipv4` writes has the checksum 0, which is how a
-- receiver verifies it.
pub checksum16-build_ipv4 :
    (id : ℕ) (src dst : Ipv4Addr) (payload : Bytes)
    → IsAddr src
    → IsAddr dst
    → checksum16 (build_ipv4 id src dst payload) ≡ 0
unfolding build_ipv4
checksum16-build_ipv4 id src dst payload hs hd =
    let blank = ipv4_blank id src dst payload in
    checksum16-filled blank (put_u16 blank 10 (checksum16 blank))
      (omega (arith, checksum16-lt blank)) (omega arith)

-- For two addresses of bytes and a byte of flags, the segment that `build_tcp` writes verifies: with
-- its checksum in place the checksum over the pseudo header and the segment is 0.
pub tcp_checksum-build_tcp :
    (src dst : Ipv4Addr) (sp dp seq ack flags win : ℕ)
    → IsAddr src
    → IsAddr dst
    → flags < 256
    → tcp_checksum src dst (build_tcp src dst sp dp seq ack flags win) ≡ 0
unfolding build_tcp
tcp_checksum-build_tcp src dst sp dp seq ack flags win hs hd hf =
    let blank = tcp_blank sp dp seq ack flags win in
    let c = tcp_checksum src dst blank in
    checksum16-filled (pseudo src dst blank) (pseudo src dst (put_u16 blank 16 c))
      (omega (arith, checksum16-lt (pseudo src dst blank))) (omega arith)

-- An echo request whose payload is up to 100000 bytes has the checksum 0.
pub checksum16-build_icmp_echo :
    (id seq : ℕ) (payload : Bytes)
    → All IsByte payload
    → length payload ≤ 100000
    → checksum16 (build_icmp_echo id seq payload) ≡ 0
unfolding build_icmp_echo
checksum16-build_icmp_echo id seq payload bytes short =
    let blank = icmp_echo_blank id seq payload in
    checksum16-filled blank (put_u16 blank 2 (checksum16 blank))
      (omega (arith, checksum16-lt blank)) (omega (arith, word_sum-le payload bytes))

ip_eq_refl : (ip : Ipv4Addr) → ip_eq ip ip ≡ true
ip_eq_refl ip = rw (==_refl ip.a, ==_refl ip.b, ==_refl ip.c, ==_refl ip.d) refl

-- Any IPv4 packet with a TCP segment as its payload.
unfoldable pub tcp_packet : ℕ → Ipv4Addr → Ipv4Addr → ℕ → ℕ → ℕ → ℕ → ℕ → ℕ → Bytes
unfolding build_tcp build_ipv4
tcp_packet id src dst sp dp seq ack flags win =
    let tcp = build_tcp src dst sp dp seq ack flags win in build_ipv4 id src dst tcp ++ tcp

module _ (id : ℕ) (src dst : Ipv4Addr) (sp dp seq ack flags win : ℕ) where
  abbrev packet : Bytes
  packet = tcp_packet id src dst sp dp seq ack flags win

  pub is_between-tcp_packet : is_between packet src dst ≡ true
  unfolding is_between tcp_packet
  is_between-tcp_packet = rw (ip_eq_refl src, ip_eq_refl dst) refl

  pub segment_of-tcp_packet :
      sp < 65536
      → dp < 65536
      → seq < u32_mod
      → ack < u32_mod
      → segment_of (drop (get_or packet 0 0 % 16 * 4) packet)
        ≡ record { sp = sp; dp = dp; flags = flags; seq = seq; ack = ack }
  unfolding segment_of tcp_packet
  segment_of-tcp_packet hs hd hq ha = ground arith

  pub parse_tcp_in_ipv4-tcp_packet :
      sp < 65536
      → dp < 65536
      → seq < u32_mod
      → ack < u32_mod
      → parse_tcp_in_ipv4 packet src dst
        ≡ ok (some (record { sp = sp; dp = dp; flags = flags; seq = seq; ack = ack }))
  parse_tcp_in_ipv4-tcp_packet hs hd hq ha =
      rw (parse_tcp_in_ipv4-segment_of, is_between-tcp_packet)
        (ap (λ s. ok (some s)) (segment_of-tcp_packet hs hd hq ha))

-- A probe whose ports have 16 bits and whose sequence number has 32 bits, read as a received packet,
-- shows its ports, its sequence number, the flag SYN alone and no acknowledgement.
pub parse_tcp_in_ipv4-build_syn_packet :
    (id : ℕ) (src dst : Ipv4Addr) (sp dp seq : ℕ)
    → sp < 65536
    → dp < 65536
    → seq < u32_mod
    → parse_tcp_in_ipv4 (build_syn_packet id src dst sp dp seq) src dst
      ≡ ok (some (record { sp = sp; dp = dp; flags = 0x02; seq = seq; ack = 0 }))
unfolding build_syn_packet tcp_packet
parse_tcp_in_ipv4-build_syn_packet id src dst sp dp seq hs hd hq =
    parse_tcp_in_ipv4-tcp_packet id src dst sp dp seq 0 2 0xffff hs hd hq (omega arith)

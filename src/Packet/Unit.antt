-- ===== src/Packet/Unit.antt =====
-- crates/rnmap-core/src/discovery.rs and crates/rnmap-core/src/scan/syn.rs: the unit tests.
use rnmap.Base.{
  ℕ, ◌≡◌, refl, Bool, true, false, not, ◌&&◌, ◌||◌, [], ◌∷◌, Option, none, some, ◌==◌, length,
  get_or, set, replicate, Bytes, Result, ok, err, Panic, All,
}
use rnmap.Text.{codes}
use rnmap.Checksum.{checksum16}
use rnmap.Packet.{Ipv4Addr, build_icmp_echo, strip_ipv4, build_syn_packet, build_tcp, tcp_checksum}

abbrev icmp_packet_starts_with_type_8 : Bool
unfolding build_icmp_echo
icmp_packet_starts_with_type_8 =
    let pkt = build_icmp_echo 0xbeef 1 (codes "x") in
    get_or pkt 0 0 == 8
    && get_or pkt 1 1 == 0
    && (not (get_or pkt 2 0 == 0) || not (get_or pkt 3 0 == 0))

abbrev checksum_known_vector : Bool
unfolding checksum16
checksum_known_vector = not (checksum16 (codes "hello-world-checksum") == 0)

-- 32 bytes with this protocol and a header of 20 bytes.
abbrev packet_of : ℕ → Bytes
packet_of proto = set (set (replicate 32 0) 0 0x45) 9 proto

abbrev has_length : ℕ → Result (Option Bytes) Panic → Bool
has_length n (ok (some payload)) = length payload == n
has_length n (ok none) = false
has_length n (err e) = false

abbrev is_none : Result (Option Bytes) Panic → Bool
is_none (ok (some payload)) = false
is_none (ok none) = true
is_none (err e) = false

abbrev strip_ipv4_basic : Bool
unfolding strip_ipv4
strip_ipv4_basic = has_length 12 (strip_ipv4 (packet_of 1))

abbrev strip_ipv4_rejects_non_icmp : Bool
unfolding strip_ipv4
strip_ipv4_rejects_non_icmp = is_none (strip_ipv4 (packet_of 6))

abbrev address : ℕ → ℕ → ℕ → ℕ → Ipv4Addr
address a b c d = record { a = a; b = b; c = c; d = d }

-- For any IP identification, which is drawn at random.
abbrev build_syn_is_40_bytes_minimum : ℕ → Bool
unfolding build_syn_packet
build_syn_is_40_bytes_minimum id =
    let pkt = build_syn_packet id (address 10 0 0 1) (address 10 0 0 2) 12345 80 0xdeadbeef in
    length pkt == 40 && get_or pkt 0 0 == 0x45 && get_or pkt 9 0 == 6 && get_or pkt 33 0 == 0x02

abbrev tcp_checksum_self_consistent : Bool
unfolding build_tcp tcp_checksum
tcp_checksum_self_consistent =
    let p =
      build_tcp (address 192 168 1 1) (address 192 168 1 2) 54321 22 0x11223344 0 0x02 65535 in
    tcp_checksum (address 192 168 1 1) (address 192 168 1 2) p == 0

unit_tests :
    All
      (λ (test : Bool). test ≡ true)
      (icmp_packet_starts_with_type_8
        ∷ checksum_known_vector
        ∷ strip_ipv4_basic
        ∷ strip_ipv4_rejects_non_icmp
        ∷ build_syn_is_40_bytes_minimum 4242
        ∷ tcp_checksum_self_consistent
        ∷ [])
unfolding icmp_packet_starts_with_type_8 checksum_known_vector strip_ipv4_basic
    strip_ipv4_rejects_non_icmp build_syn_is_40_bytes_minimum tcp_checksum_self_consistent
    build_icmp_echo checksum16 strip_ipv4 build_syn_packet build_tcp tcp_checksum
unit_tests = (refl, (refl, (refl, (refl, (refl, (refl, tt))))))

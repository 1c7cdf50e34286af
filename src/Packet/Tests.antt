-- ===== src/Packet/Tests.antt =====
-- The theorems on packets at concrete packets.
use rnmap.Base.{[], ◌∷◌, ◌≡◌, refl, ok, some, arith, if◌then◌else◌, drop, get_or, none, ◌*◌, ◌%◌}
use rnmap.Checksum.{checksum16}
use rnmap.Packet.{build_ipv4, build_tcp, tcp_checksum, parse_tcp_in_ipv4, strip_ipv4}
use rnmap.Packet.Safety.{
  is_between, segment_of, stripped, parse_tcp_in_ipv4-segment_of, strip_ipv4-stripped,
}
use rnmap.Packet.Checked.{IsAddr, checksum16-build_ipv4, tcp_checksum-build_tcp}
use rnmap.Fixtures.{ip_1, ip_2}

ip_1-IsAddr : IsAddr ip_1
ip_1-IsAddr = omega arith

ip_2-IsAddr : IsAddr ip_2
ip_2-IsAddr = omega arith

-- The first bytes of a TCP packet that is too short for its header.
cut_packet :
    parse_tcp_in_ipv4
      (0x4f ∷ 0 ∷ 0 ∷ 20 ∷ 0 ∷ 0 ∷ 0 ∷ 0 ∷ 64 ∷ 6 ∷ 0 ∷ 0 ∷ 10 ∷ 0 ∷ 0 ∷ 5 ∷ 192 ∷ 168 ∷ 1 ∷ 20
        ∷ [])
      ip_1
      ip_2
    ≡ ok none
unfolding parse_tcp_in_ipv4
cut_packet = refl

tcp_checksum-build_tcp_example :
    tcp_checksum ip_1 ip_2 (build_tcp ip_1 ip_2 40000 443 7 0 2 65535) ≡ 0
tcp_checksum-build_tcp_example =
    tcp_checksum-build_tcp ip_1 ip_2 40000 443 7 0 2 65535 ip_1-IsAddr ip_2-IsAddr (omega arith)

parse_tcp_in_ipv4-segment_of_example :
    parse_tcp_in_ipv4 (0x4f ∷ 0 ∷ 0 ∷ []) ip_1 ip_2
    ≡ ok (
        if is_between (0x4f ∷ 0 ∷ 0 ∷ []) ip_1 ip_2
        then some (segment_of (drop (get_or (0x4f ∷ 0 ∷ 0 ∷ []) 0 0 % 16 * 4) (0x4f ∷ 0 ∷ 0 ∷ [])))
        else none)
parse_tcp_in_ipv4-segment_of_example = parse_tcp_in_ipv4-segment_of (0x4f ∷ 0 ∷ 0 ∷ []) ip_1 ip_2

checksum16-build_ipv4_example : checksum16 (build_ipv4 54321 ip_1 ip_2 (1 ∷ 2 ∷ 3 ∷ [])) ≡ 0
checksum16-build_ipv4_example =
    checksum16-build_ipv4 54321 ip_1 ip_2 (1 ∷ 2 ∷ 3 ∷ []) ip_1-IsAddr ip_2-IsAddr

strip_ipv4-stripped_example : strip_ipv4 (0x45 ∷ 0 ∷ []) ≡ ok (stripped (0x45 ∷ 0 ∷ []))
strip_ipv4-stripped_example = strip_ipv4-stripped (0x45 ∷ 0 ∷ [])

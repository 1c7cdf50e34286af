-- ===== src/Packet/Lengths.antt =====
-- The sizes of the packets that are built.
use rnmap.Base.{ℕ, zero, suc, ◌+◌, ◌≡◌, refl, ap, List, [], ◌∷◌, arith, Bytes, length, set}
use rnmap.Packet.{Ipv4Addr, build_icmp_echo, build_ipv4, build_tcp, build_syn_packet}

pub length-set {ℓ} : {A : Type ℓ} (xs : List A) (i : ℕ) (v : A) → length (set xs i v) ≡ length xs
length-set [] i v = refl
length-set (x ∷ xs) zero v = refl
length-set (x ∷ xs) (suc i) v = ap suc (length-set xs i v)

pub length-build_tcp :
    (src dst : Ipv4Addr) (sp dp seq ack flags win : ℕ)
    → length (build_tcp src dst sp dp seq ack flags win) ≡ 20
unfolding build_tcp
length-build_tcp src dst sp dp seq ack flags win = refl

pub length-build_ipv4 :
    (id : ℕ) (src dst : Ipv4Addr) (payload : Bytes) → length (build_ipv4 id src dst payload) ≡ 20
unfolding build_ipv4
length-build_ipv4 id src dst payload = refl

pub length-build_syn_packet :
    (id : ℕ) (src dst : Ipv4Addr) (sp dp seq : ℕ)
    → length (build_syn_packet id src dst sp dp seq) ≡ 40
unfolding build_syn_packet
length-build_syn_packet id src dst sp dp seq = refl

pub length-build_icmp_echo :
    (id seq : ℕ) (payload : Bytes) → length (build_icmp_echo id seq payload) ≡ length payload + 8
unfolding build_icmp_echo
length-build_icmp_echo id seq payload = omega arith

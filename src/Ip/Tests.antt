-- ===== src/Ip/Tests.antt =====
-- Version 6 addresses as they are written.
use rnmap.Base.{◌≡◌, refl, [], ◌∷◌, ◌++◌, none, some}
use rnmap.Text.{codes}
use rnmap.Ip.{show_v4}
use rnmap.Ip.Show.{show_v6}
use rnmap.Ip.Parse6.{parse_v6}

local_host : show_v6 (0 ∷ 0 ∷ 0 ∷ 0 ∷ 0 ∷ 0 ∷ 0 ∷ 1 ∷ []) ≡ codes "::1"
unfolding show_v6
local_host = refl

first_run : show_v6 (0x2001 ∷ 0xdb8 ∷ 0 ∷ 0 ∷ 1 ∷ 0 ∷ 0 ∷ 0x20 ∷ []) ≡ codes "2001:db8::1:0:0:20"
unfolding show_v6
first_run = refl

single_zero : show_v6 (1 ∷ 2 ∷ 3 ∷ 0 ∷ 5 ∷ 6 ∷ 7 ∷ 8 ∷ []) ≡ codes "1:2:3:0:5:6:7:8"
unfolding show_v6
single_zero = refl

unspecified : show_v6 (0 ∷ 0 ∷ 0 ∷ 0 ∷ 0 ∷ 0 ∷ 0 ∷ 0 ∷ []) ≡ codes "::"
unfolding show_v6
unspecified = refl

mapped_v4 :
    show_v6 (0 ∷ 0 ∷ 0 ∷ 0 ∷ 0 ∷ 0xFFFF ∷ 0xC0A8 ∷ 0x0114 ∷ [])
    ≡ codes "::ffff:" ++ show_v4 (record { a = 192; b = 168; c = 1; d = 20 })
unfolding show_v6
mapped_v4 = refl

read_local_host : parse_v6 (codes "::1") ≡ some (0 ∷ 0 ∷ 0 ∷ 0 ∷ 0 ∷ 0 ∷ 0 ∷ 1 ∷ [])
unfolding parse_v6
read_local_host = refl

read_middle :
    parse_v6 (codes "2001:DB8::1:0:0:20") ≡ some (0x2001 ∷ 0xdb8 ∷ 0 ∷ 0 ∷ 1 ∷ 0 ∷ 0 ∷ 0x20 ∷ [])
unfolding parse_v6
read_middle = refl

read_whole : parse_v6 (codes "1:2:3:4:5:6:7:8") ≡ some (1 ∷ 2 ∷ 3 ∷ 4 ∷ 5 ∷ 6 ∷ 7 ∷ 8 ∷ [])
unfolding parse_v6
read_whole = refl

read_last_zero : parse_v6 (codes "1:2:3:4:5:6:7::") ≡ some (1 ∷ 2 ∷ 3 ∷ 4 ∷ 5 ∷ 6 ∷ 7 ∷ 0 ∷ [])
unfolding parse_v6
read_last_zero = refl

read_mapped :
    parse_v6 (codes "::ffff:192.168.1.20")
    ≡ some (0 ∷ 0 ∷ 0 ∷ 0 ∷ 0 ∷ 0xFFFF ∷ 0xC0A8 ∷ 0x0114 ∷ [])
unfolding parse_v6
read_mapped = refl

read_v4_in_front : parse_v6 (codes "1.2.3.4::") ≡ none
unfolding parse_v6
read_v4_in_front = refl

read_twice : parse_v6 (codes "1::2::3") ≡ none
unfolding parse_v6
read_twice = refl

read_long_group : parse_v6 (codes "12345::") ≡ none
unfolding parse_v6
read_long_group = refl

read_too_many : parse_v6 (codes "1:2:3:4:5:6:7:8:9") ≡ none
unfolding parse_v6
read_too_many = refl

-- ===== src/TopPorts.antt =====
-- crates/rnmap-core/src/top_ports.rs: the list of common ports and `top_n`.
pub mod Distinct
pub mod Tests
pub mod Unit
use rnmap.Base.{
  ℕ, ◌≡◌, Bool, true, false, List, [], ◌∷◌, ◌++◌, leb, if◌then◌else◌, contains, length,
}

pub top : List ℕ
top =
    80 ∷ 23 ∷ 443 ∷ 21 ∷ 22 ∷ 25 ∷ 3389 ∷ 110 ∷ 445 ∷ 139 ∷ 143 ∷ 53 ∷ 135 ∷ 3306 ∷ 8080 ∷ 1723
    ∷ 111 ∷ 995 ∷ 993 ∷ 5900 ∷ 1025 ∷ 587 ∷ 8888 ∷ 199 ∷ 1720 ∷ 465 ∷ 548 ∷ 113 ∷ 81 ∷ 6001 ∷ 10000
    ∷ 514 ∷ 5060 ∷ 179 ∷ 1026 ∷ 2000 ∷ 8443 ∷ 8000 ∷ 32768 ∷ 554 ∷ 26 ∷ 1433 ∷ 49152 ∷ 2001 ∷ 515
    ∷ 8008 ∷ 49154 ∷ 1027 ∷ 5666 ∷ 646 ∷ 5000 ∷ 5631 ∷ 631 ∷ 49153 ∷ 8081 ∷ 2049 ∷ 88 ∷ 79 ∷ 5800
    ∷ 106 ∷ 2121 ∷ 1110 ∷ 49155 ∷ 6000 ∷ 513 ∷ 990 ∷ 5357 ∷ 427 ∷ 49156 ∷ 543 ∷ 544 ∷ 5101 ∷ 144 ∷ 7
    ∷ 389 ∷ 8009 ∷ 3128 ∷ 444 ∷ 9999 ∷ 5009 ∷ 7070 ∷ 5190 ∷ 3000 ∷ 5432 ∷ 1900 ∷ 3986 ∷ 13 ∷ 1029
    ∷ 9 ∷ 5051 ∷ 6646 ∷ 49157 ∷ 1028 ∷ 873 ∷ 1755 ∷ 2717 ∷ 4899 ∷ 9100 ∷ 119 ∷ 37 ∷ 1000 ∷ 3001
    ∷ 5001 ∷ 82 ∷ 10010 ∷ 1030 ∷ 9090 ∷ 2107 ∷ 1024 ∷ 2103 ∷ 6004 ∷ 1801 ∷ 5050 ∷ 19 ∷ 8031 ∷ 1041
    ∷ 255 ∷ 2967 ∷ 1049 ∷ 1048 ∷ 2105 ∷ 1053 ∷ 3703 ∷ 1056 ∷ 1065 ∷ 1064 ∷ 1054 ∷ 17 ∷ 808 ∷ 3689
    ∷ 1031 ∷ 1044 ∷ 1071 ∷ 5901 ∷ 100 ∷ 9102 ∷ 8010 ∷ 2869 ∷ 1039 ∷ 5120 ∷ 4001 ∷ 9000 ∷ 2105 ∷ 636
    ∷ 1038 ∷ 2601 ∷ 1 ∷ 7000 ∷ 1066 ∷ 1069 ∷ 625 ∷ 311 ∷ 280 ∷ 254 ∷ 4000 ∷ 5009 ∷ 800 ∷ 1033 ∷ 1040
    ∷ 1059 ∷ 1066 ∷ 1067 ∷ 1068 ∷ 1043 ∷ 1070 ∷ 1062 ∷ 1051 ∷ 1052 ∷ 1097 ∷ 1098 ∷ 1099 ∷ 8181
    ∷ 8090 ∷ 8443 ∷ 9001 ∷ 9080 ∷ 9200 ∷ 27017 ∷ 27018 ∷ 28017 ∷ 6379 ∷ 11211 ∷ 1521 ∷ 5432 ∷ 8086
    ∷ 5601 ∷ 9300 ∷ 4040 ∷ 18080 ∷ 19999 ∷ 35357 ∷ 7777 ∷ 7474 ∷ 9418 ∷ 4848 ∷ 8161 ∷ 8443 ∷ []

-- The loop over the list. The set of ports seen so far holds the ports of `out`.
pub pick : ℕ → List ℕ → List ℕ → List ℕ → List ℕ
pick n [] seen out = out
pick n (p ∷ ps) seen out =
    let more = pick n ps (p ∷ seen) (out ++ p ∷ []) in
    let skip = pick n ps seen out in
    if contains seen p then skip else if leb n (length (out ++ p ∷ [])) then out ++ p ∷ [] else more

unfoldable pub top_n : ℕ → List ℕ
unfolding pick top
top_n n = pick n top [] []

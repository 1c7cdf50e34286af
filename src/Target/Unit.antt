-- ===== src/Target/Unit.antt =====
-- crates/rnmap-core/src/target.rs: the unit tests.
use rnmap.Base.{
  ◌≡◌, refl, Bool, true, false, ◌&&◌, List, [], ◌∷◌, ◌==◌, if◌then◌else◌, length, Result, ok, err,
  All,
}
use rnmap.Text.{Text, codes, text_eq}
use rnmap.Text.Space.{trim}
use rnmap.Text.Split.{split, split_once, count_char}
use rnmap.Text.Number.{decimal, parse_uint}
use rnmap.Errors.{Error}
use rnmap.Ip.{show_v4, parse_v4}
use rnmap.Ip.Show.{show_ip}
use rnmap.Ip.Parse6.{parse_v6}
use rnmap.Report.{v4}
use rnmap.Target.{Network, ResolvedHost, TargetSpec, parse_many, expand_one, parse_v4_range}
use rnmap.Fixtures.{offline}

-- `unwrap()`, and a test of the addresses; a panic is a failure.
abbrev unwrap : Result TargetSpec Error → (List ResolvedHost → Bool) → Bool
unwrap (ok t) test = test t.addrs
unwrap (err e) test = false

abbrev is_err : Result TargetSpec Error → Bool
is_err (ok t) = false
is_err (err e) = true

-- `addrs.iter().map(|r| r.ip.to_string())` against the expected texts.
abbrev shown : List ResolvedHost → List Text → Bool
unfolding show_ip
shown [] [] = true
shown [] (t ∷ texts) = false
shown (r ∷ rs) [] = false
shown (r ∷ rs) (t ∷ texts) = text_eq (show_ip r.ip) t && shown rs texts

module _ (net : Network) where
  abbrev ipv4_literal : Bool
  unfolding parse_many shown
  ipv4_literal =
      unwrap (parse_many net (codes "1.2.3.4" ∷ []) false)
        (λ rs. length rs == 1 && shown rs (codes "1.2.3.4" ∷ []))

  abbrev ipv4_cidr_30 : Bool
  unfolding parse_many
  ipv4_cidr_30 = unwrap (parse_many net (codes "10.0.0.0/30" ∷ []) false) (λ rs. length rs == 2)

  abbrev ipv4_range : Bool
  unfolding parse_many shown
  ipv4_range =
      unwrap (parse_many net (codes "10.0.0.5-7" ∷ []) false)
        (λ rs. shown rs (codes "10.0.0.5" ∷ codes "10.0.0.6" ∷ codes "10.0.0.7" ∷ []))

  abbrev rejects_hostname_without_dns : Bool
  unfolding parse_many
  rejects_hostname_without_dns = is_err (parse_many net (codes "example.com" ∷ []) false)

  abbrev rejects_bad_range : Bool
  unfolding parse_many
  rejects_bad_range = is_err (parse_many net (codes "10.0.0.50-5" ∷ []) false)

-- The network of the test of a prefix: `hosts()` leaves out the first and the last address.
abbrev with_net : Network
with_net = record offline {
  net_hosts = λ s.
      if text_eq s (codes "10.0.0.0/30")
      then ok (
          v4 (record { a = 10; b = 0; c = 0; d = 1 })
          ∷ v4 (record { a = 10; b = 0; c = 0; d = 2 })
          ∷ [])
      else err (codes "invalid");
}

unit_tests :
    All
      (λ (test : Bool). test ≡ true)
      (ipv4_literal offline
        ∷ ipv4_cidr_30 with_net
        ∷ ipv4_range offline
        ∷ rejects_hostname_without_dns offline
        ∷ rejects_bad_range offline
        ∷ [])
unfolding ipv4_literal ipv4_cidr_30 ipv4_range rejects_hostname_without_dns rejects_bad_range shown
    parse_many trim split split_once count_char parse_uint expand_one parse_v4_range parse_v4
    parse_v6 show_ip show_v4 decimal
unit_tests = (refl, (refl, (refl, (refl, (refl, tt)))))

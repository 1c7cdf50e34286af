-- ===== src/Target/Inputs.antt =====
-- Several inputs together, and what name resolution is used for.
use rnmap.Base.{
  ◌≡◌, refl, ap, Bool, false, List, [], ◌∷◌, ◌++◌, Option, none, some, Result, ok, err, ◌>>=◌,
  if◌then◌else◌, is_empty, contains,
}
use rnmap.Ip.Show.{show_ip}
use rnmap.Text.{Text}
use rnmap.Text.Space.{trim}
use rnmap.Errors.{Error}
use rnmap.Report.{IpAddr}
use rnmap.Target.{
  ResolvedHost, Network, parse_ip, host_of, net_or_address, expand_cidr, resolve, literal_or_name,
  range_or_other, parse_v4_range, expand_one, expand_all, some_target, parse_many,
}

module _ (net : Network) where
  -- The hosts of all inputs one after the other, or the error of the first input that has one.
  pub all_hosts : List Text → Bool → Result (List ResolvedHost) Error
  all_hosts [] resolve_dns = ok []
  all_hosts (raw ∷ inputs) resolve_dns = do
    hosts ← expand_one net raw resolve_dns
    more ← all_hosts inputs resolve_dns
    ok (hosts ++ more)

-- Another resolver of names.
abbrev pub with_lookup : Network → (Text → Result (List IpAddr) Text) → Network
with_lookup net lookup = record net { lookup_host = lookup }

module _ (net : Network) (lookup : Text → Result (List IpAddr) Text) where
  literal_or_name_same :
      (s : Text) (o : Option IpAddr)
      → literal_or_name (with_lookup net lookup) s false o ≡ literal_or_name net s false o
  unfolding literal_or_name resolve
  literal_or_name_same s (some ip) = refl
  literal_or_name_same s none = refl

  range_or_other_same :
      (s : Text) (o : Option (List ResolvedHost))
      → range_or_other (with_lookup net lookup) s false o ≡ range_or_other net s false o
  unfolding range_or_other parse_ip
  range_or_other_same s (some hosts) = refl
  range_or_other_same s none = literal_or_name_same s (parse_ip net s)

  bind_same :
      (s : Text) (r : Result (Option (List ResolvedHost)) Error)
      → (r >>= range_or_other (with_lookup net lookup) s false) ≡ (r >>= range_or_other net s false)
  bind_same s (ok o) = range_or_other_same s o
  bind_same s (err e) = refl

  expand_one_same :
      (raw : Text) → expand_one (with_lookup net lookup) raw false ≡ expand_one net raw false
  unfolding expand_one expand_cidr net_or_address host_of show_ip
  expand_one_same raw =
      ap
        (λ r.
          if is_empty (trim raw)
          then ok []
          else if contains (trim raw) b'/'
          then expand_cidr net (trim raw)
          else r)
        (bind_same (trim raw) (parse_v4_range (trim raw)))

  expand_all_same :
      (inputs : List Text) (all : List ResolvedHost)
      → expand_all (with_lookup net lookup) inputs false all ≡ expand_all net inputs false all
  unfolding expand_all
  expand_all_same [] all = refl
  expand_all_same (raw ∷ inputs) all =
      rw expand_one_same (go (expand_one net raw false) (expand_all_same inputs))
    where
      go :
          (first : Result (List ResolvedHost) Error)
          → ((all : List ResolvedHost)
              → expand_all (with_lookup net lookup) inputs false all
                ≡ expand_all net inputs false all)
          → (first >>= λ hosts. expand_all (with_lookup net lookup) inputs false (all ++ hosts))
            ≡ (first >>= λ hosts. expand_all net inputs false (all ++ hosts))
      go (ok hosts) rest = rest (all ++ hosts)
      go (err e) rest = refl

  -- With name resolution off the targets do not depend on what names resolve to.
  pub parse_many-with_lookup :
      (inputs : List Text)
      → parse_many (with_lookup net lookup) inputs false ≡ parse_many net inputs false
  unfolding parse_many some_target
  parse_many-with_lookup inputs = rw (expand_all_same inputs []) refl

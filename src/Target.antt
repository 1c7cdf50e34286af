-- ===== src/Target.antt =====
-- crates/rnmap-core/src/target.rs: the expansion of target specs.
pub mod Range
pub mod Inputs
pub mod Tests
pub mod Unit
use rnmap.Base.{
  ℕ, zero, suc, ◌+◌, ◌-◌, Bool, true, false, not, ◌&&◌, ◌||◌, List, [], ◌∷◌, ◌++◌, map, Option,
  none, some, ◌==◌, ltb, if◌then◌else◌, is_empty, contains, range_from, Result, ok, err, ◌>>=◌,
  map_err,
}
use rnmap.Text.{Text, codes, join}
use rnmap.Text.Space.{trim}
use rnmap.Text.Split.{split_once, count_char}
use rnmap.Text.Number.{parse_uint, decimal, display_error}
use rnmap.Errors
use rnmap.Errors.{Error}
use rnmap.Packet.{Ipv4Addr}
use rnmap.Report.{IpAddr, v4, v6}
use rnmap.Ip.{parse_v4, show_v4}
use rnmap.Ip.Show.{show_ip}
use rnmap.Ip.Parse6.{parse_v6}

pub record ResolvedHost : Type 0 where
  pub label : Text
  pub ip : IpAddr

pub record TargetSpec : Type 0 where
  pub inputs : List Text
  pub addrs : List ResolvedHost

-- What the code calls: the crates `ipnet` and `dns_lookup`, whose errors are their texts.
pub record Network : Type 0 where
  -- `IpNet::from_str` and `hosts()`.
  pub net_hosts : Text → Result (List IpAddr) Text
  -- `Ipv4Net::from_str` and `network()`.
  pub net4_network : Text → Option Ipv4Addr
  -- `dns_lookup::lookup_host` and `dns_lookup::lookup_addr`.
  pub lookup_host : Text → Result (List IpAddr) Text
  pub lookup_addr : IpAddr → Option Text

-- The errors of `parse_v4_range`.
pub range_error : Text → Text → Result ℕ Error
range_error s hi_s =
    map_err
      (λ e. Error.target s (codes "range high `" ++ (hi_s ++ (codes "`: " ++ display_error e))))
      (parse_uint 255 (trim hi_s))

-- The host with the last octet replaced.
pub host_at : Ipv4Addr → ℕ → ResolvedHost
host_at lo last = let ip = record lo { d = last } in record { label = show_v4 ip; ip = v4 ip }

-- The hosts from the low to the high last octet.
pub range_hosts : Text → Ipv4Addr → ℕ → Result (Option (List ResolvedHost)) Error
unfolding host_at range_from
range_hosts s lo hi =
    if ltb hi lo.d
    then err
        (Error.target s (codes "range high " ++ (decimal hi ++ (codes " < low " ++ decimal lo.d))))
    else ok (some (map (host_at lo) (range_from (hi + 1 - lo.d) lo.d)))

-- The two sides of the dash, the left one with three dots.
pub parse_sides : Text → Option (Text × Text) → Result (Option (List ResolvedHost)) Error
unfolding range_error range_hosts
parse_sides s none = ok none
parse_sides s (some (left, hi_s)) =
    if not (count_char b'.' left == 3) then ok none else elim (parse_v4 left) [
      | none ↦ ok none
      | some lo ↦ (do hi ← range_error s hi_s; range_hosts s lo hi)
    ]

unfoldable pub parse_v4_range : Text → Result (Option (List ResolvedHost)) Error
unfolding parse_sides
parse_v4_range s =
    if not (count_char b'-' s == 1) then ok none else parse_sides s (split_once b'-' s)

module _ (net : Network) where
  -- `IpAddr::from_str`.
  pub parse_ip : Text → Option IpAddr
  parse_ip s = elim (parse_v4 s) [
    | some ip ↦ some (v4 ip)
    | none ↦ elim (parse_v6 s) [ some segments ↦ some (v6 segments) | none ↦ none ]
  ]

  pub host_of : IpAddr → ResolvedHost
  host_of ip = record { label = show_ip ip; ip = ip }

  -- The hosts of a network; an empty one is replaced by its address, if it is of version 4.
  pub net_or_address : List IpAddr → Option Ipv4Addr → List ResolvedHost
  unfolding host_of
  net_or_address (ip ∷ ips) network = map host_of (ip ∷ ips)
  net_or_address [] none = []
  net_or_address [] (some network) = host_of (v4 network) ∷ []

  pub expand_cidr : Text → Result (List ResolvedHost) Error
  unfolding net_or_address
  expand_cidr s = do
    ips ← map_err (λ e. Error.target s (codes "bad CIDR: " ++ e)) (net.net_hosts s)
    ok (net_or_address ips (net.net4_network s))

  -- The first version 4 address, or else the first one.
  pub choose : IpAddr → List IpAddr → IpAddr
  choose first [] = first
  choose first (v4 ip ∷ ips) = v4 ip
  choose first (v6 segments ∷ ips) = choose first ips

  pub pick_address : Text → List IpAddr → Result (List ResolvedHost) Error
  unfolding choose
  pick_address s [] = err (Error.dns s (codes "no addresses"))
  pick_address s (ip ∷ ips) = ok (record { label = s; ip = choose ip (ip ∷ ips) } ∷ [])

  pub resolve : Text → Bool → Result (List ResolvedHost) Error
  unfolding pick_address
  resolve s true = do ips ← map_err (Error.dns s) (net.lookup_host s); pick_address s ips
  resolve s false =
      err (Error.target s (codes "looks like a hostname but DNS resolution is disabled (-n)"))

  -- A literal address, or a host name.
  pub literal_or_name : Text → Bool → Option IpAddr → Result (List ResolvedHost) Error
  unfolding resolve
  literal_or_name s resolve_dns (some ip) = ok (record { label = s; ip = ip } ∷ [])
  literal_or_name s resolve_dns none = resolve s resolve_dns

  -- A range, or anything else without a slash.
  pub range_or_other : Text → Bool → Option (List ResolvedHost) → Result (List ResolvedHost) Error
  unfolding parse_ip literal_or_name
  range_or_other s resolve_dns (some hosts) = ok hosts
  range_or_other s resolve_dns none = literal_or_name s resolve_dns (parse_ip s)

  unfoldable pub expand_one : Text → Bool → Result (List ResolvedHost) Error
  unfolding expand_cidr parse_v4_range range_or_other
  expand_one raw resolve_dns =
      let s = trim raw in
      if is_empty s
      then ok []
      else if contains s b'/'
      then expand_cidr s
      else (do range ← parse_v4_range s; range_or_other s resolve_dns range)

  -- The loop over the inputs.
  pub expand_all : List Text → Bool → List ResolvedHost → Result (List ResolvedHost) Error
  unfolding expand_one
  expand_all [] resolve_dns all = ok all
  expand_all (raw ∷ inputs) resolve_dns all = do
    hosts ← expand_one raw resolve_dns
    expand_all inputs resolve_dns (all ++ hosts)

  pub some_target : List Text → List ResolvedHost → Result TargetSpec Error
  some_target inputs [] = err (Error.target (join (codes " ") inputs) (codes "no targets resolved"))
  some_target inputs (h ∷ hs) = ok (record { inputs = inputs; addrs = h ∷ hs })

  unfoldable pub parse_many : List Text → Bool → Result TargetSpec Error
  unfolding expand_all some_target
  parse_many inputs resolve_dns = do all ← expand_all inputs resolve_dns []; some_target inputs all

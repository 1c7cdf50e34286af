-- ===== src/Target/Range.antt =====
-- Addresses and last-octet ranges, from the text to the hosts.
use rnmap.Base.{
  ℕ, suc, ◌+◌, ◌-◌, ◌<◌, ◌≡◌, ◌≢◌, refl, Bool, false, ◌&&◌, [], ◌∷◌, ◌++◌, map, some, ◌==◌, ltb,
  leb, if◌then◌else◌, is_empty, range_from, ok, err, arith, All-append, append_assoc, append-nil,
}
use rnmap.Text.{Text, codes}
use rnmap.Text.Space.{is_whitespace, IsDense, trim-dense}
use rnmap.Text.Split.{
  Lacks, split_once, count_char, split_once-append, count_char-Lacks, count_char-append,
  contains-Lacks,
}
use rnmap.Text.Number.{
  decimal, decimal-IsNumeric, numeric-Lacks, numeric-IsDense, parse_uint-decimal, decimal-ne-nil,
}
use rnmap.Errors.{Error}
use rnmap.Packet.{Ipv4Addr}
use rnmap.Packet.Checked.{IsAddr}
use rnmap.Report.{v4}
use rnmap.Ip.{show_v4}
use rnmap.Ip.RoundTrip.{parse_v4-show_v4, show_v4-Lacks}
use rnmap.Target.{
  Network, range_error, host_at, range_hosts, parse_sides, parse_v4_range, parse_ip,
  literal_or_name, range_or_other, expand_one,
}

decimal-IsDense : (n : ℕ) → IsDense (decimal n)
decimal-IsDense n = numeric-IsDense (decimal n) (decimal-IsNumeric n)

show_v4-IsDense : (ip : Ipv4Addr) → IsDense (show_v4 ip)
unfolding show_v4
show_v4-IsDense ip =
    let dot : is_whitespace b'.' ≡ false = unfold is_whitespace in refl in
    All-append _ (decimal ip.a) _ (decimal-IsDense ip.a) (
      dot,
      All-append _ (decimal ip.b) _ (decimal-IsDense ip.b)
          (dot, All-append _ (decimal ip.c) _ (decimal-IsDense ip.c) (dot, decimal-IsDense ip.d)),
    )

dots-decimal : (n : ℕ) → count_char b'.' (decimal n) ≡ 0
dots-decimal n =
    count_char-Lacks b'.' (decimal n) (numeric-Lacks b'.' (decimal n) refl (decimal-IsNumeric n))

count_char-head : (d : ℕ) (s : Text) → count_char d (d ∷ s) ≡ suc (count_char d s)
unfolding count_char
count_char-head d s = ground arith

dots-show_v4 : (ip : Ipv4Addr) → count_char b'.' (show_v4 ip) ≡ 3
unfolding show_v4
dots-show_v4 ip =
    rw
      (
        count_char-append b'.' (decimal ip.a),
        count_char-head,
        count_char-append b'.' (decimal ip.b),
        count_char-head,
        count_char-append b'.' (decimal ip.c),
        count_char-head,
        dots-decimal ip.a,
        dots-decimal ip.b,
        dots-decimal ip.c,
        dots-decimal ip.d,
      )
      refl

append-ne-nil : (s t : Text) → s ≢ [] → is_empty (s ++ t) ≡ false
append-ne-nil [] t h = absurd (h refl)
append-ne-nil (c ∷ s) t h = refl

show_v4-ne-nil : (ip : Ipv4Addr) (t : Text) → is_empty (show_v4 ip ++ t) ≡ false
unfolding show_v4
show_v4-ne-nil ip t = rw append_assoc (append-ne-nil (decimal ip.a) _ (decimal-ne-nil ip.a))

-- How a range is written: the low address, a dash and the high last octet.
pub spell : Ipv4Addr → ℕ → Text
spell lo hi = show_v4 lo ++ b'-' ∷ decimal hi

spell-Lacks :
    (d : ℕ) (lo : Ipv4Addr) (hi : ℕ)
    → (leb 48 d && leb d 57) ≡ false
    → (d == b'.') ≡ false
    → b'-' ≢ d
    → Lacks d (spell lo hi)
unfolding spell
spell-Lacks d lo hi digit dot dash =
    All-append _ (show_v4 lo) _ (show_v4-Lacks d lo digit dot)
      (dash, numeric-Lacks d (decimal hi) digit (decimal-IsNumeric hi))

spell-IsDense : (lo : Ipv4Addr) (hi : ℕ) → IsDense (spell lo hi)
unfolding spell
spell-IsDense lo hi =
    All-append _ (show_v4 lo) _ (show_v4-IsDense lo)
      (unfold is_whitespace in refl, decimal-IsDense hi)

one_dash : (lo : Ipv4Addr) (hi : ℕ) → count_char b'-' (spell lo hi) ≡ 1
unfolding spell
one_dash lo hi =
    rw
      (
        count_char-append b'-' (show_v4 lo),
        count_char-head,
        count_char-Lacks b'-' (show_v4 lo) (show_v4-Lacks b'-' lo refl refl),
        count_char-Lacks b'-' (decimal hi)
            (numeric-Lacks b'-' (decimal hi) refl (decimal-IsNumeric hi)),
      )
      refl

range_error-decimal : (s : Text) (hi : ℕ) → hi < 256 → range_error s (decimal hi) ≡ ok hi
unfolding range_error
range_error-decimal s hi h =
    rw (trim-dense (decimal hi) (decimal-IsDense hi), parse_uint-decimal 255 hi (omega arith)) refl

parse_sides-spell :
    (s : Text) (lo : Ipv4Addr) (hi : ℕ)
    → IsAddr lo
    → hi < 256
    → parse_sides s (some (show_v4 lo, decimal hi)) ≡ range_hosts s lo hi
unfolding parse_sides range_hosts
parse_sides-spell s lo hi hl hh =
    rw (dots-show_v4 lo, parse_v4-show_v4 lo hl, parse_sides)
      (rw (range_error-decimal s hi hh) refl)

parse_v4_range-spell :
    (lo : Ipv4Addr) (hi : ℕ)
    → IsAddr lo
    → hi < 256
    → parse_v4_range (spell lo hi) ≡ range_hosts (spell lo hi) lo hi
unfolding parse_v4_range
parse_v4_range-spell lo hi hl hh =
    rw (one_dash lo hi, cut) (parse_sides-spell (spell lo hi) lo hi hl hh)
  where
    cut : split_once b'-' (spell lo hi) ≡ some (show_v4 lo, decimal hi)
    cut =
        unfold spell in
        split_once-append b'-' (show_v4 lo) (decimal hi) (show_v4-Lacks b'-' lo refl refl)

spell-ne-nil : (lo : Ipv4Addr) (hi : ℕ) → is_empty (spell lo hi) ≡ false
unfolding spell
spell-ne-nil lo hi = show_v4-ne-nil lo (b'-' ∷ decimal hi)

-- A range from an address to a last octet, all of them bytes, as it is written, expands to the
-- addresses from the low to the high last octet, in order and labelled by their texts; a high octet
-- below the low one is an error that names the range.
pub expand_one-spell :
    (net : Network) (lo : Ipv4Addr) (hi : ℕ) (resolve_dns : Bool)
    → IsAddr lo
    → hi < 256
    → expand_one net (spell lo hi) resolve_dns ≡ (
        if ltb hi lo.d
        then err (
            Error.target
              (spell lo hi)
              (codes "range high " ++ (decimal hi ++ (codes " < low " ++ decimal lo.d))))
        else ok (map (host_at lo) (range_from (hi + 1 - lo.d) lo.d)))
unfolding expand_one
expand_one-spell net lo hi resolve_dns hl hh =
    rw
      (
        trim-dense (spell lo hi) (spell-IsDense lo hi),
        spell-ne-nil lo hi,
        contains-Lacks b'/' (spell lo hi) (spell-Lacks b'/' lo hi refl refl dash),
        parse_v4_range-spell lo hi hl hh,
      )
      (unfold range_hosts range_or_other in ground arith)
  where
    dash : ◌≢◌ {A = ℕ} b'-' b'/'
    dash = omega arith

parse_ip-show_v4 :
    (net : Network) (ip : Ipv4Addr) → IsAddr ip → parse_ip net (show_v4 ip) ≡ some (v4 ip)
unfolding parse_ip
parse_ip-show_v4 net ip h = rw (parse_v4-show_v4 ip h, parse_ip) refl

-- An address of bytes, as it is written, expands to itself alone, labelled by its text.
pub expand_one-show_v4 :
    (net : Network) (ip : Ipv4Addr) (resolve_dns : Bool)
    → IsAddr ip
    → expand_one net (show_v4 ip) resolve_dns ≡ ok (record { label = show_v4 ip; ip = v4 ip } ∷ [])
unfolding expand_one parse_v4_range range_or_other
expand_one-show_v4 net ip resolve_dns h =
    rw
      (
        trim-dense (show_v4 ip) (show_v4-IsDense ip),
        filled,
        contains-Lacks b'/' (show_v4 ip) (show_v4-Lacks b'/' ip refl refl),
        count_char-Lacks b'-' (show_v4 ip) (show_v4-Lacks b'-' ip refl refl),
        parse_ip-show_v4 net ip h,
      )
      (unfold literal_or_name in refl)
  where
    filled : is_empty (show_v4 ip) ≡ false
    filled = rw append-nil at (show_v4-ne-nil ip [])

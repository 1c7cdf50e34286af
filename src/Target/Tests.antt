-- ===== src/Target/Tests.antt =====
-- The theorems on targets, without a network.
use rnmap.Base.{
  [], ◌∷◌, ◌≡◌, map, ltb, if◌then◌else◌, true, ◌++◌, ◌+◌, ◌-◌, range_from, Result, ok, err, arith,
  List,
}
use rnmap.Text.{Text, codes}
use rnmap.Text.Number.{decimal}
use rnmap.Errors.{Error}
use rnmap.Report.{IpAddr, v4}
use rnmap.Target.{expand_one, host_at}
use rnmap.Target.Range.{spell, expand_one-spell}
use rnmap.Fixtures.{ip_1, offline}

expand_one-spell_example : expand_one offline (spell ip_1 7) true ≡ (
    if ltb 7 ip_1.d
    then err (
        Error.target
          (spell ip_1 7)
          (codes "range high " ++ (decimal 7 ++ (codes " < low " ++ decimal ip_1.d))))
    else ok (map (host_at ip_1) (range_from (7 + 1 - ip_1.d) ip_1.d)))
expand_one-spell_example = expand_one-spell offline ip_1 7 true (omega arith) (omega arith)

abbrev one_name : Text → Result (List IpAddr) Text
one_name s = ok (v4 ip_1 ∷ [])

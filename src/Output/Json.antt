-- ===== src/Output/Json.antt =====
-- crates/rnmap-core/src/output/json.rs.
use rnmap.Base.{Bool, ◌∷◌, ◌++◌, map, Result, ok, err, retain, if◌then◌else◌}
use rnmap.Text.{Text, codes}
use rnmap.Report.{is_open, HostResult, ScanReport}
use rnmap.Output.Formats.{Printers, quote}

module _ {Time : Type 0} where
  -- `h.ports.retain(…)` in each host of the copy.
  pub retain_open : HostResult Time → HostResult Time
  retain_open h = record h { ports = retain (λ p. is_open p.state) h.ports }

  unfoldable pub filtered : Bool → ScanReport Time → ScanReport Time
  unfolding retain_open
  filtered only_open r = if only_open then record r { hosts = map retain_open r.hosts } else r

-- `unwrap_or_else`: the error in a small JSON object.
pub or_error : Result Text Text → Text
or_error (ok s) = s
or_error (err e) =
    codes "{"
    ++ (quote ∷ (codes "error" ++ (quote ∷ (codes ":" ++ (quote ∷ (e ++ (quote ∷ codes "}")))))))

unfoldable pub render : {Time : Type 0} → Printers Time → ScanReport Time → Bool → Text
unfolding filtered or_error
render printers r only_open = or_error (printers.to_string_pretty (filtered only_open r))

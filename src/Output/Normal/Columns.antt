-- ===== src/Output/Normal/Columns.antt =====
-- The columns of the normal output, and `--open` there.
use rnmap.Base.{
  ℕ, zero, suc, ◌-◌, max, ◌≡◌, ◌≢◌, refl, ap, Bool, true, false, List, [], ◌∷◌, ◌++◌, map, retain,
  inl, inr, ◌⊎◌, arith, length, length-append, take, replicate, All, if◌then◌else◌,
}
use rnmap.Text.{Text}
use rnmap.Report.{PortResult, is_up, HostResult, ScanReport}
use rnmap.Report.Counts.{port_open, only_open, counts-only_open}
use rnmap.Output.Formats.{Printers}
use rnmap.Output.Normal.{pad, render_table, selected, render_host, render_hosts, render}

length-replicate : (n a : ℕ) → length (replicate n a) ≡ n
length-replicate zero a = refl
length-replicate (suc n) a = ap suc (length-replicate n a)

take-append : (s t : Text) → take (length s) (s ++ t) ≡ s
take-append [] t = refl
take-append (c ∷ s) t = ap (λ u. c ∷ u) (take-append s t)

-- A padded text begins with the text itself and is as wide as the column, or as the text where that
-- is wider.
pub pad_width :
    (width : ℕ) (s : Text)
    → (take (length s) (pad width s) ≡ s) × (length (pad width s) ≡ max width (length s))
unfolding pad
pad_width width s = (
  take-append s (replicate (width - length s) 32),
  omega (
    arith,
    length-append s (replicate (width - length s) 32),
    length-replicate (width - length s) 32,
  ),
)

-- The host is not up, or has an open port, so that a table is shown.
abbrev pub ShowsTable : {Time : Type 0} → HostResult Time → Type 0
ShowsTable h = (is_up h.state ≡ false) ⊎ (retain port_open h.ports ≢ [])

table-selected :
    (ps : List PortResult)
    → retain port_open ps ≢ []
    → render_table true (selected true ps)
      ≡ render_table false (selected false (retain port_open ps))
unfolding selected
table-selected ps h = go (retain port_open ps) h
  where
    go : (qs : List PortResult) → qs ≢ [] → render_table true qs ≡ render_table false qs
    go [] h = absurd (h refl)
    go (q ∷ qs) h = unfold render_table in refl

module _ {Time : Type 0} (printers : Printers Time) where
  table_if :
      (up : Bool) (ps : List PortResult)
      → (up ≡ false) ⊎ (retain port_open ps ≢ [])
      → (if up then render_table true (selected true ps) else [])
        ≡ (if up then render_table false (selected false (retain port_open ps)) else [])
  table_if true ps (inl h) = absurd (ground arith)
  table_if true ps (inr h) = table-selected ps h
  table_if false ps h = refl

  render_hosts-only_open :
      (hs : List (HostResult Time))
      → All ShowsTable hs
      → render_hosts printers true hs ≡ render_hosts printers false (map only_open hs)
  unfolding render_hosts render_host
  render_hosts-only_open [] h = refl
  render_hosts-only_open (host ∷ hs) h =
      rw (table_if (is_up host.state) host.ports h.0, render_hosts-only_open hs h.1) refl

  pub render-only_open :
      (r : ScanReport Time)
      → All ShowsTable r.hosts
      → render printers r true ≡ render printers (record r { hosts = map only_open r.hosts }) false
  unfolding render
  render-only_open r h =
      rw
        (
          render_hosts-only_open r.hosts h,
          (counts-only_open r).0,
          (counts-only_open r).1,
          (counts-only_open r).2,
        )
        refl

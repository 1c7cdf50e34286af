-- ===== src/Output/Xml/Select.antt =====
-- `--open` in the XML output.
use rnmap.Base.{◌≡◌, refl, true, false, List, [], ◌∷◌, map, retain, Bool-cases, inl, inr}
use rnmap.Report.{PortResult, is_open, HostResult, ScanReport}
use rnmap.Report.Counts.{port_open, only_open, counts-only_open}
use rnmap.Output.Formats.{Printers}
use rnmap.Output.Xml.{render_ports, render_host, render_hosts, render}

pub render_ports-retain :
    (ps : List PortResult) → render_ports true ps ≡ render_ports false (retain port_open ps)
unfolding render_ports
render_ports-retain [] = refl
render_ports-retain (p ∷ ps) = elim (Bool-cases (is_open p.state)) [
  | inl open_p ↦ rw (open_p, render_ports-retain ps) refl
  | inr other ↦ rw (other, render_ports-retain ps) refl
]

module _ {Time : Type 0} (printers : Printers Time) where
  render_hosts-only_open :
      (hs : List (HostResult Time))
      → render_hosts printers true hs ≡ render_hosts printers false (map only_open hs)
  unfolding render_hosts render_host
  render_hosts-only_open [] = refl
  render_hosts-only_open (h ∷ hs) = rw (render_ports-retain h.ports, render_hosts-only_open hs) refl

  pub render-only_open :
      (r : ScanReport Time)
      → render printers r true ≡ render printers (record r { hosts = map only_open r.hosts }) false
  unfolding render
  render-only_open r =
      rw (render_hosts-only_open r.hosts, (counts-only_open r).0, (counts-only_open r).1) refl

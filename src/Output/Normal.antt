-- ===== src/Output/Normal.antt =====
-- crates/rnmap-core/src/output/normal.rs.
pub mod Columns
use rnmap.Base.{
  ℕ, ◌-◌, Bool, true, false, List, [], ◌∷◌, ◌++◌, Option, none, some, ◌==◌, if◌then◌else◌, retain,
  length, replicate,
}
use rnmap.Ip.Show.{show_ip}
use rnmap.Text.{Text, codes, join}
use rnmap.Text.Number.{decimal}
use rnmap.Report.{
  PortResult, is_open, is_up, display_protocol, display_state, ServiceInfo, HostResult, ScanReport,
  host_count, up_count, open_port_count,
}
use rnmap.Output.Formats.{Printers, line, state_word}

-- `{:<width}`: spaces up to the width, and nothing is cut off.
unfoldable pub pad : ℕ → Text → Text
pad width s = s ++ replicate (width - length s) 32

-- The service's name, or a dash.
pub service_name : Option ServiceInfo → Text
service_name none = codes "-"
service_name (some s) = s.name

pub product_version : Option Text → Option Text → Text
product_version none version = []
product_version (some product) (some version) = product ++ (codes " " ++ version)
product_version (some product) none = product

pub service_version : Option ServiceInfo → Text
unfolding product_version
service_version none = []
service_version (some s) = product_version s.product s.version

unfoldable pub render_port : PortResult → Text
unfolding pad service_name service_version display_protocol display_state
render_port p = line (
    pad 10 (decimal p.port ++ (codes "/" ++ display_protocol p.protocol))
    ++ (pad 13 (display_state p.state)
        ++ (pad 16 (service_name p.service) ++ service_version p.service)))

pub render_lines : List PortResult → Text
unfolding render_port
render_lines [] = []
render_lines (p ∷ ps) = render_port p ++ render_lines ps

-- The table, or the note that there is nothing to show.
pub render_table : Bool → List PortResult → Text
unfolding render_lines
render_table only_open [] =
    line
      (codes "(no ports " ++ ((if only_open then codes "open" else codes "scanned") ++ codes ")"))
render_table only_open (p ∷ ps) =
    line (codes "PORT      STATE        SERVICE         VERSION") ++ render_lines (p ∷ ps)

-- The ports to show.
pub selected : Bool → List PortResult → List PortResult
selected only_open ports = if only_open then retain (λ p. is_open p.state) ports else ports

module _ {Time : Type 0} (printers : Printers Time) where
  pub host_display : Option Text → Text → Text
  host_display (some name) ip = name ++ (codes " (" ++ (ip ++ codes ")"))
  host_display none ip = ip

  unfoldable pub render_host : Bool → HostResult Time → Text
  unfolding host_display render_table selected show_ip state_word
  render_host only_open h =
      line (codes "rnmap scan report for " ++ host_display h.hostname (show_ip h.address))
      ++ (line (codes "Host is " ++ (state_word h.state ++ (codes " (" ++ (h.reason ++ codes ")"))))
          ++ ((if is_up h.state then render_table only_open (selected only_open h.ports) else [])
              ++ line []))

  pub render_hosts : Bool → List (HostResult Time) → Text
  unfolding render_host
  render_hosts only_open [] = []
  render_hosts only_open (h ∷ hs) = render_host only_open h ++ render_hosts only_open hs

  -- The plural's `s`.
  abbrev plural : ℕ → Text
  plural n = if n == 1 then [] else codes "s"

  unfoldable pub render : ScanReport Time → Bool → Text
  unfolding render_hosts
  render r only_open =
      line (
        codes "# "
        ++ (r.scanner
            ++ (codes " "
                ++ (r.version ++ (codes " scan initiated " ++ printers.format_time r.started_at)))))
      ++ (line (codes "# args: " ++ join (codes " ") r.args)
          ++ (line []
              ++ (render_hosts only_open r.hosts
                  ++ line (
                      codes "# rnmap done: "
                      ++ (decimal (host_count r)
                          ++ (codes " host"
                              ++ (plural (host_count r)
                                  ++ (codes " scanned, "
                                      ++ (decimal (up_count r)
                                          ++ (codes " up, "
                                              ++ (decimal (open_port_count r)
                                                  ++ (codes " open port"
                                                      ++ (plural (open_port_count r)
                                                          ++ (codes " in "
                                                            ++ (printers.secs 2 r.elapsed
                                                            ++ codes "s")))))))))))))))

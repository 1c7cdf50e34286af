-- ===== src/Output/Xml.antt =====
-- crates/rnmap-core/src/output/xml.rs.
pub mod Escape
pub mod Select
pub mod Reader
pub mod Document
pub mod Pieces
pub mod ReadBack
pub mod Addresses
pub mod Frame
pub mod RoundTrip
use rnmap.Base.{
  ℕ, Bool, true, false, not, ◌&&◌, List, [], ◌∷◌, ◌++◌, Option, none, some, ◌==◌, if◌then◌else◌,
}
use rnmap.Ip.Show.{show_ip}
use rnmap.Text.{Text, codes, join}
use rnmap.Text.Number.{decimal}
use rnmap.Report.{
  IpAddr, v4, v6, PortResult, is_open, display_protocol, display_state, ServiceInfo, HostResult,
  ScanReport, host_count, up_count,
}
use rnmap.Output.Formats.{Printers, line, state_word, quote, attribute}

-- `str::replace` of a character by a text.
pub replace : ℕ → Text → Text → Text
replace c t [] = []
replace c t (d ∷ s) = let rest = replace c t s in if d == c then t ++ rest else d ∷ rest

-- `x`: the five replacements, one after the other.
unfoldable pub x : Text → Text
unfolding replace
x s = replace 39 (codes "&apos;") (
    replace quote (codes "&quot;")
      (replace b'>' (codes "&gt;") (replace b'<' (codes "&lt;") (replace b'&' (codes "&amp;") s))))

-- An attribute that may be left out.
pub optional : Text → Option Text → Text
unfolding x attribute
optional name none = []
optional name (some value) = attribute name (x value)

pub render_service : Option ServiceInfo → Text
unfolding optional
render_service none = []
render_service (some svc) = line (
    codes "        <service"
    ++ (attribute (codes "name") (x svc.name)
        ++ (optional (codes "product") svc.product
            ++ (optional (codes "version") svc.version ++ codes "/>"))))

pub render_port : PortResult → Text
unfolding render_service attribute x display_protocol display_state
render_port p =
    line (
      codes "      <port"
      ++ (attribute (codes "protocol") (display_protocol p.protocol)
          ++ (attribute (codes "portid") (decimal p.port) ++ codes ">")))
    ++ (line (
          codes "        <state"
          ++ (attribute (codes "state") (display_state p.state)
              ++ (attribute (codes "reason") (x p.reason) ++ codes "/>")))
        ++ (render_service p.service ++ line (codes "      </port>")))

-- The loop over the ports, with its `continue`.
pub render_ports : Bool → List PortResult → Text
unfolding render_port
render_ports only_open [] = []
render_ports only_open (p ∷ ps) =
    let rest = render_ports only_open ps in
    if only_open && not (is_open p.state) then rest else render_port p ++ rest

pub render_hostname : Option Text → Text
unfolding attribute x
render_hostname none = []
render_hostname (some name) =
    line (codes "    <hostnames>")
    ++ (line (
          codes "      <hostname"
          ++ (attribute (codes "name") (x name)
              ++ (attribute (codes "type") (codes "user") ++ codes "/>")))
        ++ line (codes "    </hostnames>"))

pub addr_type : IpAddr → Text
addr_type (v4 ip) = codes "ipv4"
addr_type (v6 segments) = codes "ipv6"

module _ {Time : Type 0} (printers : Printers Time) where
  pub render_host : Bool → HostResult Time → Text
  unfolding render_ports render_hostname addr_type show_ip state_word
  render_host only_open h =
      line (codes "  <host>")
      ++ (line (
            codes "    <status"
            ++ (attribute (codes "state") (state_word h.state)
                ++ (attribute (codes "reason") (x h.reason) ++ codes "/>")))
          ++ (line (
                codes "    <address"
                ++ (attribute (codes "addr") (show_ip h.address)
                    ++ (attribute (codes "addrtype") (addr_type h.address) ++ codes "/>")))
              ++ (render_hostname h.hostname
                  ++ (line (codes "    <ports>")
                      ++ (render_ports only_open h.ports
                          ++ (line (codes "    </ports>") ++ line (codes "  </host>")))))))

  pub render_hosts : Bool → List (HostResult Time) → Text
  unfolding render_host
  render_hosts only_open [] = []
  render_hosts only_open (h ∷ hs) = render_host only_open h ++ render_hosts only_open hs

  unfoldable pub render : ScanReport Time → Bool → Text
  unfolding render_hosts
  render r only_open =
      line (
        codes "<?xml"
        ++ (attribute (codes "version") (codes "1.0")
            ++ (attribute (codes "encoding") (codes "UTF-8") ++ codes "?>")))
      ++ (line (
            codes "<rnmaprun"
            ++ (attribute (codes "scanner") (x r.scanner)
                ++ (attribute (codes "version") (x r.version)
                    ++ (attribute (codes "args") (x (join (codes " ") r.args))
                        ++ (attribute (codes "start") (printers.timestamp r.started_at)
                            ++ codes ">")))))
          ++ (render_hosts only_open r.hosts
              ++ (line (
                    codes "  <runstats><finished"
                    ++ (attribute (codes "time") (printers.timestamp r.ended_at)
                        ++ (attribute (codes "elapsed") (printers.secs 3 r.elapsed)
                            ++ (codes "/><hosts"
                                ++ (attribute (codes "up") (decimal (up_count r))
                                    ++ (attribute (codes "total") (decimal (host_count r))
                                        ++ codes "/></runstats>"))))))
                  ++ line (codes "</rnmaprun>"))))

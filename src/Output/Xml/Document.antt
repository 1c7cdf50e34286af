-- ===== src/Output/Xml/Document.antt =====
-- The elements of a report's XML document, with the values of the attributes as they are meant.
use rnmap.Base.{Bool, List, [], ◌∷◌, ◌++◌, Option, none, some, if◌then◌else◌, retain}
use rnmap.Ip.Show.{show_ip}
use rnmap.Text.{Text, codes, join}
use rnmap.Text.Number.{decimal}
use rnmap.Report.{
  PortResult, is_open, display_protocol, display_state, ServiceInfo, HostResult, ScanReport,
  host_count, up_count,
}
use rnmap.Output.Formats.{Printers, state_word}
use rnmap.Output.Xml.{addr_type}
use rnmap.Output.Xml.Reader.{Tag, Token, opened, closed, lone}

abbrev pub tag : Text → List (Text × Text) → Tag
tag name attrs = record { name = name; attrs = attrs }

abbrev pub if_given : Text → Option Text → List (Text × Text)
if_given name none = []
if_given name (some value) = (name, value) ∷ []

abbrev pub service : Option ServiceInfo → List Token
service none = []
service (some s) =
    lone (
      tag (codes "service") (
        (codes "name", s.name) ∷ if_given (codes "product") s.product
        ++ if_given (codes "version") s.version))
    ∷ []

abbrev pub port : PortResult → List Token
port p =
    opened (
        tag (codes "port")
          ((codes "protocol", display_protocol p.protocol) ∷ (codes "portid", decimal p.port) ∷ []))
      ∷ lone (
          tag (codes "state")
            ((codes "state", display_state p.state) ∷ (codes "reason", p.reason) ∷ []))
      ∷ service p.service
    ++ closed (codes "port") ∷ []

abbrev pub ports : List PortResult → List Token
ports [] = []
ports (p ∷ ps) = port p ++ ports ps

abbrev pub hostnames : Option Text → List Token
hostnames none = []
hostnames (some name) =
    opened (tag (codes "hostnames") [])
    ∷ lone (tag (codes "hostname") ((codes "name", name) ∷ (codes "type", codes "user") ∷ []))
    ∷ closed (codes "hostnames")
    ∷ []

-- The ports that are shown.
abbrev pub shown : Bool → List PortResult → List PortResult
shown only_open ps = if only_open then retain (λ p. is_open p.state) ps else ps

module _ {Time : Type 0} (printers : Printers Time) where
  abbrev pub host : Bool → HostResult Time → List Token
  host only_open h =
      opened (tag (codes "host") [])
        ∷ lone (
            tag (codes "status")
              ((codes "state", state_word h.state) ∷ (codes "reason", h.reason) ∷ []))
        ∷ lone (
            tag (codes "address")
              ((codes "addr", show_ip h.address) ∷ (codes "addrtype", addr_type h.address) ∷ []))
        ∷ hostnames h.hostname
      ++ (opened (tag (codes "ports") []) ∷ ports (shown only_open h.ports)
          ++ closed (codes "ports") ∷ closed (codes "host") ∷ [])

  abbrev pub hosts : Bool → List (HostResult Time) → List Token
  hosts only_open [] = []
  hosts only_open (h ∷ hs) = host only_open h ++ hosts only_open hs

  abbrev pub document : Bool → ScanReport Time → List Token
  document only_open r =
      opened (
          tag (codes "rnmaprun") (
            (codes "scanner", r.scanner)
            ∷ (codes "version", r.version)
            ∷ (codes "args", join (codes " ") r.args)
            ∷ (codes "start", printers.timestamp r.started_at)
            ∷ []))
        ∷ hosts only_open r.hosts
      ++ (opened (tag (codes "runstats") [])
          ∷ lone (
              tag (codes "finished") (
                (codes "time", printers.timestamp r.ended_at)
                ∷ (codes "elapsed", printers.secs 3 r.elapsed)
                ∷ []))
          ∷ lone (
              tag (codes "hosts")
                ((codes "up", decimal (up_count r)) ∷ (codes "total", decimal (host_count r)) ∷ []))
          ∷ closed (codes "runstats")
          ∷ closed (codes "rnmaprun")
          ∷ [])

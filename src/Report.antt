-- ===== src/Report.antt =====
-- crates/rnmap-core/src/result.rs: the data model of a scan. `DateTime<Utc>` is the parameter `Time`;
-- a `Duration` is a number of nanoseconds.
pub mod Behaviour
pub mod Counts
use rnmap.Base.{ℕ, Bool, true, false, List, [], ◌∷◌, ◌++◌, Option, length, retain, ◌≡◌}
use rnmap.Text.{Text, codes}
use rnmap.Packet.{Ipv4Addr}

-- `std::net::IpAddr`; a version 6 address is its eight 16-bit segments.
pub data IpAddr : Type 0 where
  v4 : Ipv4Addr → IpAddr
  v6 : List ℕ → IpAddr

pub data Protocol : Type 0 where
  tcp udp : Protocol

-- `Display` of the protocol and of the port state.
unfoldable pub display_protocol : Protocol → Text
display_protocol tcp = codes "tcp"
display_protocol udp = codes "udp"

pub data PortState : Type 0 where
  open_port closed filtered unfiltered : PortState

unfoldable pub display_state : PortState → Text
display_state open_port = codes "open"
display_state closed = codes "closed"
display_state filtered = codes "filtered"
display_state unfiltered = codes "unfiltered"

-- `p.state == PortState::Open`.
abbrev pub is_open : PortState → Bool
is_open open_port = true
is_open closed = false
is_open filtered = false
is_open unfiltered = false

pub data HostState : Type 0 where
  up down unknown : HostState

-- `h.state == HostState::Up`.
abbrev pub is_up : HostState → Bool
is_up up = true
is_up down = false
is_up unknown = false

pub record ServiceInfo : Type 0 where
  pub name : Text
  pub product : Option Text
  pub version : Option Text
  pub banner : Option Text

pub record PortResult : Type 0 where
  pub port : ℕ
  pub protocol : Protocol
  pub state : PortState
  pub reason : Text
  pub service : Option ServiceInfo
  pub rtt_ms : Option ℕ

pub record HostResult (Time : Type 0) : Type 0 where
  pub address : IpAddr
  pub hostname : Option Text
  pub state : HostState
  pub reason : Text
  pub ports : List PortResult
  pub started_at : Time
  pub ended_at : Time
  pub elapsed : ℕ

pub record ScanReport (Time : Type 0) : Type 0 where
  pub scanner : Text
  pub version : Text
  pub args : List Text
  pub started_at : Time
  pub ended_at : Time
  pub elapsed : ℕ
  pub hosts : List (HostResult Time)

module _ {Time : Type 0} where
  abbrev pub host_is_up : HostResult Time → Bool
  host_is_up h = is_up h.state

  abbrev pub all_ports : List (HostResult Time) → List PortResult
  all_ports [] = []
  all_ports (h ∷ hs) = h.ports ++ all_ports hs

  unfoldable pub host_count : ScanReport Time → ℕ
  host_count r = length r.hosts

  unfoldable pub up_count : ScanReport Time → ℕ
  up_count r = length (retain host_is_up r.hosts)

  unfoldable pub open_port_count : ScanReport Time → ℕ
  open_port_count r = length (retain (λ p. is_open p.state) (all_ports r.hosts))

-- ===== src/Host.antt =====
-- crates/rnmap/src/main.rs: what `main` does for one host. The world is the environment: what the
-- sockets, the name servers and the clocks answer, for the host of each number and each port.
pub mod Scanned
pub mod Fallback
pub mod Agreement
pub mod States
pub mod Findings
pub mod Reached
pub mod Tests
use rnmap.Base.{
  ℕ, zero, suc, Bool, true, false, not, ◌&&◌, List, [], ◌∷◌, Option, none, some, leb, if◌then◌else◌,
  Bytes, Result, ok, err, ◌>>=◌,
}
use rnmap.Text.{Text, codes}
use rnmap.Errors.{Error}
use rnmap.Ports
use rnmap.Ports.{PortSpec}
use rnmap.Timing.{Timing}
use rnmap.Packet.{Ipv4Addr}
use rnmap.Report.{
  IpAddr, v4, v6, HostState, up, down, unknown, is_up, is_open, PortResult, HostResult,
}
use rnmap.Connect
use rnmap.Connect.{Connected}
use rnmap.Discovery.{DiscoveryOutcome, IcmpSocket, tcp_ping, icmp_ping}
use rnmap.Syn.{UdpProbe, RawSocket, Random, Round, End, finished, panicked, running, scan_blocking}
use rnmap.Service.Pattern.{Regex}
use rnmap.Service.Dialogue.{Stream, detect}
use rnmap.Target.{Network, ResolvedHost}
use rnmap.Cli.{Cli, Failure, in_context, hostname_for}

pub record World : Type 1 where
  pub net : Network
  -- `Utc::now()` and the nanoseconds that a host took.
  pub Time : Type 0
  pub host_started : ℕ → Time
  pub host_ended : ℕ → Time
  pub host_elapsed : ℕ → ℕ
  -- Discovery.
  pub pid : ℕ
  pub panic_text : ℕ → Text
  pub icmp_socket : ℕ → IcmpSocket
  pub icmp_ms : ℕ → ℕ
  pub ping : ℕ → ℕ → Connected
  pub ping_ms : ℕ → ℕ → ℕ
  -- The connect scan of a host's port: each attempt, and the clock.
  pub connect : ℕ → ℕ → ℕ → Connected
  pub connect_ms : ℕ → ℕ → ℕ → ℕ
  -- The SYN scan of a host's port.
  pub udp : ℕ → ℕ → UdpProbe
  pub raw : ℕ → ℕ → RawSocket
  pub random : ℕ → ℕ → Random
  pub syn_started : ℕ → ℕ → ℕ
  pub rounds : ℕ → ℕ → ℕ → Round
  pub fuel : ℕ → ℕ → ℕ
  -- Whether the task of a host's port is joined.
  pub joined : ℕ → ℕ → Bool
  -- Service detection.
  pub regex : Regex
  pub stream : ℕ → ℕ → Stream

-- The state and reason of an ICMP ping, an error included.
pub by_icmp : Result DiscoveryOutcome Error → HostState × Text
by_icmp (ok o) = (o.state, o.reason)
by_icmp (err e) = (unknown, codes "icmp-error")

-- The ports of `-PS`, or the usual four.
unfoldable pub probe_ports : Option Text → Result (List ℕ) Failure
probe_ports none = ok (80 ∷ 443 ∷ 22 ∷ 3389 ∷ [])
probe_ports (some spec) = do
  parsed ← in_context (codes "parsing -PS ports") (Ports.parse spec)
  ok parsed.ports

-- `sort_by_key(|p| p.port)`, which is stable.
pub insert_result : PortResult → List PortResult → List PortResult
insert_result r [] = r ∷ []
insert_result r (q ∷ qs) =
    let rest = insert_result r qs in if leb r.port q.port then r ∷ q ∷ qs else q ∷ rest

pub sort_results : List PortResult → List PortResult
unfolding insert_result
sort_results [] = []
sort_results (r ∷ rs) = insert_result r (sort_results rs)

module _ (world : World) (cli : Cli) (timing : Timing) (k : ℕ) where
  open world use {
    net, Time, host_started, host_ended, host_elapsed, pid, panic_text, icmp_socket, icmp_ms, ping,
    ping_ms, connect, connect_ms, udp, raw, random, syn_started, rounds, fuel, joined, regex,
    stream,
  }

  unfoldable pub discover : IpAddr → Result (HostState × Text) Failure
  unfolding by_icmp probe_ports
  discover ip =
      if cli.pn
      then ok (up, codes "skipped")
      else if cli.pe
      then ok (by_icmp (icmp_ping (panic_text k) ip pid (icmp_socket k) (icmp_ms k)))
      else (do
        ports ← probe_ports cli.ps
        let o = tcp_ping (ping k) (ping_ms k) ports
        ok (o.state, o.reason))

  unfoldable pub connect_scan : ℕ → PortResult
  connect_scan port = (Connect.scan port timing (connect k port) (connect_ms k port)).result

  -- The result of the SYN scan, or else of a connect scan: after an error of the scan, or a panic of
  -- its task. A scan that is still running has no result; it is never the end of a scan.
  unfoldable pub or_connect : ℕ → End → PortResult
  unfolding connect_scan
  or_connect port (finished (ok r) sent) = r
  or_connect port (finished (err e) sent) = connect_scan port
  or_connect port panicked = connect_scan port
  or_connect port running = connect_scan port

  unfoldable pub syn_scan : IpAddr → ℕ → PortResult
  unfolding or_connect
  syn_scan (v4 ip) port = or_connect port (
      scan_blocking ip port timing (udp k port) (raw k port) (random k port) (syn_started k port)
        (rounds k port) (fuel k port))
  syn_scan (v6 segments) port = connect_scan port

  -- The task of one port.
  unfoldable pub scan_port : IpAddr → ℕ → PortResult
  unfolding syn_scan connect_scan
  scan_port ip port = if cli.s_s then syn_scan ip port else connect_scan port

  -- The tasks in the order of the ports; the result of a task that is not joined is lost.
  unfoldable pub scan_ports : IpAddr → List ℕ → List PortResult
  unfolding scan_port
  scan_ports ip [] = []
  scan_ports ip (port ∷ ports) =
      let rest = scan_ports ip ports in if joined k port then scan_port ip port ∷ rest else rest

  -- Service detection, for the open ports.
  unfoldable pub detect_services : List PortResult → List PortResult
  detect_services [] = []
  detect_services (r ∷ rs) =
      (if is_open r.state then record r { service = detect regex r.port (stream k r.port) } else r)
      ∷ detect_services rs

  unfoldable pub port_results : IpAddr → List ℕ → List PortResult
  unfolding sort_results scan_ports detect_services
  port_results ip ports =
      let sorted = sort_results (scan_ports ip ports) in
      if cli.s_v then detect_services sorted else sorted

  -- The entry of a host, with its state, reason and ports.
  abbrev pub entry : ResolvedHost → HostState → Text → List PortResult → HostResult Time
  entry resolved state reason results = record {
    address = resolved.ip;
    hostname = hostname_for net resolved.label resolved.ip;
    state = state;
    reason = reason;
    ports = results;
    started_at = host_started k;
    ended_at = host_ended k;
    elapsed = host_elapsed k;
  }

  -- A host that is not up is not scanned.
  unfoldable pub scan_host : ResolvedHost → List ℕ → HostState × Text → HostResult Time
  unfolding port_results
  scan_host resolved ports (state, reason) =
      if not (is_up state) && not cli.pn
      then entry resolved state reason []
      else entry resolved up reason (port_results resolved.ip ports)

  unfoldable pub run_host : ResolvedHost → List ℕ → Result (HostResult Time) Failure
  unfolding discover scan_host
  run_host resolved ports = do found ← discover resolved.ip; ok (scan_host resolved ports found)

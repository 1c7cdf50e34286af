-- ===== src/Host/Agreement.antt =====
-- Both kinds of scan report the state of a port.
use rnmap.Base.{ℕ, ◌+◌, ◌<◌, ◌≡◌, some, ok, err, Bytes, Bool-cases, inl, inr, arith}
use rnmap.Timing.{Timing}
use rnmap.Packet.{Ipv4Addr}
use rnmap.Report.{v4, PortState}
use rnmap.Report.Behaviour.{Behaviour, expected}
use rnmap.Connect.Agreement.{Meets, scan-state}
use rnmap.Syn.{End, finished, panicked, running, Probe, launch}
use rnmap.Syn.Agreement.{reported, Observes, scan_blocking-reported}
use rnmap.Cli.{Cli}
use rnmap.Host.{World, connect_scan, or_connect, syn_scan, scan_port}

module _ (world : World) (cli : Cli) (timing : Timing) (k : ℕ) where
  or_connect-state :
      (port : ℕ) (e : End) {s : PortState}
      → reported e ≡ some s
      → (or_connect world cli timing k port e).state ≡ s
  unfolding or_connect
  or_connect-state port (finished (ok r) sent) h = ground (arith, h)
  or_connect-state port (finished (err e) sent) h = ground (arith, h)
  or_connect-state port panicked h = ground (arith, h)
  or_connect-state port running h = ground (arith, h)

  -- Whether a SYN scan is asked for or not, the state that is reported for a port of an IPv4 host is the
  -- one that the port has: open if it accepts connections, closed if it refuses them, and filtered if
  -- packets to it are dropped. For the connect scan some attempts may be lost before; for the SYN scan
  -- the SYN was sent, from a 16-bit port to a 16-bit port, and the answer, with any identification, sequence number and window, comes
  -- before the deadline, behind any number of timeouts and of packets that are no answer.
  pub scan_port-state :
      (ip : Ipv4Addr) (port : ℕ) {probe : Probe} {pkt : Bytes} {b : Behaviour}
      → Meets (world.connect k port) b 0 (timing.max_retries + 1)
      → launch ip port (world.udp k port) (world.raw k port) (world.random k port) ≡ ok (probe, pkt)
      → probe.port < 65536
      → probe.src_port < 65536
      → Observes probe
          (world.syn_started k port + timing.connect_timeout)
          (world.rounds k port)
          b
          0
          (world.fuel k port)
      → (scan_port world cli timing k (v4 ip) port).state ≡ expected b
  unfolding scan_port syn_scan connect_scan
  scan_port-state ip port met sent hp hs seen = elim (Bool-cases cli.s_s) [
    | inl syn ↦ rw syn (
        or_connect-state port _ (
          scan_blocking-reported ip port timing (world.udp k port) (world.raw k port)
            (world.random k port) (world.syn_started k port) (world.rounds k port)
            (world.fuel k port) sent hp hs seen))
    | inr plain ↦
        rw plain (scan-state (world.connect k port) port timing (world.connect_ms k port) met)
  ]

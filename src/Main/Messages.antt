-- ===== src/Main/Messages.antt =====
-- crates/rnmap/src/main.rs: what `main` prints on the standard error, line by line. The lines of a host's
-- tasks are in the order of the ports, as they are if the tasks print them in that order.
use rnmap.Base.{
  ℕ, ◌+◌, not, ◌&&◌, List, [], ◌∷◌, ◌++◌, length, retain, ltb, if◌then◌else◌, Result, ok, err,
}
use rnmap.Ip.Show.{show_ip}
use rnmap.Text.{Text, codes}
use rnmap.Text.Number.{decimal}
use rnmap.Errors.{Error, display}
use rnmap.Timing.{Timing}
use rnmap.Report.{IpAddr, v4, v6, HostState, is_up, is_open, HostResult}
use rnmap.Discovery.{DiscoveryOutcome, icmp_ping}
use rnmap.Syn.{End, finished, panicked, running, scan_blocking}
use rnmap.Output.Formats.{Printers}
use rnmap.Target.{ResolvedHost}
use rnmap.Cli.{Cli, Failure, choose_ports, build_timing, resolve_targets}
use rnmap.Host.{World, discover, scan_host}

-- The texts of other crates: the printers, `Debug` of a duration, and the error of a task's join.
pub record Console (Time : Type 0) : Type 0 where
  pub printers : Printers Time
  pub debug : ℕ → Text
  pub join_error : Text

-- The lines behind a step that may fail, if it does not.
abbrev pub after : {A : Type 0} → Result A Failure → (A → List Text) → List Text
after (err e) lines = []
after (ok a) lines = lines a

module _ (world : World) (console : Console world.Time) where
  -- The error of an ICMP ping.
  pub ping_message : IpAddr → Result DiscoveryOutcome Error → List Text
  ping_message ip (ok o) = []
  ping_message ip (err e) =
      (codes "rnmap: ICMP ping failed for "
        ++ (show_ip ip ++ (codes ": " ++ display console.debug e)))
      ∷ []

  abbrev pub needs_root : IpAddr → ℕ → Text
  needs_root ip port =
      codes "rnmap: SYN scan needs root; falling back to connect for "
      ++ (show_ip ip ++ (b':' ∷ decimal port))

  -- Why the task of a port falls back to the connect scan. Only the lack of a privilege and a panic are
  -- told.
  unfoldable pub fallback_message : IpAddr → ℕ → End → List Text
  fallback_message ip port (finished (ok r) sent) = []
  fallback_message ip port (finished (err (Error.privilege why)) sent) = needs_root ip port ∷ []
  fallback_message ip port (finished (err e) sent) = []
  fallback_message ip port panicked =
      (codes "rnmap: scan task join error " ++ console.join_error) ∷ []
  fallback_message ip port running = []

module _ (world : World) (cli : Cli) (console : Console world.Time) where
  -- The line in front of the scan.
  unfoldable pub announcement : ℕ → ℕ → Timing → List Text
  announcement hosts ports timing =
      if ltb 0 cli.verbose
      then (codes "rnmap: scanning "
          ++ (decimal hosts
              ++ (codes " host(s) × "
                  ++ (decimal ports
                      ++ (codes " port(s) using "
                          ++ ((if cli.s_s then codes "SYN" else codes "connect")
                              ++ (codes " scan, T"
                                  ++ (decimal timing.level
                                      ++ (codes ", parallel="
                                          ++ decimal timing.max_parallel)))))))))
        ∷ []
      else []

  unfoldable pub discovery_messages : ℕ → IpAddr → List Text
  unfolding ping_message
  discovery_messages k ip =
      if not cli.pn && cli.pe
      then ping_message world console ip
          (icmp_ping (world.panic_text k) ip world.pid (world.icmp_socket k) (world.icmp_ms k))
      else []

  unfoldable pub task_messages : Timing → ℕ → IpAddr → ℕ → List Text
  unfolding fallback_message
  task_messages timing k (v4 ip) port =
      if cli.s_s
      then fallback_message world console (v4 ip) port (
          scan_blocking ip port timing (world.udp k port) (world.raw k port) (world.random k port)
            (world.syn_started k port) (world.rounds k port) (world.fuel k port))
      else []
  task_messages timing k (v6 segments) port = []

  unfoldable pub ports_messages : Timing → ℕ → IpAddr → List ℕ → List Text
  unfolding task_messages
  ports_messages timing k ip [] = []
  ports_messages timing k ip (port ∷ ports) =
      task_messages timing k ip port ++ ports_messages timing k ip ports

  -- The line behind the scan of a host.
  unfoldable pub summary : HostResult world.Time → List Text
  summary h =
      if ltb 0 cli.verbose
      then (codes "rnmap: "
          ++ (show_ip h.address
              ++ (codes " → "
                  ++ (decimal (length (retain (λ p. is_open p.state) h.ports))
                      ++ (codes " open / "
                          ++ (decimal (length h.ports)
                              ++ (codes " scanned in "
                                  ++ (console.printers.secs 2 h.elapsed ++ codes "s"))))))))
        ∷ []
      else []

  -- A host that is not up is not scanned, and has no line.
  unfoldable pub scan_messages : Timing → ℕ → ResolvedHost → List ℕ → HostState × Text → List Text
  unfolding ports_messages summary
  scan_messages timing k resolved ports (state, reason) =
      if not (is_up state) && not cli.pn
      then []
      else ports_messages timing k resolved.ip ports
        ++ summary (scan_host world cli timing k resolved ports (state, reason))

  -- The loop over the hosts, which a failure ends.
  unfoldable pub hosts_messages : Timing → List ℕ → ℕ → List ResolvedHost → List Text
  unfolding discovery_messages scan_messages
  hosts_messages timing ports k [] = []
  hosts_messages timing ports k (resolved ∷ hosts) =
      let rest = hosts_messages timing ports (k + 1) hosts in
      discovery_messages k resolved.ip
      ++ after (discover world cli timing k resolved.ip)
          (λ found. scan_messages timing k resolved ports found ++ rest)

  -- All lines of `main`.
  unfoldable pub messages : List Text
  unfolding announcement hosts_messages
  messages =
      let timing = build_timing cli in
      after (resolve_targets world.net cli) (λ targets.
        after (choose_ports cli.ports cli.top_ports) (λ spec.
          announcement (length targets.addrs) (length spec.ports) timing
          ++ hosts_messages timing spec.ports 0 targets.addrs))

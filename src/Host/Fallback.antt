-- ===== src/Host/Fallback.antt =====
-- Where the SYN scan falls back to the connect scan, and hosts that are not scanned.
use rnmap.Base.{
  ℕ, ◌≡◌, refl, true, false, not, ◌&&◌, List, [], ok, err, Bool-cases, inl, inr, ◌⊎◌, arith,
  >>=-eq-ok, ok-injective,
}
use mathlib.Core.Path.{subst}
use rnmap.Text.{Text}
use rnmap.Errors.{IoError}
use rnmap.Timing.{Timing}
use rnmap.Report.{IpAddr, v4, v6, HostState, up, is_up, HostResult}
use rnmap.Syn.Refused.{scan_blocking_refused}
use rnmap.Target.{ResolvedHost}
use rnmap.Cli.{Cli}
use rnmap.Host.{World, connect_scan, or_connect, syn_scan, scan_port, discover, scan_host, run_host}

module _ (world : World) (cli : Cli) (timing : Timing) (k : ℕ) where
  syn_scan_refused :
      (ip : IpAddr) (port : ℕ) {e : IoError}
      → (world.raw k port).opened ≡ err e
      → syn_scan world cli timing k ip port ≡ connect_scan world cli timing k port
  unfolding syn_scan or_connect
  syn_scan_refused (v4 ip) port refused =
      let (x, failed) =
        scan_blocking_refused ip port timing (world.udp k port) (world.raw k port)
          (world.random k port) (world.syn_started k port) (world.rounds k port) (world.fuel k port)
          refused in
      rw failed refl
  syn_scan_refused (v6 segments) port refused = refl

  -- Without the right to open a raw socket, or where opening one fails for another reason, each port
  -- has the result of its connect scan, whether or not a SYN scan was asked for.
  pub scan_port_refused :
      (ip : IpAddr) (port : ℕ) {e : IoError}
      → (world.raw k port).opened ≡ err e
      → scan_port world cli timing k ip port ≡ connect_scan world cli timing k port
  unfolding scan_port
  scan_port_refused ip port refused = elim (Bool-cases cli.s_s) [
    | inl syn ↦ rw syn (syn_scan_refused ip port refused)
    | inr plain ↦ rw plain refl
  ]

  -- What holds of the entry of a host: it is the host's, it has no ports unless the host is up, and
  -- the host is up if discovery was skipped.
  pub record IsEntry (resolved : ResolvedHost) (h : HostResult world.Time) : Type 0 where
    pub address : h.address ≡ resolved.ip
    pub unscanned : (is_up h.state ≡ true) ⊎ (h.ports ≡ [])
    pub skipped : (cli.pn ≡ false) ⊎ (h.state ≡ up)

  scan_host-IsEntry :
      (resolved : ResolvedHost) (ports : List ℕ) (state : HostState) (reason : Text)
      → IsEntry resolved (scan_host world cli timing k resolved ports (state, reason))
  unfolding scan_host
  scan_host-IsEntry resolved ports state reason =
      elim (Bool-cases (not (is_up state) && not cli.pn)) [
        | inl passed_over ↦
            rw passed_over
              (record { address = refl; unscanned = inr refl; skipped = inl (ground arith) })
        | inr scanned ↦
            rw scanned (record { address = refl; unscanned = inl refl; skipped = inr refl })
      ]

  -- The entry of a host.
  pub run_host-IsEntry :
      (resolved : ResolvedHost) (ports : List ℕ) {h : HostResult world.Time}
      → run_host world cli timing k resolved ports ≡ ok h
      → IsEntry resolved h
  unfolding run_host
  run_host-IsEntry resolved ports ran =
      let (found, discovered, made) = >>=-eq-ok (discover world cli timing k resolved.ip) _ ran in
      subst (IsEntry resolved) (ok-injective made)
        (scan_host-IsEntry resolved ports found.0 found.1)

-- ===== src/Host/Reached.antt =====
-- Which hosts are up: what discovery finds of a host whose ports behave as they do.
use rnmap.Base.{
  ℕ, ◌≡◌, ◌∙◌, ap, sym, true, false, ◌||◌, ◌⊎◌, inl, inr, List, ok, ◌>>=◌, ok-injective,
  if◌then◌else◌, Bool-cases,
}
use rnmap.Text.{Text}
use rnmap.Report.{IpAddr, HostState, up, down}
use rnmap.Report.Behaviour.{Behaviour}
use rnmap.Timing.{Timing}
use rnmap.Discovery.{icmp_ping, tcp_ping}
use rnmap.Discovery.Agreement.{any_answers, AllRespond, tcp_ping-state}
use rnmap.Cli.{Cli}
use rnmap.Host.{World, by_icmp, probe_ports, discover}

module _ (world : World) (cli : Cli) (timing : Timing) (k : ℕ) (behaviour : ℕ → Behaviour)
    (probes : List ℕ) where
  -- What the ICMP ping reports of the host.
  abbrev pub icmp_state : IpAddr → HostState
  icmp_state ip =
      (by_icmp
        (icmp_ping (world.panic_text k) ip world.pid (world.icmp_socket k) (world.icmp_ms k))).0

  -- Up without discovery; what the ICMP ping reports, if it is asked for; and else up exactly if one of
  -- the probed ports answers.
  abbrev pub expected_state : IpAddr → HostState
  expected_state ip =
      if cli.pn
      then up
      else if cli.pe
      then icmp_state ip
      else if any_answers behaviour probes
      then up
      else down

  -- Where the TCP ping is used, it probes these ports, and they behave so.
  abbrev pub ProbesRespond : Type 0
  ProbesRespond =
      ((cli.pn || cli.pe) ≡ true)
      ⊎ ((probe_ports cli.ps ≡ ok probes) × AllRespond behaviour (world.ping k) probes)

  probed-state :
      {found : HostState × Text}
      → ProbesRespond
      → (cli.pn || cli.pe) ≡ false
      → (probe_ports cli.ps >>= λ ports. ok (
        (tcp_ping (world.ping k) (world.ping_ms k) ports).state,
        (tcp_ping (world.ping k) (world.ping_ms k) ports).reason,
      ))
        ≡ ok found
      → found.0 ≡ (if any_answers behaviour probes then up else down)
  probed-state (inl other) probed ran = cc
  probed-state (inr (given, respond)) probed ran =
      sym (ap (λ (r : HostState × Text). r.0) (ok-injective (rw given at ran)))
      ∙ tcp_ping-state behaviour (world.ping k) (world.ping_ms k) probes respond

  pub discover-state :
      (ip : IpAddr) {found : HostState × Text}
      → ProbesRespond
      → discover world cli timing k ip ≡ ok found
      → found.0 ≡ expected_state ip
  unfolding discover
  discover-state ip {found} respond ran = elim (Bool-cases cli.pn) [
    | inl skip ↦ rw skip (sym (ap (λ (r : HostState × Text). r.0) (ok-injective (rw skip at ran))))
    | inr no_skip ↦ rw no_skip (elim (Bool-cases cli.pe) [
      | inl icmp ↦
          rw icmp
            (sym (ap (λ (r : HostState × Text). r.0) (ok-injective (rw (no_skip, icmp) at ran))))
      | inr tcp ↦ rw tcp (probed-state respond (rw no_skip tcp) (rw (no_skip, tcp) at ran))
    ])
  ]

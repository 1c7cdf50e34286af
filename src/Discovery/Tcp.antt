-- ===== src/Discovery/Tcp.antt =====
-- What the TCP ping reports of a host.
use rnmap.Base.{
  ℕ, ◌≡◌, Bool, true, false, ◌||◌, List, [], ◌∷◌, ◌++◌, Option, none, some, arith, if◌then◌else◌,
}
use rnmap.Text.{codes}
use rnmap.Text.Number.{decimal}
use rnmap.Report.{up, down}
use rnmap.Connect.{Connected, connected, failed, timed_out, is_reset}
use rnmap.Discovery.{DiscoveryOutcome, ping_ports, tcp_ping}

abbrev pub accepts_connection : Connected → Bool
accepts_connection connected = true
accepts_connection (failed e) = false
accepts_connection timed_out = false

abbrev pub resets_connection : Connected → Bool
resets_connection connected = false
resets_connection (failed e) = is_reset e.kind
resets_connection timed_out = false

module _ (network : ℕ → Connected) where
  -- The first port that accepts a connection.
  pub first_accepting : List ℕ → Option ℕ
  first_accepting [] = none
  first_accepting (p ∷ ps) =
      let later = first_accepting ps in if accepts_connection (network p) then some p else later

  -- Whether some port refuses or resets the connection.
  pub any_resets : List ℕ → Bool
  any_resets [] = false
  any_resets (p ∷ ps) = resets_connection (network p) || any_resets ps

module _ (network : ℕ → Connected) (clock : ℕ → ℕ) where
  -- The outcome by the first port that accepts, and by whether a port resets.
  pub summary : Option ℕ → Bool → DiscoveryOutcome
  summary (some p) reset = record {
    state = up;
    reason = codes "tcp-syn-ack:" ++ decimal p;
    rtt = some (clock p);
  }
  summary none true = record { state = up; reason = codes "tcp-rst"; rtt = none }
  summary none false = record { state = down; reason = codes "no-response"; rtt = none }

  ping_ports-summary :
      (ports : List ℕ) (any_rst : Bool)
      → ping_ports network clock ports any_rst
        ≡ summary (first_accepting network ports) (any_rst || any_resets network ports)
  unfolding ping_ports summary first_accepting any_resets
  ping_ports-summary [] any_rst = ground arith
  ping_ports-summary (p ∷ ps) any_rst =
      ground (arith, ping_ports-summary ps any_rst, ping_ports-summary ps true)

  -- The host is up by the first port that accepts a connection; without one, it is up if some port
  -- refuses or resets the connection, and otherwise down.
  pub tcp_ping-summary :
      (ports : List ℕ)
      → tcp_ping network clock ports
        ≡ summary (first_accepting network ports) (any_resets network ports)
  unfolding tcp_ping
  tcp_ping-summary ports = ping_ports-summary ports false

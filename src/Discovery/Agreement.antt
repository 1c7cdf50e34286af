-- ===== src/Discovery/Agreement.antt =====
-- The TCP ping finds out whether a host has a port that answers.
use rnmap.Base.{ℕ, ◌≡◌, refl, Bool, true, false, ◌||◌, or_true, List, [], ◌∷◌, arith, if◌then◌else◌}
use rnmap.Report.{up, down}
use rnmap.Report.Behaviour.{Behaviour, accepts, refuses, drops}
use rnmap.Connect.{Connected, connected, failed, timed_out}
use rnmap.Discovery.{ping_ports, no_connection, tcp_ping}
use rnmap.Discovery.Tcp.{accepts_connection, resets_connection}

-- What an attempt to connect meets at a port that behaves so.
abbrev pub Responds : Connected → Behaviour → Type 0
Responds c accepts = c ≡ connected
Responds c refuses = resets_connection c ≡ true
Responds c drops = (accepts_connection c || resets_connection c) ≡ false

-- The port answers, whether it accepts or refuses.
abbrev pub answers : Behaviour → Bool
answers accepts = true
answers refuses = true
answers drops = false

module _ (behaviour : ℕ → Behaviour) where
  abbrev pub any_answers : List ℕ → Bool
  any_answers [] = false
  any_answers (p ∷ ps) = answers (behaviour p) || any_answers ps

  abbrev pub AllRespond : (ℕ → Connected) → List ℕ → Type 0
  AllRespond network [] = Unit
  AllRespond network (p ∷ ps) = Responds (network p) (behaviour p) × AllRespond network ps

  module _ (network : ℕ → Connected) (clock : ℕ → ℕ) where
    ping_port-state :
        (c : Connected) (b : Behaviour) (p : ℕ) (ps : List ℕ) (any_rst : Bool)
        → network p ≡ c
        → Responds c b
        → ((any : Bool)
            → (ping_ports network clock ps any).state
              ≡ (if any || any_answers ps then up else down))
        → (ping_ports network clock (p ∷ ps) any_rst).state
          ≡ (if any_rst || (answers b || any_answers ps) then up else down)
    unfolding ping_ports
    ping_port-state connected accepts p ps any_rst met responds rest =
        ground (arith, or_true any_rst)
    ping_port-state connected refuses p ps any_rst met responds rest = cc
    ping_port-state connected drops p ps any_rst met responds rest = cc
    ping_port-state (failed e) accepts p ps any_rst met responds rest = cc
    ping_port-state (failed e) refuses p ps any_rst met responds rest =
        ground (arith, or_true any_rst, rest true)
    ping_port-state (failed e) drops p ps any_rst met responds rest = ground (arith, rest any_rst)
    ping_port-state timed_out accepts p ps any_rst met responds rest = cc
    ping_port-state timed_out refuses p ps any_rst met responds rest = cc
    ping_port-state timed_out drops p ps any_rst met responds rest = ground (arith, rest any_rst)

    ping_ports-state :
        (ps : List ℕ) (any_rst : Bool)
        → AllRespond network ps
        → (ping_ports network clock ps any_rst).state
          ≡ (if any_rst || any_answers ps then up else down)
    unfolding ping_ports no_connection
    ping_ports-state [] true h = refl
    ping_ports-state [] false h = refl
    ping_ports-state (p ∷ ps) any_rst (h, hs) =
        ping_port-state (network p) (behaviour p) p ps any_rst refl h
          (λ any. ping_ports-state ps any hs)

    -- The host is up exactly if one of the ports answers.
    pub tcp_ping-state :
        (ps : List ℕ)
        → AllRespond network ps
        → (tcp_ping network clock ps).state ≡ (if any_answers ps then up else down)
    unfolding tcp_ping
    tcp_ping-state ps h = ping_ports-state ps false h

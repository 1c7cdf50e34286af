-- ===== src/Syn/Refused.antt =====
-- A raw socket that cannot be opened ends the scan with an error, and nothing is sent.
use rnmap.Base.{ℕ, ◌≡◌, refl, [], Result, ok, err, ◌>>=◌}
use rnmap.Text.{codes}
use rnmap.Errors.{Error, IoError}
use rnmap.Packet.{Ipv4Addr}
use rnmap.Timing.{Timing}
use rnmap.Discovery.{open_error}
use rnmap.Syn.{
  Round, finished, UdpProbe, RawSocket, Random, launch, watch, scan_blocking, pick_source_ipv4_for,
}

bind_refused :
    {A B : Type 0} (r : Result A Error) (f : A → Result B Error)
    → ((a : A) → (x : Error) × (f a ≡ err x))
    → (x : Error) × ((r >>= f) ≡ err x)
bind_refused (ok a) f h = h a
bind_refused (err e) f h = (e, refl)

launch_refused :
    (target : Ipv4Addr) (port : ℕ) (udp : UdpProbe) (sock : RawSocket) (random : Random)
    {e : IoError}
    → sock.opened ≡ err e
    → (x : Error) × (launch target port udp sock random ≡ err x)
unfolding launch
launch_refused target port udp sock random {e} refused =
    bind_refused (pick_source_ipv4_for udp) _
      (λ src_ip. (open_error (codes "raw TCP socket: ") e, rw refused refl))

pub scan_blocking_refused :
    (target : Ipv4Addr) (port : ℕ) (timing : Timing) (udp : UdpProbe) (sock : RawSocket)
    (random : Random) (started : ℕ) (rounds : ℕ → Round) (fuel : ℕ) {e : IoError}
    → sock.opened ≡ err e
    → (x : Error) × (scan_blocking target port timing udp sock random started rounds fuel
        ≡ finished (err x) [])
unfolding scan_blocking watch
scan_blocking_refused target port timing udp sock random started rounds fuel refused =
    let (x, failed) = launch_refused target port udp sock random refused in (x, rw failed refl)

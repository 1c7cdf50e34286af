-- ===== src/Syn/Scan.antt =====
-- The whole SYN scan: it ends, and what it sends.
use rnmap.Base.{ℕ, ◌+◌, ◌≤◌, ◌<◌, Result, ok, err, arith, Bytes}
use rnmap.Errors.{Error}
use rnmap.Packet.{Ipv4Addr}
use rnmap.Timing.{Timing}
use rnmap.Syn.{
  Round, End, finished, panicked, running, Probe, loop, UdpProbe, RawSocket, Random, launch, watch,
  sent_before, scan_blocking,
}
use rnmap.Syn.Loop.{IsFinished, loop-IsFinished}

sent_before-IsFinished : (pkt : Bytes) (e : End) → IsFinished e → IsFinished (sent_before pkt e)
unfolding sent_before
sent_before-IsFinished pkt (finished r sent) h = tt
sent_before-IsFinished pkt panicked h = elim h [ ]
sent_before-IsFinished pkt running h = elim h [ ]

watch-IsFinished :
    (deadline rst_id : ℕ) (rounds : ℕ → Round) (fuel late : ℕ) (r : Result (Probe × Bytes) Error)
    → late < fuel
    → deadline ≤ (rounds late).now
    → IsFinished (watch deadline rst_id rounds fuel r)
unfolding watch
watch-IsFinished deadline rst_id rounds fuel late (err e) below h = tt
watch-IsFinished deadline rst_id rounds fuel late (ok (probe, pkt)) below h =
    sent_before-IsFinished pkt (loop probe deadline rst_id rounds fuel 0)
      (loop-IsFinished probe deadline rst_id rounds fuel 0 late (omega arith) (omega arith) h)

-- The scan ends with a result, and does not panic, once the clock has passed the connect timeout in
-- some round of the read loop, whatever the sockets and the network do.
pub scan_blocking-IsFinished :
    (target : Ipv4Addr) (port : ℕ) (timing : Timing) (udp : UdpProbe) (sock : RawSocket)
    (random : Random) (started : ℕ) (rounds : ℕ → Round) (fuel late : ℕ)
    → late < fuel
    → started + timing.connect_timeout ≤ (rounds late).now
    → IsFinished (scan_blocking target port timing udp sock random started rounds fuel)
unfolding scan_blocking
scan_blocking-IsFinished target port timing udp sock random started rounds fuel late below h =
    watch-IsFinished (started + timing.connect_timeout) random.rst_id rounds fuel late
      (launch target port udp sock random) below h

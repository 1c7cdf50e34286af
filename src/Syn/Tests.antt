-- ===== src/Syn/Tests.antt =====
-- The theorems on the SYN scan: a packet that is no answer, and a silent network.
use rnmap.Base.{[], ◌∷◌, ◌≡◌, ◌+◌, ◌≤◌, ok, arith, refl}
use rnmap.Timing.{new}
use rnmap.Syn.{Probe, running, receive, scan_blocking, pick_source_ipv4_for}
use rnmap.Syn.Loop.{IsFinished, answer, conclude, receive-conclude}
use rnmap.Syn.Sent.{Sends, syn_of, probe_of, rst_of, scan_blocking-Sends}
use rnmap.Syn.Scan.{scan_blocking-IsFinished}
use rnmap.Fixtures.{ip_1, ip_2, good_udp, good_raw, drawn, quiet_rounds}

abbrev probe : Probe
probe = record { src_ip = ip_1; target = ip_2; src_port = 40000; port = 443; seq = 7 }

receive-conclude_example :
    receive probe 3000 2 12 (ok (0x45 ∷ 0 ∷ [])) running
    ≡ conclude probe 2 12 (answer probe (0x45 ∷ 0 ∷ [])) running
receive-conclude_example = receive-conclude probe 3000 2 12 (0x45 ∷ 0 ∷ []) running

passed : 0 + (new 3).connect_timeout ≤ (quiet_rounds 4).now
unfolding new
passed = omega arith

scan_blocking-IsFinished_example :
    IsFinished (scan_blocking ip_2 443 (new 3) good_udp good_raw drawn 0 quiet_rounds 100)
scan_blocking-IsFinished_example =
    scan_blocking-IsFinished ip_2 443 (new 3) good_udp good_raw drawn 0 quiet_rounds 100 4
      (omega arith) passed

picked : pick_source_ipv4_for good_udp ≡ ok ip_1
unfolding pick_source_ipv4_for
picked = refl

scan_blocking-Sends_example :
    Sends
      (syn_of ip_2 ip_1 443 good_udp good_raw drawn)
      (rst_of (probe_of ip_2 ip_1 443 good_udp good_raw drawn) drawn.rst_id)
      (scan_blocking ip_2 443 (new 3) good_udp good_raw drawn 0 quiet_rounds 100)
scan_blocking-Sends_example =
    scan_blocking-Sends ip_2 ip_1 443 good_udp good_raw drawn (new 3) 0 quiet_rounds 100 picked

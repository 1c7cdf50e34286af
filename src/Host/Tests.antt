-- ===== src/Host/Tests.antt =====
-- The theorems on one host: raw sockets are closed, and port 80 accepts connections.
use rnmap.Base.{ℕ, ◌≡◌, ◌==◌, if◌then◌else◌, ok, refl, arith}
use rnmap.Timing.{new}
use rnmap.Report.{v4}
use rnmap.Report.Behaviour.{accepts, expected}
use rnmap.Connect.Agreement.{Meets}
use rnmap.Syn.{Probe, Round, launch, pick_source_ipv4_for}
use rnmap.Syn.Agreement.{answer_packet, Observes, waited}
use rnmap.Host.Agreement.{scan_port-state}
use rnmap.Host.{World, connect_scan, scan_port}
use rnmap.Host.Fallback.{scan_port_refused}
use rnmap.Fixtures.{ip_1, ip_2, good_raw, quiet_rounds, small_world, sample_cli}

scan_port_refused_example :
    scan_port small_world sample_cli (new 3) 0 (v4 ip_1) 80
    ≡ connect_scan small_world sample_cli (new 3) 0 80
scan_port_refused_example = scan_port_refused small_world sample_cli (new 3) 0 (v4 ip_1) 80 refl

abbrev probe : Probe
probe = record { src_ip = ip_1; target = ip_2; src_port = 40000; port = 80; seq = 7 }

-- The first read times out, and the second has the answer.
abbrev answered : ℕ → Round
answered n = record (quiet_rounds 0) {
  received =
      if n == 1 then ok (answer_packet accepts probe 77 1000 64240) else (quiet_rounds 0).received;
}

abbrev answering_world : World
answering_world = record small_world { raw = λ k port. good_raw; rounds = λ k port. answered }

scan_port-state_example :
    (scan_port answering_world sample_cli (new 3) 0 (v4 ip_2) 80).state ≡ expected accepts
unfolding new launch pick_source_ipv4_for
scan_port-state_example =
    scan_port-state answering_world sample_cli (new 3) 0 ip_2 80 {probe = probe}
      (Meets.accepted refl) refl (omega arith) (omega arith)
      (waited (omega arith, refl) refl refl
        (Observes.accepted 77 1000 64240 (omega arith, refl) (omega arith) refl))

-- ===== src/Syn/Agreement.antt =====
-- The SYN scan reports the state of the port.
use rnmap.Base.{
  ℕ, zero, suc, ◌+◌, ◌-◌, ◌%◌, max, ◌≤◌, ◌<◌, ◌≡◌, refl, ap, ◌∙◌, true, false, ◌&&◌, ◌==◌,
  if◌then◌else◌, Option, none, some, leb, ==_refl, Bytes, Result, ok, err, arith,
}
use rnmap.Checksum.{u32_mod}
use rnmap.Errors.{IoError}
use rnmap.Timing.{Timing}
use rnmap.Report.{PortState}
use rnmap.Report.Behaviour.{Behaviour, accepts, refuses, drops, expected, answer_flags}
use rnmap.Packet.{Ipv4Addr, Segment}
use rnmap.Packet.Safety.{is_between}
use rnmap.Packet.Checked.{tcp_packet, is_between-tcp_packet, segment_of-tcp_packet}
use rnmap.Discovery.{is_wait}
use rnmap.Syn.{
  Round, End, finished, panicked, running, result, Probe, receive, round, loop, UdpProbe, RawSocket,
  Random, launch, watch, sent_before, scan_blocking,
}
use rnmap.Syn.Loop.{answer, conclude, receive-conclude}

-- The state that the scan reports.
abbrev pub reported : End → Option PortState
reported (finished (ok r) sent) = some r.state
reported (finished (err e) sent) = none
reported panicked = none
reported running = none

-- The target's answer to the probe: from the scanned port, with the number of the SYN acknowledged.
-- Its identification, sequence number and window are the target's choice.
unfoldable pub answer_packet : Behaviour → Probe → ℕ → ℕ → ℕ → Bytes
answer_packet b probe id seq win =
    tcp_packet id probe.target probe.src_ip probe.port probe.src_port seq
      ((probe.seq + 1) % u32_mod) (answer_flags b) win

module _ (probe : Probe) (deadline : ℕ) (rounds : ℕ → Round) where
  -- The round is before the deadline, and its timeout is set.
  abbrev IsEarly : Round → Type 0
  IsEarly r = (r.now < deadline) × (r.timeout_set (max (deadline - r.later) 50) ≡ ok tt)

  -- What the rounds from a number on, at most so many of them, meet. A round may receive nothing, or a
  -- packet that is no answer to the probe, before the answer comes.
  pub data Observes : Behaviour → ℕ → ℕ → Type 0 where
    waited :
        {b : Behaviour} {n fuel : ℕ} {e : IoError}
        → IsEarly (rounds n)
        → (rounds n).received ≡ err e
        → is_wait e.kind ≡ true
        → Observes b (n + 1) fuel
        → Observes b n (suc fuel)
    unrelated :
        {b : Behaviour} {n fuel : ℕ} {bytes : Bytes}
        → IsEarly (rounds n)
        → (rounds n).received ≡ ok bytes
        → answer probe bytes ≡ none
        → Observes b (n + 1) fuel
        → Observes b n (suc fuel)
    accepted :
        {n fuel : ℕ} (id seq win : ℕ)
        → IsEarly (rounds n)
        → seq < u32_mod
        → (rounds n).received ≡ ok (answer_packet accepts probe id seq win)
        → Observes accepts n (suc fuel)
    refused :
        {n fuel : ℕ} (id seq win : ℕ)
        → IsEarly (rounds n)
        → seq < u32_mod
        → (rounds n).received ≡ ok (answer_packet refuses probe id seq win)
        → Observes refuses n (suc fuel)
    unanswered : {n fuel : ℕ} → deadline ≤ (rounds n).now → Observes drops n (suc fuel)

  answer-tcp_packet :
      (id seq ack flags win : ℕ)
      → probe.port < 65536
      → probe.src_port < 65536
      → seq < u32_mod
      → ack < u32_mod
      → answer probe
          (tcp_packet id probe.target probe.src_ip probe.port probe.src_port seq ack flags win)
        ≡ some
            (record { sp = probe.port; dp = probe.src_port; flags = flags; seq = seq; ack = ack })
  unfolding answer
  answer-tcp_packet id seq ack flags win hp hs hq ha =
      let bytes =
        tcp_packet id probe.target probe.src_ip probe.port probe.src_port seq ack flags win in
      let accept = λ (s : Segment).
        if is_between bytes probe.target probe.src_ip
          && s.sp == probe.port
          && s.dp == probe.src_port
        then some s
        else none in
      ap accept (
        segment_of-tcp_packet id probe.target probe.src_ip probe.port probe.src_port seq ack flags
          win hp hs hq ha)
      ∙ rw (is_between-tcp_packet, ==_refl probe.port, ==_refl probe.src_port) refl

  answer-answer_packet :
      (b : Behaviour) (id seq win : ℕ)
      → probe.port < 65536
      → probe.src_port < 65536
      → seq < u32_mod
      → answer probe (answer_packet b probe id seq win)
        ≡ some (record {
          sp = probe.port;
          dp = probe.src_port;
          flags = answer_flags b;
          seq = seq;
          ack = (probe.seq + 1) % u32_mod;
        })
  unfolding answer_packet
  answer-answer_packet b id seq win hp hs hq =
      answer-tcp_packet id seq _ _ win hp hs hq (omega arith)

  -- A round before the deadline is decided by what it receives.
  round-early :
      (rst_id : ℕ) (r : Round) (rest : End)
      → IsEarly r
      → round probe deadline rst_id r rest ≡ receive probe deadline rst_id r.elapsed r.received rest
  unfolding round
  round-early rst_id r rest early =
      let test : leb deadline r.now ≡ false = ground (arith, early.0) in rw (test, early.1) refl

  module _ (rst_id elapsed : ℕ) (received : Result Bytes IoError) (rest : End) where
    receive-wait :
        {e : IoError}
        → received ≡ err e
        → is_wait e.kind ≡ true
        → receive probe deadline rst_id elapsed received rest ≡ rest
    unfolding receive
    receive-wait h w = rw h (rw (receive, w) refl)

    receive-answer :
        {bytes : Bytes} {a : Option Segment}
        → received ≡ ok bytes
        → answer probe bytes ≡ a
        → receive probe deadline rst_id elapsed received rest ≡ conclude probe rst_id elapsed a rest
    receive-answer {bytes = bytes} h same =
        rw h (receive-conclude probe deadline rst_id elapsed bytes rest)
        ∙ ap (λ a. conclude probe rst_id elapsed a rest) same

  -- The loop ends by the result for what the port does.
  pub loop-reported :
      (rst_id : ℕ) {b : Behaviour} {n fuel : ℕ}
      → probe.port < 65536
      → probe.src_port < 65536
      → Observes b n fuel
      → reported (loop probe deadline rst_id rounds fuel n) ≡ some (expected b)
  unfolding loop expected conclude
  loop-reported rst_id {fuel = zero} hp hs observed = elim observed [ ]
  loop-reported rst_id {n = n} {fuel = suc fuel} hp hs (waited early e w more) =
      ap reported (round-early rst_id (rounds n) _ early ∙ receive-wait rst_id _ _ _ e w)
      ∙ loop-reported rst_id hp hs more
  loop-reported rst_id {n = n} {fuel = suc fuel} hp hs (unrelated early e other more) =
      ap reported (round-early rst_id (rounds n) _ early ∙ receive-answer rst_id _ _ _ e other)
      ∙ loop-reported rst_id hp hs more
  loop-reported rst_id {n = n} {fuel = suc fuel} hp hs (accepted id seq win early hq e) =
      let came = answer-answer_packet accepts id seq win hp hs hq in
      ap reported (round-early rst_id (rounds n) _ early ∙ receive-answer rst_id _ _ _ e came)
      ∙ unfold result answer_flags in refl
  loop-reported rst_id {n = n} {fuel = suc fuel} hp hs (refused id seq win early hq e) =
      let came = answer-answer_packet refuses id seq win hp hs hq in
      ap reported (round-early rst_id (rounds n) _ early ∙ receive-answer rst_id _ _ _ e came)
      ∙ unfold result answer_flags in refl
  loop-reported rst_id {n = n} {fuel = suc fuel} hp hs (unanswered late) =
      let test : leb deadline (rounds n).now ≡ true = ground arith in
      unfold round result in rw test refl

reported-sent_before : (pkt : Bytes) (e : End) → reported (sent_before pkt e) ≡ reported e
unfolding sent_before
reported-sent_before pkt (finished (ok r) sent) = refl
reported-sent_before pkt (finished (err e) sent) = refl
reported-sent_before pkt panicked = refl
reported-sent_before pkt running = refl

-- A SYN scan that could send its SYN reports the state of the port.
pub scan_blocking-reported :
    (target : Ipv4Addr) (port : ℕ) (timing : Timing) (udp : UdpProbe) (sock : RawSocket)
    (random : Random) (started : ℕ) (rounds : ℕ → Round) (fuel : ℕ) {probe : Probe} {pkt : Bytes}
    {b : Behaviour}
    → launch target port udp sock random ≡ ok (probe, pkt)
    → probe.port < 65536
    → probe.src_port < 65536
    → Observes probe (started + timing.connect_timeout) rounds b 0 fuel
    → reported (scan_blocking target port timing udp sock random started rounds fuel)
      ≡ some (expected b)
unfolding scan_blocking watch
scan_blocking-reported target port timing udp sock random started rounds fuel {probe} {pkt} sent hp
      hs seen =
    rw sent (
      reported-sent_before pkt _
      ∙ loop-reported probe (started + timing.connect_timeout) rounds random.rst_id hp hs seen)

-- ===== src/Syn/Loop.antt =====
-- The read loop ends, and a port is reported open or closed only on a matching answer.
use rnmap.Base.{
  max, ◌-◌, ℕ, zero, suc, ◌+◌, ◌%◌, ◌*◌, ◌≤◌, ◌<◌, ◌≡◌, refl, Bool, true, false, [], ◌∷◌, Option,
  none, some, ◌==◌, leb, if◌then◌else◌, Bytes, Result, ok, err, arith, Bool-cases, ==_iff, inl, inr,
  drop, get_or, ◌&&◌,
}
use rnmap.Text.{codes}
use rnmap.Errors.{Error, IoError}
use rnmap.Report.{PortState}
use rnmap.Packet.{Segment, build_rst_packet}
use rnmap.Packet.Safety.{is_between, segment_of, parse_tcp_in_ipv4-segment_of}
use rnmap.Connect.{as_u64}
use rnmap.Discovery.{is_wait}
use rnmap.Syn.{
  Round, End, finished, panicked, running, result, Probe, has_flags, respond, receive, round, loop,
}

-- The loop ended by a result.
abbrev pub IsFinished : End → Type 0
IsFinished (finished r sent) = Unit
IsFinished panicked = ⊥
IsFinished running = ⊥

module _ (probe : Probe) where
  -- The answer of the target to the probe, if the packet is one.
  unfoldable pub answer : Bytes → Option Segment
  unfolding is_between segment_of
  answer bytes =
      let s = segment_of (drop (get_or bytes 0 0 % 16 * 4) bytes) in
      if is_between bytes probe.target probe.src_ip && s.sp == probe.port && s.dp == probe.src_port
      then some s
      else none

  -- What an answer decides.
  unfoldable pub conclude : ℕ → ℕ → Option Segment → End → End
  unfolding result
  conclude rst_id elapsed none rest = rest
  conclude rst_id elapsed (some s) rest =
      if has_flags s.flags 0x12
      then finished
          (ok (result probe.port PortState.open_port (codes "syn-ack") (some (as_u64 elapsed))))
          (build_rst_packet rst_id probe.src_ip probe.target probe.src_port probe.port s.ack ∷ [])
      else if has_flags s.flags 0x04
      then finished (ok (result probe.port PortState.closed (codes "rst") (some (as_u64 elapsed))))
          []
      else rest

module _ (probe : Probe) (deadline rst_id : ℕ) where
  respond-conclude :
      (elapsed : ℕ) (rest : End) (between : Bool) (s : Segment)
      → respond probe deadline rst_id elapsed (if between then some s else none) rest
        ≡ conclude probe rst_id elapsed
            (if between && s.sp == probe.port && s.dp == probe.src_port then some s else none)
            rest
  unfolding respond conclude
  respond-conclude elapsed rest false s = refl
  respond-conclude elapsed rest true s =
      elim (Bool-cases (s.sp == probe.port && s.dp == probe.src_port)) [
        | inl ours ↦ rw ours refl
        | inr other ↦ rw other refl
      ]

  -- A packet decides the port exactly if it is a TCP packet from the target to the probe's address,
  -- from the scanned port to the probe's source port: SYN with ACK means open, and is answered by a
  -- RST with the number that it acknowledges; otherwise RST means closed. No packet makes the loop
  -- panic, and any other packet leaves it to its next round.
  pub receive-conclude :
      (elapsed : ℕ) (bytes : Bytes) (rest : End)
      → receive probe deadline rst_id elapsed (ok bytes) rest
        ≡ conclude probe rst_id elapsed (answer probe bytes) rest
  unfolding receive answer
  receive-conclude elapsed bytes rest =
      rw (parse_tcp_in_ipv4-segment_of bytes probe.target probe.src_ip)
        (respond-conclude elapsed rest (is_between bytes probe.target probe.src_ip) _)

  conclude-IsFinished :
      (elapsed : ℕ) (a : Option Segment) (rest : End)
      → IsFinished rest
      → IsFinished (conclude probe rst_id elapsed a rest)
  unfolding conclude
  conclude-IsFinished elapsed none rest h = h
  conclude-IsFinished elapsed (some s) rest h = elim (Bool-cases (has_flags s.flags 0x12)) [
    | inl syn_ack ↦ rw syn_ack tt
    | inr other ↦ rw other (elim (Bool-cases (has_flags s.flags 0x04)) [
      | inl rst ↦ rw rst tt
      | inr neither ↦ rw neither h
    ])
  ]

  receive-IsFinished :
      (elapsed : ℕ) (received : Result Bytes IoError) (rest : End)
      → IsFinished rest
      → IsFinished (receive probe deadline rst_id elapsed received rest)
  receive-IsFinished elapsed (ok bytes) rest h =
      rw receive-conclude (conclude-IsFinished elapsed (answer probe bytes) rest h)
  receive-IsFinished elapsed (err e) rest h = unfold receive in go (is_wait e.kind)
    where
      go : (b : Bool) → IsFinished (elim b [ true ↦ rest | false ↦ finished (err (Error.io e)) [] ])
      go true = h
      go false = tt

  round-IsFinished :
      (r : Round) (rest : End) → IsFinished rest → IsFinished (round probe deadline rst_id r rest)
  unfolding round
  round-IsFinished r rest h = elim (Bool-cases (leb deadline r.now)) [
    | inl late ↦ rw late tt
    | inr early ↦ rw early (go (r.timeout_set (max (deadline - r.later) 50)))
  ]
    where
      go :
          (set : Result (Unit {0}) IoError)
          → IsFinished (elim set [
            | err e ↦ finished (err (Error.io e)) []
            | ok done ↦ receive probe deadline rst_id r.elapsed r.received rest
          ])
      go (err e) = tt
      go (ok done) = receive-IsFinished r.elapsed r.received rest h

  round-late :
      (r : Round) (rest : End) → deadline ≤ r.now → IsFinished (round probe deadline rst_id r rest)
  unfolding round
  round-late r rest h = let late : leb deadline r.now ≡ true = ground arith in rw late tt

  -- If the clock has reached the deadline in round `late`, the loop ends by then, whatever is received.
  pub loop-IsFinished :
      (rounds : ℕ → Round) (fuel n late : ℕ)
      → n ≤ late
      → late < n + fuel
      → deadline ≤ (rounds late).now
      → IsFinished (loop probe deadline rst_id rounds fuel n)
  unfolding loop
  loop-IsFinished rounds zero n late from below h = absurd (omega arith)
  loop-IsFinished rounds (suc fuel) n late from below h = elim (Bool-cases (n == late)) [
    | inl here ↦ round-late (rounds n) _ (rw (same_of here) h)
    | inr there ↦
        round-IsFinished (rounds n) _
          (loop-IsFinished rounds fuel (n + 1) late (ground arith) (omega arith) h)
  ]
    where
      same_of : (n == late) ≡ true → n ≡ late
      same_of e = (==_iff n late).0 e

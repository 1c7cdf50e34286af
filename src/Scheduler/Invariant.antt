-- ===== src/Scheduler/Invariant.antt =====
-- What holds after any sequence of events.
use mathlib.Core.List.{Perm, perm_append_comm}
use mathlib.Core.List.Perm
use mathlib.Core.Path.{subst}
use rnmap.Base.{
  ℕ, zero, suc, ◌+◌, ◌*◌, ◌≡◌, refl, List, [], ◌∷◌, ◌++◌, append_assoc, append-nil, Option, none,
  some, length, All, All-append, arith,
}
use rnmap.Text.{Text}
use rnmap.Scheduler.{
  Task, running, State, Event, spawn, tell_task, end_task, Turned, start, spawn_next, count_running,
  turn_at, tell, finish, go_on, step, and_then, run,
}
use rnmap.Scheduler.Turns.{
  ports_of, left_for_all, ports_of-append, left_for_all-append, count_running-append, IsHonest,
  said, said-append, TurnsAll, tell-Turns, finish-Turns, turn_at-TurnsAll,
}

-- How many events are left: three for each port without a task, and those of the tasks.
unfoldable pub remaining : {R : Type 0} → State R → ℕ
remaining s = 3 * length s.pending + left_for_all s.futs

module _ {R : Type 0} (task : ℕ → Option R) (say : ℕ → List Text) where
  -- The permits taken are those of the running tasks, the tasks and the ports left are all ports in
  -- order, each result is its port's, and the lines are those of the tasks in some order.
  pub record IsFair (permits : ℕ) (ports : List ℕ) (s : State R) : Type 0 where
    pub balanced : s.permits + count_running s.futs ≡ permits
    pub complete : ports_of s.futs ++ s.pending ≡ ports
    pub honest : All (IsHonest task say) s.futs
    pub heard : Perm s.lines (said task say s.futs)

  start-IsFair : (permits : ℕ) (ports : List ℕ) → IsFair permits ports (start permits ports)
  unfolding start count_running
  start-IsFair permits ports = record {
    balanced = omega arith;
    complete = refl;
    honest = tt;
    heard = Perm.nil;
  }

  -- One event: the state stays fair, and one event less is left.
  abbrev Keeps : ℕ → List ℕ → State R → Option (State R) → Type 0
  Keeps permits ports s none = Unit
  Keeps permits ports s (some t) = IsFair permits ports t × (remaining s ≡ suc (remaining t))

  spawn-Keeps :
      (permits : ℕ) (ports pending : List ℕ) (futs : List (Task R)) (left : ℕ) (lines : List Text)
      → IsFair permits ports
          (record { pending = pending; futs = futs; permits = left; lines = lines })
      → Keeps permits ports
          (record { pending = pending; futs = futs; permits = left; lines = lines })
          (spawn_next pending futs left lines)
  unfolding spawn_next count_running remaining
  spawn-Keeps permits ports [] futs left lines fair = tt
  spawn-Keeps permits ports (p ∷ ps) futs zero lines fair = tt
  spawn-Keeps permits ports (p ∷ ps) futs (suc left) lines fair = (
    record {
      balanced = omega (arith, count_running-append futs (running p ∷ []), fair.balanced);
      complete = rw (ports_of-append, append_assoc) fair.complete;
      honest = All-append (IsHonest task say) futs (running p ∷ []) fair.honest (tt, tt);
      heard =
          rw (said-append task say futs (running p ∷ []), append-nil (said task say futs))
            fair.heard;
    },
    omega (arith, left_for_all-append futs (running p ∷ [])),
  )

  go_on-Keeps :
      (permits : ℕ) (ports : List ℕ) (given : ℕ) (s : State R) (o : Turned R)
      → TurnsAll task say given s.futs o
      → IsFair permits ports s
      → Keeps permits ports s (go_on given s o)
  unfolding remaining
  go_on-Keeps permits ports given s none h fair = tt
  go_on-Keeps permits ports given s (some (futs, printed)) h fair = (
    record {
      balanced = omega (arith, h.returned, fair.balanced);
      complete = rw (h.same_ports) fair.complete;
      honest = h.still_honest fair.honest;
      heard =
          Perm.trans (perm_append_comm s.lines printed)
            (Perm.trans (Perm.append_left printed fair.heard) h.prints);
    },
    omega (arith, h.went_on),
  )

  step-Keeps :
      (permits : ℕ) (ports : List ℕ) (e : Event) (s : State R)
      → IsFair permits ports s
      → Keeps permits ports s (step task say e s)
  unfolding step
  step-Keeps permits ports spawn s fair =
      spawn-Keeps permits ports s.pending s.futs s.permits s.lines fair
  step-Keeps permits ports (tell_task i) s fair =
      go_on-Keeps permits ports 0 s (turn_at (tell say) i s.futs)
        (turn_at-TurnsAll task say 0 (tell say) i s.futs (tell-Turns task say)) fair
  step-Keeps permits ports (end_task i) s fair =
      go_on-Keeps permits ports 1 s (turn_at (finish task) i s.futs)
        (turn_at-TurnsAll task say 1 (finish task) i s.futs (finish-Turns task say)) fair

  -- Any number of events.
  abbrev Reaches : ℕ → List ℕ → ℕ → State R → Option (State R) → Type 0
  Reaches permits ports n s none = Unit
  Reaches permits ports n s (some t) = IsFair permits ports t × (remaining s ≡ n + remaining t)

  run-Reaches :
      (permits : ℕ) (ports : List ℕ) (events : List Event) (s : State R)
      → IsFair permits ports s
      → Reaches permits ports (length events) s (run task say events s)
  unfolding run
  run-Reaches permits ports [] s fair = (fair, omega arith)
  run-Reaches permits ports (e ∷ events) s fair =
      go (step task say e s) (step-Keeps permits ports e s fair)
        (λ t fair'. run-Reaches permits ports events t fair')
    where
      one_more :
          (t : State R) (o : Option (State R))
          → remaining s ≡ suc (remaining t)
          → Reaches permits ports (length events) t o
          → Reaches permits ports (suc (length events)) s o
      one_more t none h r = tt
      one_more t (some u) h r = (r.0, omega (arith, h, r.1))

      go :
          (o : Option (State R))
          → Keeps permits ports s o
          → ((t : State R)
              → IsFair permits ports t
              → Reaches permits ports (length events) t (run task say events t))
          → Reaches permits ports (suc (length events)) s (and_then o (run task say events))
      go none k later = tt
      go (some t) k later = one_more t (run task say events t) k.1 (later t k.0)

  -- What holds of every state that events lead to from the start.
  pub reached :
      (permits : ℕ) (ports : List ℕ) (events : List Event) {s : State R}
      → run task say events (start permits ports) ≡ some s
      → IsFair permits ports s × (length events + remaining s ≡ 3 * length ports)
  unfolding remaining
  reached permits ports events {s} ran =
      let (fair, left) =
        subst (Reaches permits ports (length events) (start permits ports)) ran
          (run-Reaches permits ports events (start permits ports) (start-IsFair permits ports)) in
      (fair, unfold start count_running in omega (arith, left))

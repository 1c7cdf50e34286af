-- ===== src/Scheduler/Finish.antt =====
-- How many tasks run at a time, that the scan of a host comes to its end, and with which results.
use rnmap.Base.{
  ℕ, zero, suc, ◌+◌, ◌*◌, ◌≤◌, ◌<◌, ◌≡◌, refl, sym, ◌∙◌, ap, List, [], ◌∷◌, ◌++◌, append-nil,
  Option, some, length, All, arith, Bool-cases, inl, inr, ◌⊎◌, ◌==◌,
}
use mathlib.Core.List.{Perm}
use mathlib.Core.Path.{subst}
use rnmap.Text.{Text}
use rnmap.Timing.{Timing}
use rnmap.Report.{IpAddr, PortResult}
use rnmap.Cli.{Cli}
use rnmap.Host.{World, scan_port, scan_ports}
use rnmap.Main.Messages.{Console, task_messages, ports_messages}
use rnmap.Scheduler.{
  Task, running, told, ended, State, Event, spawn, tell_task, end_task, limit, start, spawn_next,
  collect, count_running, in_front, turn_at, tell, finish, go_on, step, run, host_task,
}
use rnmap.Scheduler.Turns.{ports_of, left_for_all, IsHonest, said}
use rnmap.Scheduler.Invariant.{remaining, reached}

-- However the tasks are interleaved, no more of them run at a time than the timing allows, and at
-- least one may.
pub count_running-run :
    {R : Type 0} (task : ℕ → Option R) (say : ℕ → List Text) (max_parallel : ℕ) (ports : List ℕ)
    (events : List Event) {s : State R}
    → run task say events (start (limit max_parallel) ports) ≡ some s
    → (count_running s.futs ≤ limit max_parallel) × (1 ≤ limit max_parallel)
count_running-run task say max_parallel ports events ran =
    let (fair, left) = reached task say (limit max_parallel) ports events ran in
    (omega (arith, fair.balanced), omega arith)

module _ {R : Type 0} (task : ℕ → Option R) (say : ℕ → List Text) where
  -- An event that is possible, with the state that it leads to.
  abbrev pub Next : State R → Type 0
  Next s = (e : Event) × (t : State R) × (step task say e s ≡ some t)

  -- A task that is not at its end can go on.
  turn-Next :
      (futs : List (Task R))
      → 0 < count_running futs
      → (((i : ℕ) × (t : List (Task R) × List Text) × (turn_at (tell say) i futs ≡ some t))
          ⊎ ((i : ℕ) × (t : List (Task R) × List Text) × (turn_at (finish task) i futs ≡ some t)))
  unfolding count_running turn_at tell finish
  turn-Next [] h = absurd (omega arith)
  turn-Next (running p ∷ ts) h = inl (0, _, refl)
  turn-Next (told p ∷ ts) h = inr (0, _, refl)
  turn-Next (ended p r ∷ ts) h = elim (turn-Next ts h) [
    | inl (i, t, e) ↦ inl (suc i, _, ap (in_front (ended p r)) e)
    | inr (i, t, e) ↦ inr (suc i, _, ap (in_front (ended p r)) e)
  ]

  go_on-Next : (s : State R) → 0 < count_running s.futs → Next s
  unfolding step
  go_on-Next s h = elim (turn-Next s.futs h) [
    | inl (i, t, e) ↦ (tell_task i, _, ap (go_on 0 s) e)
    | inr (i, t, e) ↦ (end_task i, _, ap (go_on 1 s) e)
  ]

  idle-left_for_all : (ts : List (Task R)) → count_running ts ≡ 0 → left_for_all ts ≡ 0
  unfolding count_running
  idle-left_for_all [] h = refl
  idle-left_for_all (running p ∷ ts) h = absurd (omega arith)
  idle-left_for_all (told p ∷ ts) h = absurd (omega arith)
  idle-left_for_all (ended p r ∷ ts) h = omega (arith, idle-left_for_all ts h)

  spawn-Next :
      (pending : List ℕ) (futs : List (Task R)) (permits : ℕ) (lines : List Text)
      → 0 < length pending
      → 0 < permits
      → Next (record { pending = pending; futs = futs; permits = permits; lines = lines })
  unfolding step spawn_next
  spawn-Next [] futs permits lines h k = absurd (omega arith)
  spawn-Next (p ∷ ps) futs zero lines h k = absurd (omega arith)
  spawn-Next (p ∷ ps) futs (suc permits) lines h k = (spawn, _, refl)

  -- The tasks of a host never block each other: after any events either nothing is left to do, or
  -- another event is possible; and every event counts towards the three that each port takes, so that a
  -- host is done after three times as many events as it has ports.
  pub run-Next :
      (max_parallel : ℕ) (ports : List ℕ) (events : List Event) {s : State R}
      → run task say events (start (limit max_parallel) ports) ≡ some s
      → ((remaining s ≡ 0) ⊎ Next s) × (length events + remaining s ≡ 3 * length ports)
  unfolding remaining
  run-Next max_parallel ports events {s} ran =
      let (fair, left) = reached task say (limit max_parallel) ports events ran in
      (
        elim (Bool-cases (count_running s.futs == 0)) [
          | inr busy ↦ inr (go_on-Next s (ground arith))
          | inl idle ↦ elim (Bool-cases (length s.pending == 0)) [
            | inl empty ↦ inl (ground (arith, idle-left_for_all s.futs (ground arith)))
            | inr more ↦ inr (
                spawn-Next s.pending s.futs s.permits s.lines (ground arith)
                  (ground (arith, fair.balanced)))
          ]
        ],
        left,
      )

count_running-done : {R : Type 0} (ts : List (Task R)) → left_for_all ts ≡ 0 → count_running ts ≡ 0
unfolding count_running
count_running-done [] h = refl
count_running-done (running p ∷ ts) h = absurd (omega arith)
count_running-done (told p ∷ ts) h = absurd (omega arith)
count_running-done (ended p r ∷ ts) h = count_running-done ts (omega arith)

module _ (world : World) (cli : Cli) (console : Console world.Time) (timing : Timing) (k : ℕ)
    (ip : IpAddr) where
  abbrev pub task : ℕ → Option PortResult
  task = host_task world cli timing k ip

  -- The lines of a port's task.
  abbrev pub lines_of : ℕ → List Text
  lines_of = task_messages world cli console timing k ip

  collect-scan_ports :
      (ts : List (Task PortResult))
      → left_for_all ts ≡ 0
      → All (IsHonest task lines_of) ts
      → collect ts ≡ scan_ports world cli timing k ip (ports_of ts)
  unfolding collect scan_ports host_task
  collect-scan_ports [] h honest = refl
  collect-scan_ports (running p ∷ ts) h honest = absurd (omega arith)
  collect-scan_ports (told p ∷ ts) h honest = absurd (omega arith)
  collect-scan_ports (ended p r ∷ ts) h honest =
      let same = collect-scan_ports ts (omega arith) honest.1 in
      rw (honest.0) (elim (Bool-cases (world.joined k p)) [
        | inl joined ↦ rw joined (ap (λ rs. scan_port world cli timing k ip p ∷ rs) same)
        | inr lost ↦ rw lost same
      ])

  said-ports_messages :
      (ts : List (Task PortResult))
      → left_for_all ts ≡ 0
      → said task lines_of ts ≡ ports_messages world cli console timing k ip (ports_of ts)
  unfolding ports_messages
  said-ports_messages [] h = refl
  said-ports_messages (running p ∷ ts) h = absurd (omega arith)
  said-ports_messages (told p ∷ ts) h = absurd (omega arith)
  said-ports_messages (ended p r ∷ ts) h =
      ap (λ ls. lines_of p ++ ls) (said-ports_messages ts (omega arith))

  all_spawned :
      (named pending ports : List ℕ) → length pending ≡ 0 → named ++ pending ≡ ports → named ≡ ports
  all_spawned named [] ports h e = sym (append-nil named) ∙ e
  all_spawned named (p ∷ ps) ports h e = absurd (omega arith)

  -- However the tasks of a host are interleaved, once they are done the results that are joined are
  -- those of the scans of the ports one after the other, the lines that they have printed are those of
  -- the ports, in some order, and all permits are back for the next host.
  pub collect-run :
      (ports : List ℕ) (events : List Event) {s : State PortResult}
      → run task lines_of events (start (limit timing.max_parallel) ports) ≡ some s
      → remaining s ≡ 0
      → (collect s.futs ≡ scan_ports world cli timing k ip ports)
        × Perm s.lines (ports_messages world cli console timing k ip ports)
        × (s.permits ≡ limit timing.max_parallel)
  unfolding remaining
  collect-run ports events {s} ran done =
      let (fair, left) = reached task lines_of (limit timing.max_parallel) ports events ran in
      let all : ports_of s.futs ≡ ports =
        all_spawned (ports_of s.futs) s.pending ports (omega arith) fair.complete in
      (
        collect-scan_ports s.futs (omega arith) fair.honest
            ∙ ap (scan_ports world cli timing k ip) all,
        subst (Perm s.lines)
            (said-ports_messages s.futs (omega arith)
              ∙ ap (ports_messages world cli console timing k ip) all)
            fair.heard,
        omega (arith, done, fair.balanced, count_running-done s.futs (omega arith)),
      )

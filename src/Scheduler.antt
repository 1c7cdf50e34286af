-- ===== src/Scheduler.antt =====
-- crates/rnmap/src/main.rs: the tasks of a host. `main` takes a permit of the semaphore for each port
-- and spawns its task, which may print a line, and gives the permit back at its end; then it joins the
-- tasks in order.
pub mod Turns
pub mod Invariant
pub mod Finish
pub mod Tests
use rnmap.Base.{ℕ, zero, suc, ◌+◌, max, List, [], ◌∷◌, ◌++◌, Option, none, some, if◌then◌else◌}
use rnmap.Text.{Text}
use rnmap.Timing.{Timing}
use rnmap.Report.{IpAddr, PortResult}
use rnmap.Cli.{Cli}
use rnmap.Host.{World, scan_port}

-- A handle that `tokio::spawn` returned: its task runs, and has printed its lines or not yet, or it has
-- ended with what a join gives, which is nothing for a panic.
pub data Task (R : Type 0) : Type 0 where
  running told : ℕ → Task R
  ended : ℕ → Option R → Task R

-- The ports without a task yet, the handles in the order of their ports, the permits left, and the lines
-- that the tasks have printed so far.
pub record State (R : Type 0) : Type 0 where
  pub pending : List ℕ
  pub futs : List (Task R)
  pub permits : ℕ
  pub lines : List Text

-- What may happen next: `main` gets a permit and spawns a task, or the task of a number prints its lines,
-- or it ends.
pub data Event : Type 0 where
  spawn : Event
  tell_task end_task : ℕ → Event

-- `Semaphore::new(timing.max_parallel.max(1))`.
abbrev pub limit : ℕ → ℕ
limit max_parallel = max max_parallel 1

-- What becomes of a task that goes on, and of the handles, with the lines that it prints.
abbrev pub Turn : Type 0 → Type 0
Turn R = Option (Task R × List Text)

abbrev pub Turned : Type 0 → Type 0
Turned R = Option (List (Task R) × List Text)

module _ {R : Type 0} where
  pub start : ℕ → List ℕ → State R
  start permits ports = record { pending = ports; futs = []; permits = permits; lines = [] }

  -- `acquire_owned` waits while no permit is left.
  pub spawn_next : List ℕ → List (Task R) → ℕ → List Text → Option (State R)
  spawn_next (port ∷ ports) futs (suc permits) lines = some (record {
    pending = ports;
    futs = futs ++ running port ∷ [];
    permits = permits;
    lines = lines;
  })
  spawn_next (port ∷ ports) futs zero lines = none
  spawn_next [] futs permits lines = none

  -- The loop over the handles: a task that panicked leaves no result.
  pub collect : List (Task R) → List R
  collect [] = []
  collect (running port ∷ futs) = collect futs
  collect (told port ∷ futs) = collect futs
  collect (ended port none ∷ futs) = collect futs
  collect (ended port (some r) ∷ futs) = r ∷ collect futs

  pub count_running : List (Task R) → ℕ
  count_running [] = 0
  count_running (running port ∷ futs) = suc (count_running futs)
  count_running (told port ∷ futs) = suc (count_running futs)
  count_running (ended port r ∷ futs) = count_running futs

  abbrev pub in_place : List (Task R) → Turn R → Turned R
  in_place futs none = none
  in_place futs (some (t, printed)) = some (t ∷ futs, printed)

  abbrev pub in_front : Task R → Turned R → Turned R
  in_front t none = none
  in_front t (some (futs, printed)) = some (t ∷ futs, printed)

  -- The task of a number goes on.
  pub turn_at : (Task R → Turn R) → ℕ → List (Task R) → Turned R
  turn_at turn i [] = none
  turn_at turn zero (t ∷ futs) = in_place futs (turn t)
  turn_at turn (suc i) (t ∷ futs) = in_front t (turn_at turn i futs)

  -- The state with the permits that are given back.
  abbrev pub go_on : ℕ → State R → Turned R → Option (State R)
  go_on given s none = none
  go_on given s (some (futs, printed)) =
      some (record s { futs = futs; permits = given + s.permits; lines = s.lines ++ printed })

  abbrev pub and_then : Option (State R) → (State R → Option (State R)) → Option (State R)
  and_then none f = none
  and_then (some s) f = f s

  -- A running task prints the lines that `say` gives for its port.
  pub tell : (ℕ → List Text) → Task R → Turn R
  tell say (running port) = some (told port, say port)
  tell say (told port) = none
  tell say (ended port r) = none

  -- Its end, with the result that `task` gives for its port.
  pub finish : (ℕ → Option R) → Task R → Turn R
  finish task (running port) = none
  finish task (told port) = some (ended port (task port), [])
  finish task (ended port r) = none

module _ {R : Type 0} (task : ℕ → Option R) (say : ℕ → List Text) where
  -- The permit is dropped with the task.
  pub step : Event → State R → Option (State R)
  unfolding spawn_next turn_at tell finish
  step spawn s = spawn_next s.pending s.futs s.permits s.lines
  step (tell_task i) s = go_on 0 s (turn_at (tell say) i s.futs)
  step (end_task i) s = go_on 1 s (turn_at (finish task) i s.futs)

  -- A sequence of events, each of which must be possible.
  pub run : List Event → State R → Option (State R)
  unfolding step
  run [] s = some s
  run (e ∷ events) s = and_then (step e s) (run events)

-- What a join of the task of a host's port gives.
unfoldable pub host_task : (world : World) → Cli → Timing → ℕ → IpAddr → ℕ → Option PortResult
host_task world cli timing k ip port =
    if world.joined k port then some (scan_port world cli timing k ip port) else none

-- ===== src/Scheduler/Tests.antt =====
-- The tasks of two ports with two permits: the second prints its line before the first.
use rnmap.Base.{ℕ, ◌+◌, ◌*◌, ◌≤◌, ◌≡◌, ◌⊎◌, refl, List, [], ◌∷◌, Option, some, length}
use mathlib.Core.List.{Perm}
use rnmap.Text.{Text, codes}
use rnmap.Timing.{Timing, new}
use rnmap.Report.{v4, PortResult}
use rnmap.Host.{scan_ports}
use rnmap.Scheduler.{
  ended, State, Event, spawn, tell_task, end_task, limit, start, collect, count_running, step, run,
}
use rnmap.Scheduler.Invariant.{remaining}
use rnmap.Scheduler.Finish.{Next, task, lines_of, count_running-run, run-Next, collect-run}
use rnmap.Syn.{scan_blocking, pick_source_ipv4_for}
use rnmap.Main.Messages.{Console, needs_root, task_messages, ports_messages}
use rnmap.Fixtures.{ip_1, small_world, sample_cli, plain_printers}

abbrev console : Console ℕ
console = record { printers = plain_printers; debug = λ d. codes "1s"; join_error = codes "panic" }

abbrev timing : Timing
timing = record (new 0) { max_parallel = 2 }

abbrev join : ℕ → Option PortResult
join = task small_world sample_cli console timing 0 (v4 ip_1)

abbrev lines : ℕ → List Text
lines = lines_of small_world sample_cli console timing 0 (v4 ip_1)

abbrev two_ports : List ℕ
two_ports = 80 ∷ 443 ∷ []

abbrev crossed : List Event
crossed = spawn ∷ spawn ∷ tell_task 1 ∷ tell_task 0 ∷ end_task 0 ∷ end_task 1 ∷ []

abbrev at_end : State PortResult
at_end = record {
  pending = [];
  futs = ended 80 (join 80) ∷ ended 443 (join 443) ∷ [];
  permits = 2;
  lines =
      needs_root small_world console (v4 ip_1) 443
      ∷ needs_root small_world console (v4 ip_1) 80
      ∷ [];
}

ran_crossed : run join lines crossed (start (limit timing.max_parallel) two_ports) ≡ some at_end
unfolding run step new start task_messages scan_blocking pick_source_ipv4_for
ran_crossed = refl

nothing_left : remaining at_end ≡ 0
unfolding remaining
nothing_left = refl

count_running-run_example :
    (count_running at_end.futs ≤ limit timing.max_parallel) × (1 ≤ limit timing.max_parallel)
count_running-run_example =
    count_running-run join lines timing.max_parallel two_ports crossed {s = at_end} ran_crossed

run-Next_example :
    ((remaining at_end ≡ 0) ⊎ Next join lines at_end)
    × (length crossed + remaining at_end ≡ 3 * length two_ports)
run-Next_example =
    run-Next join lines timing.max_parallel two_ports crossed {s = at_end} ran_crossed

collect-run_example :
    (collect at_end.futs ≡ scan_ports small_world sample_cli timing 0 (v4 ip_1) two_ports)
    × Perm at_end.lines (ports_messages small_world sample_cli console timing 0 (v4 ip_1) two_ports)
    × (at_end.permits ≡ limit timing.max_parallel)
collect-run_example =
    collect-run small_world sample_cli console timing 0 (v4 ip_1) two_ports crossed {s = at_end}
      ran_crossed nothing_left

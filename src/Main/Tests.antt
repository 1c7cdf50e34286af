-- ===== src/Main/Tests.antt =====
-- The theorems on the whole program, for `rnmap -sS -p 80,443 -oA scan.v1 10.0.0.5` without the right to
-- open raw sockets, where one file cannot be written.
use rnmap.Base.{ℕ, ◌≡◌, true, none, some, ◌&&◌, List, [], ◌∷◌, Result, ok, err, if◌then◌else◌}
use rnmap.Text.{Text, codes, text_eq}
use rnmap.Errors.{IoError}
use rnmap.Timing.{new}
use rnmap.Report.{v4}
use rnmap.Cli.{Cli}
use rnmap.Syn.{pick_source_ipv4_for}
use rnmap.Main.Messages.{Console, needs_root, task_messages}
use rnmap.Main.NeedsRoot.{is_denied, task_messages-needs_root}
use rnmap.Fixtures.{ip_1, refused, small_world, sample_cli, plain_printers}

abbrev console : Console ℕ
console = record { printers = plain_printers; debug = λ d. codes "1s"; join_error = codes "panic" }

-- A disk on which `scan.xml` cannot be written.
abbrev disk : Text → Text → Result (Unit {0}) IoError
disk path contents = if text_eq path (codes "scan.xml") then err refused else ok tt

abbrev clap : List Text → Result Cli Text
clap args = ok sample_cli

task_messages-needs_root_example :
    task_messages small_world sample_cli console (new 3) 0 (v4 ip_1) 80 ≡ (
      if true
        && is_denied (pick_source_ipv4_for (small_world.udp 0 80)) (small_world.raw 0 80).opened
      then needs_root small_world console (v4 ip_1) 80 ∷ []
      else [])
task_messages-needs_root_example =
    task_messages-needs_root small_world sample_cli console (new 3) 0 ip_1 80

-- `rnmap -sS -p 80,443 -oX out.xml 10.0.0.5`, on a disk that takes every file.
abbrev xml_cli : Cli
xml_cli = record sample_cli { o_a = none; o_x = some (codes "out.xml") }

abbrev empty_disk : Text → Text → Result (Unit {0}) IoError
empty_disk path contents = ok tt

-- ===== src/Main.antt =====
-- crates/rnmap/src/main.rs: `main` from the command line to its end, with what it prints and writes.
pub mod Messages
pub mod FileOptions
pub mod NeedsRoot
pub mod Ends
pub mod XmlFile
pub mod Tests
use rnmap.Base.{ℕ, List, [], ◌∷◌, ◌++◌, Result, ok, err}
use rnmap.Text.{Text}
use rnmap.Errors.{IoError}
use rnmap.Report.{ScanReport}
use rnmap.Output
use rnmap.Output.{OutputFormat}
use rnmap.Args.{rewrite_nmap_args}
use rnmap.Cli.{Cli, Failure}
use rnmap.Host.{World}
use rnmap.Run.{run}
use rnmap.Files.{planned, write_all}
use Messages.{Console, messages}

-- How the program ends: `clap` may end it with a text of its own, and the rewriting of the arguments may
-- panic.
pub data Exit : Type 0 where
  success panicked : Exit
  usage : Text → Exit
  failed : Failure → Exit
  io_failed : IoError → Exit

-- What is printed on the two outputs, the files that are written, and the end.
pub record Outcome : Type 0 where
  pub stderr : List Text
  pub stdout : Text
  pub files : List (Text × Text)
  pub ended : Exit

module _ (world : World) (console : Console world.Time)
    (fs : Text → Text → Result (Unit {0}) IoError) where
  unfoldable pub exit_of : Result (Unit {0}) IoError → Exit
  exit_of (ok done) = success
  exit_of (err e) = io_failed e

  -- The report is printed, whatever files are asked for, and then the files are written.
  unfoldable pub output : Cli → List Text → Result (ScanReport world.Time) Failure → Outcome
  unfolding exit_of
  output cli stderr (err e) = record { stderr = stderr; stdout = []; files = []; ended = failed e }
  output cli stderr (ok report) =
      let written = write_all fs (planned console.printers cli report) in
      record {
        stderr = stderr;
        stdout = Output.render console.printers report OutputFormat.normal cli.only_open;
        files = written.files;
        ended = exit_of written.ended;
      }

  -- `main` from the options on: the arguments as they were given, and when the scan began and ended.
  unfoldable pub main_of : Cli → List Text → world.Time → world.Time → ℕ → Outcome
  unfolding output
  main_of cli args started_at ended_at elapsed =
      output cli (messages world cli console) (run world cli args started_at ended_at elapsed)

  -- What `clap` makes of the rewritten arguments.
  unfoldable pub parsed : List Text → world.Time → world.Time → ℕ → Result Cli Text → Outcome
  unfolding main_of
  parsed args started_at ended_at elapsed (err e) = record {
    stderr = [];
    stdout = [];
    files = [];
    ended = usage e;
  }
  parsed args started_at ended_at elapsed (ok cli) = main_of cli args started_at ended_at elapsed

  -- `main`, with `Cli::parse_from` as a parameter.
  unfoldable pub main :
      (List Text → Result Cli Text) → List Text → world.Time → world.Time → ℕ → Outcome
  unfolding parsed
  main parse_from args started_at ended_at elapsed = elim (rewrite_nmap_args args) [
    | err p ↦ record { stderr = []; stdout = []; files = []; ended = panicked }
    | ok rewritten ↦ parsed args started_at ended_at elapsed (parse_from rewritten)
  ]

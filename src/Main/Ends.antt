-- ===== src/Main/Ends.antt =====
-- What the program has printed and written at its end, by how it ends.
use rnmap.Base.{ℕ, ◌≡◌, refl, ap, List, [], ◌∷◌, ◌++◌, Result, ok, err}
use rnmap.Text.{Text}
use rnmap.Errors.{IoError}
use rnmap.Report.{ScanReport}
use rnmap.Output
use rnmap.Output.{OutputFormat}
use rnmap.Args.{rewrite_nmap_args}
use rnmap.Cli.{Cli}
use rnmap.Host.{World}
use rnmap.Run.{run}
use rnmap.Files.{Written, planned, write_all}
use rnmap.Main.{Exit, success, panicked, usage, failed, io_failed, Outcome}
use rnmap.Main.Messages.{Console}

module _ (fs : Text → Text → Result (Unit {0}) IoError) where
  -- All planned files were written, or those in front of the first that cannot be.
  abbrev pub IsWritten :
      List (Text × Text) → List (Text × Text) → Result (Unit {0}) IoError → Type 0
  IsWritten plan files (ok done) = files ≡ plan
  IsWritten plan files (err e) =
      (path : Text) × (contents : Text) × (rest : List (Text × Text)) × (plan
        ≡ files ++ (path, contents) ∷ rest)
      × (fs path contents ≡ err e)

  cons-IsWritten :
      (file : Text × Text) (plan files : List (Text × Text)) (ended : Result (Unit {0}) IoError)
      → IsWritten plan files ended
      → IsWritten (file ∷ plan) (file ∷ files) ended
  cons-IsWritten file plan files (ok done) h = ap (λ fs. file ∷ fs) h
  cons-IsWritten file plan files (err e) (path, contents, rest, h, unwritten) =
      (path, contents, rest, ap (λ fs. file ∷ fs) h, unwritten)

  pub write_all-IsWritten :
      (plan : List (Text × Text))
      → IsWritten plan (write_all fs plan).files (write_all fs plan).ended
  unfolding write_all
  write_all-IsWritten [] = refl
  write_all-IsWritten ((path, contents) ∷ rest) =
      go (fs path contents) refl (write_all-IsWritten rest)
    where
      more : Written
      more = write_all fs rest

      first : Result (Unit {0}) IoError → Written
      first r = elim r [
        | err e ↦ record { files = []; ended = err e }
        | ok done ↦ record { files = (path, contents) ∷ more.files; ended = more.ended }
      ]

      go :
          (r : Result (Unit {0}) IoError)
          → fs path contents ≡ r
          → IsWritten rest more.files more.ended
          → IsWritten ((path, contents) ∷ rest) (first r).files (first r).ended
      go (err e) h written = (path, contents, rest, refl, h)
      go (ok done) h written = cons-IsWritten (path, contents) rest more.files more.ended written

module _ (world : World) (console : Console world.Time)
    (fs : Text → Text → Result (Unit {0}) IoError) (parse_from : List Text → Result Cli Text)
    (args : List Text) (started ended : world.Time) (elapsed : ℕ) where
  -- The scan of these options gave the report.
  abbrev pub Gives : Cli → ScanReport world.Time → Type 0
  Gives cli report =
      ((rewritten : List Text) × (rewrite_nmap_args args ≡ ok rewritten)
        × (parse_from rewritten ≡ ok cli))
      × (run world cli args started ended elapsed ≡ ok report)

  abbrev pub normal_text : Cli → ScanReport world.Time → Text
  normal_text cli report = Output.render console.printers report OutputFormat.normal cli.only_open

  -- What the end says of the text on the standard output and of the files.
  abbrev pub Accounts : Exit → Text → List (Text × Text) → Type 0
  Accounts success stdout files =
      (cli : Cli) × (report : ScanReport world.Time) × Gives cli report
      × (stdout ≡ normal_text cli report)
      × (files ≡ planned console.printers cli report)
  Accounts (io_failed e) stdout files =
      (cli : Cli) × (report : ScanReport world.Time) × Gives cli report
      × (stdout ≡ normal_text cli report)
      × IsWritten fs (planned console.printers cli report) files (err e)
  Accounts panicked stdout files = (stdout ≡ []) × (files ≡ [])
  Accounts (usage text) stdout files = (stdout ≡ []) × (files ≡ [])
  Accounts (failed why) stdout files = (stdout ≡ []) × (files ≡ [])

  abbrev AccountsOf : Outcome → Type 0
  AccountsOf o = Accounts o.ended o.stdout o.files

-- ===== src/Files.antt =====
-- crates/rnmap/src/main.rs: the files that are written at the end, with `Path::with_extension`. A path
-- is a text of the Unix form.
pub mod Basename
pub mod Tests
use rnmap.Base.{
  ℕ, Bool, List, [], ◌∷◌, ◌++◌, Option, none, some, ◌==◌, ◌||◌, if◌then◌else◌, is_empty, Result, ok,
  err,
}
use rnmap.Text.{Text, codes, text_eq, join}
use rnmap.Text.Split.{split}
use rnmap.Errors.{IoError}
use rnmap.Report.{ScanReport}
use rnmap.Output
use rnmap.Output.{OutputFormat}
use rnmap.Output.Formats.{Printers}
use rnmap.Cli.{Cli}

-- The text before the last dot.
pub before_last_dot : Text → Option Text
before_last_dot [] = none
before_last_dot (c ∷ s) = elim (before_last_dot s) [
  | some before ↦ some (c ∷ before)
  | none ↦ if c == b'.' then some [] else none
]

-- `file_stem`: a name without a dot, or with its only dot in front, is its own stem.
pub stem : Text → Text
unfolding before_last_dot
stem name = elim (before_last_dot name) [
  | none ↦ name
  | some [] ↦ name
  | some (c ∷ before) ↦ c ∷ before
]

-- What is found of the last component: nothing yet, a `..`, or a name, with all components after the
-- replacement of its extension.
pub data Found : Type 0 where
  nothing : Found
  parent : Found
  replaced : List Text → Found

pub last_component : Text → Text → Found
unfolding stem
last_component ext c =
    if is_empty c || text_eq c (codes ".")
    then nothing
    else if text_eq c (codes "..")
    then parent
    else replaced ((stem c ++ b'.' ∷ ext) ∷ [])

-- The components from the back; empty ones and `.` at the end are dropped.
pub replace_last : Text → List Text → Found
unfolding last_component
replace_last ext [] = nothing
replace_last ext (c ∷ cs) = elim (replace_last ext cs) [
  | nothing ↦ last_component ext c
  | parent ↦ parent
  | replaced components ↦ replaced (c ∷ components)
]

-- The path of what was found; without a name the path is kept.
pub path_of : Text → Found → Text
path_of path nothing = path
path_of path parent = path
path_of path (replaced components) = join (codes "/") components

unfoldable pub with_extension : Text → Text → Text
unfolding replace_last path_of
with_extension path ext = path_of path (replace_last ext (split b'/' path))

-- The files of an option, if it is given.
abbrev pub given : (Text → List (Text × Text)) → Option Text → List (Text × Text)
given files none = []
given files (some path) = files path

module _ {Time : Type 0} (printers : Printers Time) (cli : Cli) (report : ScanReport Time) where
  unfoldable pub rendered : OutputFormat → Text
  rendered format = Output.render printers report format cli.only_open

  -- The files of `-oA`, `-oN`, `-oX` and `-oJ`, in the order in which they are written.
  unfoldable pub planned : List (Text × Text)
  unfolding rendered
  planned =
      given
        (λ p.
          (with_extension p (codes "nmap"), rendered OutputFormat.normal)
          ∷ (with_extension p (codes "xml"), rendered OutputFormat.xml)
          ∷ (with_extension p (codes "json"), rendered OutputFormat.json)
          ∷ [])
        cli.o_a
      ++ (given (λ p. (p, rendered OutputFormat.normal) ∷ []) cli.o_n
          ++ (given (λ p. (p, rendered OutputFormat.xml) ∷ []) cli.o_x
              ++ given (λ p. (p, rendered OutputFormat.json) ∷ []) cli.o_j))

-- `std::fs::write` of each, up to the first that fails; `ended` has the files written before.
pub record Written : Type 0 where
  pub files : List (Text × Text)
  pub ended : Result (Unit {0}) IoError

unfoldable pub write_all : (Text → Text → Result (Unit {0}) IoError) → List (Text × Text) → Written
write_all fs [] = record { files = []; ended = ok tt }
write_all fs ((path, contents) ∷ rest) =
    let more = write_all fs rest in
    elim (fs path contents) [
      | err e ↦ record { files = []; ended = err e }
      | ok done ↦ record { files = (path, contents) ∷ more.files; ended = more.ended }
    ]

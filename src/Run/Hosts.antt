-- ===== src/Run/Hosts.antt =====
-- The hosts of the report.
use rnmap.Base.{ℕ, ◌+◌, List, [], ◌∷◌}
use rnmap.Text.{Text}
use rnmap.Report.{HostResult}
use rnmap.Timing.{Timing}
use rnmap.Target.{ResolvedHost}
use rnmap.Cli.{Cli}
use rnmap.Host.{World}
use rnmap.Host.Fallback.{IsEntry}

module _ (world : World) (cli : Cli) where
  -- The entries are those of the targets, one for each, in order; `k` is the number of the first.
  pub Entries : Timing → ℕ → List ResolvedHost → List (HostResult world.Time) → Type 0
  Entries timing k [] [] = Unit
  Entries timing k [] (h ∷ hs) = ⊥
  Entries timing k (r ∷ rs) [] = ⊥
  Entries timing k (r ∷ rs) (h ∷ hs) = IsEntry world cli timing k r h × Entries timing (k + 1) rs hs

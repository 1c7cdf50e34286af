-- ===== src/Connect/Agreement.antt =====
-- The connect scan reports the state of the port.
use rnmap.Base.{ℕ, zero, suc, ◌+◌, ◌≡◌, refl, true, false, List, [], Option, none}
use rnmap.Text.{Text}
use rnmap.Errors.{IoError}
use rnmap.Timing.{Timing}
use rnmap.Report.Behaviour.{Behaviour, accepts, refuses, drops, expected}
use rnmap.Connect.{
  Connected, connected, failed, is_reset, Event, open_result, closed_result, filtered_result,
  attempts, scan,
}
use rnmap.Connect.Verdict.{decides, decided, attempts-decided, attempts-undecided}

module _ (network : ℕ → Connected) where
  -- What the attempts from a number on, so many of them, meet at a port. An attempt may be lost, by a
  -- timeout or another error that says nothing of the port.
  pub data Meets : Behaviour → ℕ → ℕ → Type 0 where
    lost :
        {b : Behaviour} {n rounds : ℕ}
        → decides (network n) ≡ false
        → Meets b (n + 1) rounds
        → Meets b n (suc rounds)
    accepted : {n rounds : ℕ} → network n ≡ connected → Meets accepts n (suc rounds)
    refused :
        {n rounds : ℕ} {e : IoError}
        → network n ≡ failed e
        → is_reset e.kind ≡ true
        → Meets refuses n (suc rounds)
    unanswered : {n : ℕ} → Meets drops n zero

  attempts-state :
      (port max_retries : ℕ) (clock : ℕ → ℕ) {b : Behaviour} (rounds n : ℕ) (last_err : Option Text)
      (events : List Event)
      → Meets b n rounds
      → (attempts port max_retries network clock rounds n last_err events).result.state ≡ expected b
  unfolding expected decided open_result closed_result filtered_result attempts
  attempts-state port max_retries clock (suc rounds) n last_err events (lost h more) =
      rw (attempts-undecided port max_retries network clock rounds n last_err events h)
        (attempts-state port max_retries clock rounds (n + 1) _ _ more)
  attempts-state port max_retries clock (suc rounds) n last_err events (accepted h) =
      rw (attempts-decided port max_retries network clock rounds n last_err events (rw h refl))
        (rw h refl)
  attempts-state port max_retries clock (suc rounds) n last_err events (refused h r) =
      rw (attempts-decided port max_retries network clock rounds n last_err events (rw h r))
        (rw h refl)
  attempts-state port max_retries clock zero n last_err events unanswered = refl

  pub scan-state :
      (port : ℕ) (timing : Timing) (clock : ℕ → ℕ) {b : Behaviour}
      → Meets b 0 (timing.max_retries + 1)
      → (scan port timing network clock).result.state ≡ expected b
  unfolding scan
  scan-state port timing clock met =
      attempts-state port timing.max_retries clock (timing.max_retries + 1) 0 none [] met

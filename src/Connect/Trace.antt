-- ===== src/Connect/Trace.antt =====
-- What a connect scan does to its environment: its attempts and the waits between them.
use rnmap.Base.{
  ℕ, zero, suc, ◌+◌, ◌*◌, ◌≤◌, ◌<◌, ◌≡◌, refl, ◌∙◌, List, [], ◌∷◌, ◌++◌, append_assoc, Option, none,
  some, arith, if◌then◌else◌, Bool-cases, inl, inr,
}
use native.Mathlib.Numerals.{add-one}
use rnmap.Text.{Text}
use rnmap.Timing.{Timing}
use rnmap.Connect.{Connected, Event, attempt, sleep, pause, attempts, scan}
use rnmap.Connect.Verdict.{decides, complaint, attempts-decided, attempts-undecided}

-- The attempts from `n` on, `more` of them after the first, with a growing wait between two.
pub trace : ℕ → ℕ → List Event
trace n zero = attempt n ∷ []
trace n (suc more) = attempt n ∷ sleep (50 * (n + 1)) ∷ trace (n + 1) more

-- How many attempts follow the one of number `n`, with `rounds` left after it.
pub followers : (ℕ → Connected) → ℕ → ℕ → ℕ
followers network zero n = 0
followers network (suc rounds) n =
    let later = suc (followers network rounds (n + 1)) in if decides (network n) then 0 else later

module _ (port max_retries : ℕ) (network : ℕ → Connected) (clock : ℕ → ℕ) where
  pause_between :
      (n : ℕ) → n < max_retries → pause port max_retries network clock n ≡ sleep (50 * (n + 1)) ∷ []
  unfolding pause
  pause_between n h = ground arith

  events-attempts :
      (rounds n : ℕ) (last_err : Option Text) (events : List Event)
      → n + rounds ≡ max_retries
      → (attempts port max_retries network clock (suc rounds) n last_err events).events
        ≡ events ++ trace n (followers network rounds n)
  unfolding trace followers
  events-attempts zero n last_err events h = elim (Bool-cases (decides (network n))) [
    | inl done ↦
        rw (attempts-decided port max_retries network clock zero n last_err events done) refl
    | inr more ↦
        rw (attempts-undecided port max_retries network clock zero n last_err events more)
          (unfold attempts pause in ground arith)
  ]
  events-attempts (suc rounds) n last_err events h = elim (Bool-cases (decides (network n))) [
    | inl done ↦
        rw
          (
            attempts-decided port max_retries network clock (suc rounds) n last_err events done,
            done,
          )
          refl
    | inr more ↦
        rw
          (
            attempts-undecided port max_retries network clock (suc rounds) n last_err events more,
            more,
          )
          (events-attempts rounds (n + 1) (some (complaint (network n))) _ (omega arith)
            ∙ (append_assoc events (attempt n ∷ pause port max_retries network clock n) _
                ∙ rw (pause_between n (omega arith)) refl))
  ]

followers-le : (network : ℕ → Connected) (rounds n : ℕ) → followers network rounds n ≤ rounds
unfolding followers
followers-le network zero n = omega arith
followers-le network (suc rounds) n = ground (arith, followers-le network rounds (n + 1))

-- The scan makes attempts 0, 1, 2, … up to the first that decides the port, at most
-- `max_retries + 1` of them, and waits 50, 100, 150, … milliseconds between two.
pub events-scan :
    (port : ℕ) (timing : Timing) (network : ℕ → Connected) (clock : ℕ → ℕ)
    → ((scan port timing network clock).events ≡ trace 0 (followers network timing.max_retries 0))
      × (followers network timing.max_retries 0 ≤ timing.max_retries)
unfolding scan
events-scan port timing network clock = (
  rw add-one (
      events-attempts port timing.max_retries network clock timing.max_retries 0 none []
        (omega arith)),
  followers-le network timing.max_retries 0,
)

-- ===== src/Connect/Verdict.antt =====
-- The result of a connect scan: that of the first attempt that decides it.
use rnmap.Base.{
  ℕ, zero, suc, ◌+◌, ◌≡◌, refl, ap, Bool, true, false, List, [], ◌∷◌, ◌++◌, Option, none, some,
  arith, if◌then◌else◌, Bool-cases, inl, inr,
}
use native.Mathlib.Numerals.{add-one}
use rnmap.Text.{Text, codes}
use rnmap.Report.{PortResult}
use rnmap.Report.Behaviour.{IsFresh}
use rnmap.Timing.{Timing}
use rnmap.Connect.{
  Connected, connected, failed, timed_out, is_reset, Event, attempt, open_result, closed_result,
  filtered_result, pause, attempts, scan,
}

-- An attempt decides the port if the connection is made, refused or reset.
abbrev pub decides : Connected → Bool
decides connected = true
decides (failed e) = is_reset e.kind
decides timed_out = false

-- What a decided port is reported as.
unfoldable pub decided : ℕ → ℕ → Connected → PortResult
decided port ms connected = open_result port ms
decided port ms (failed e) = closed_result port ms
decided port ms timed_out = closed_result port ms

-- The reason that an attempt leaves for a port that stays undecided.
abbrev pub complaint : Connected → Text
complaint connected = []
complaint (failed e) = e.message
complaint timed_out = codes "timeout"

module _ (network : ℕ → Connected) where
  -- The first deciding attempt among `rounds` of them from the number `n`.
  pub first_decisive : ℕ → ℕ → Option ℕ
  first_decisive zero n = none
  first_decisive (suc rounds) n =
      let later = first_decisive rounds (n + 1) in if decides (network n) then some n else later

module _ (port max_retries : ℕ) (network : ℕ → Connected) (clock : ℕ → ℕ) where
  -- The result by the first deciding attempt; without one, by the last attempt.
  pub verdict : Option ℕ → PortResult
  unfolding decided
  verdict (some k) = decided port (clock k) (network k)
  verdict none = filtered_result port (some (complaint (network max_retries)))

  pub attempts-decided :
      (rounds n : ℕ) (last_err : Option Text) (events : List Event)
      → decides (network n) ≡ true
      → attempts port max_retries network clock (suc rounds) n last_err events
        ≡ record { result = decided port (clock n) (network n); events = events ++ attempt n ∷ [] }
  unfolding attempts decided
  attempts-decided rounds n last_err events h = ground arith

  pub attempts-undecided :
      (rounds n : ℕ) (last_err : Option Text) (events : List Event)
      → decides (network n) ≡ false
      → attempts port max_retries network clock (suc rounds) n last_err events
        ≡ attempts port max_retries network clock rounds
            (n + 1)
            (some (complaint (network n)))
            (events ++ attempt n ∷ pause port max_retries network clock n)
  unfolding attempts
  attempts-undecided rounds n last_err events h = ground arith

  result-attempts :
      (rounds n : ℕ) (last_err : Option Text) (events : List Event)
      → n + rounds ≡ max_retries
      → (attempts port max_retries network clock (suc rounds) n last_err events).result
        ≡ verdict (first_decisive network (suc rounds) n)
  unfolding first_decisive verdict
  result-attempts zero n last_err events h = elim (Bool-cases (decides (network n))) [
    | inl done ↦ rw (attempts-decided zero n last_err events done, done) refl
    | inr more ↦
        let same : n ≡ max_retries = omega arith in
        rw (attempts-undecided zero n last_err events more, more)
          (unfold attempts in ap (λ k. filtered_result port (some (complaint (network k)))) same)
  ]
  result-attempts (suc rounds) n last_err events h = elim (Bool-cases (decides (network n))) [
    | inl done ↦ rw (attempts-decided (suc rounds) n last_err events done, done) refl
    | inr more ↦
        rw (attempts-undecided (suc rounds) n last_err events more, more)
          (result-attempts rounds (n + 1) (some (complaint (network n))) _ (omega arith))
  ]

-- The scan reports what the first of its `max_retries + 1` attempts that decides the port shows: open
-- if the connection was made, closed if it was refused or reset, with the time of that attempt. If
-- none does, the port is filtered, for the reason of the last attempt.
pub result-scan :
    (port : ℕ) (timing : Timing) (network : ℕ → Connected) (clock : ℕ → ℕ)
    → (scan port timing network clock).result
      ≡ verdict port timing.max_retries network clock
          (first_decisive network (timing.max_retries + 1) 0)
unfolding scan
result-scan port timing network clock = rw add-one (
    result-attempts port timing.max_retries network clock timing.max_retries 0 none []
      (omega arith))

decided-IsFresh : (port ms : ℕ) (c : Connected) → IsFresh port (decided port ms c)
unfolding decided open_result closed_result
decided-IsFresh port ms connected = (refl, refl)
decided-IsFresh port ms (failed e) = (refl, refl)
decided-IsFresh port ms timed_out = (refl, refl)

verdict-IsFresh :
    (port max_retries : ℕ) (network : ℕ → Connected) (clock : ℕ → ℕ) (o : Option ℕ)
    → IsFresh port (verdict port max_retries network clock o)
unfolding verdict
verdict-IsFresh port max_retries network clock (some k) = decided-IsFresh port (clock k) (network k)
verdict-IsFresh port max_retries network clock none = unfold filtered_result in (refl, refl)

-- The result is about the port that was asked for, and names no service.
pub scan-IsFresh :
    (port : ℕ) (timing : Timing) (network : ℕ → Connected) (clock : ℕ → ℕ)
    → IsFresh port (scan port timing network clock).result
scan-IsFresh port timing network clock = rw result-scan (
    verdict-IsFresh port timing.max_retries network clock
      (first_decisive network (timing.max_retries + 1) 0))

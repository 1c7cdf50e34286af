-- ===== src/Connect/Tests.antt =====
-- The theorems on the connect scan: the first attempt times out, and the second is accepted.
use rnmap.Base.{ℕ, ◌+◌, ◌≡◌, ◌≤◌, ◌==◌, if◌then◌else◌}
use rnmap.Timing.{new}
use rnmap.Connect.{Connected, connected, timed_out, scan}
use rnmap.Connect.Verdict.{verdict, first_decisive, result-scan}
use rnmap.Connect.Trace.{trace, followers, events-scan}

abbrev late_answer : ℕ → Connected
late_answer n = if n == 1 then connected else timed_out

result-scan_example :
    (scan 443 (new 3) late_answer (λ n. n)).result
    ≡ verdict 443
        (new 3).max_retries
        late_answer
        (λ n. n)
        (first_decisive late_answer ((new 3).max_retries + 1) 0)
result-scan_example = result-scan 443 (new 3) late_answer (λ n. n)

events-scan_example :
    ((scan 443 (new 3) late_answer (λ n. n)).events
      ≡ trace 0 (followers late_answer (new 3).max_retries 0))
    × (followers late_answer (new 3).max_retries 0 ≤ (new 3).max_retries)
events-scan_example = events-scan 443 (new 3) late_answer (λ n. n)

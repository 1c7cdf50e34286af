-- ===== src/Timing/Order.antt =====
-- A higher template is faster.
use rnmap.Base.{ℕ, ◌≤◌, ◌<◌, arith}
use rnmap.Timing.{Timing, new}

-- From one level to a higher one the parallelism does not fall and no timeout or retry count rises.
pub record IsFaster (s t : Timing) : Type 0 where
  pub parallel : s.max_parallel ≤ t.max_parallel
  pub connect : t.connect_timeout ≤ s.connect_timeout
  pub reading : t.read_timeout ≤ s.read_timeout
  pub retries : t.max_retries ≤ s.max_retries

-- A template of a higher number is at least as fast in each respect, whatever the two numbers.
pub new-IsFaster : (a b : ℕ) → a ≤ b → IsFaster (new a) (new b)
unfolding new
new-IsFaster a b h = record {
  parallel = ground arith;
  connect = ground arith;
  reading = ground arith;
  retries = ground arith;
}

-- Up to level 5 each step has strictly more parallel probes.
pub max_parallel-new : (a b : ℕ) → a < b → b ≤ 5 → (new a).max_parallel < (new b).max_parallel
unfolding new
max_parallel-new a b h k = ground arith

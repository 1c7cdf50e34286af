-- ===== src/Timing.antt =====
-- crates/rnmap-core/src/timing.rs: the timing templates. Durations are in milliseconds.
pub mod Order
pub mod Unit
use rnmap.Base.{ℕ, ◌*◌, ◌==◌, if◌then◌else◌}

pub record Timing : Type 0 where
  pub level : ℕ
  pub max_parallel : ℕ
  pub connect_timeout : ℕ
  pub read_timeout : ℕ
  pub max_retries : ℕ
  pub host_timeout : ℕ

abbrev from_secs : ℕ → ℕ
from_secs s = s * 1000

-- `Timing::new`; every level above 4 is the last template.
unfoldable pub new : ℕ → Timing
new level =
    if level == 0
    then record {
      level = 0;
      max_parallel = 1;
      connect_timeout = from_secs 15;
      read_timeout = from_secs 10;
      max_retries = 5;
      host_timeout = 0;
    }
    else if level == 1
    then record {
      level = 1;
      max_parallel = 5;
      connect_timeout = from_secs 10;
      read_timeout = from_secs 8;
      max_retries = 3;
      host_timeout = 0;
    }
    else if level == 2
    then record {
      level = 2;
      max_parallel = 30;
      connect_timeout = from_secs 5;
      read_timeout = from_secs 5;
      max_retries = 2;
      host_timeout = 0;
    }
    else if level == 3
    then record {
      level = 3;
      max_parallel = 100;
      connect_timeout = from_secs 3;
      read_timeout = from_secs 3;
      max_retries = 2;
      host_timeout = 0;
    }
    else if level == 4
    then record {
      level = 4;
      max_parallel = 300;
      connect_timeout = 1500;
      read_timeout = from_secs 2;
      max_retries = 1;
      host_timeout = 0;
    }
    else record {
      level = 5;
      max_parallel = 1000;
      connect_timeout = 800;
      read_timeout = from_secs 1;
      max_retries = 1;
      host_timeout = from_secs 900;
    }

-- `Timing::default`.
pub default : Timing
unfolding new
default = new 3

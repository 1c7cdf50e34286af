-- ===== src/Connect.antt =====
-- crates/rnmap-core/src/scan/connect.rs: the connect scan of one port. The network and the clock are
-- the environment: what the attempt of each number meets, and the milliseconds since the start.
pub mod Verdict
pub mod Trace
pub mod Agreement
pub mod Unit
pub mod Tests
use rnmap.Base.{
  ℕ, zero, suc, ◌+◌, ◌-◌, ◌*◌, ◌%◌, ◌^◌, Bool, true, false, List, [], ◌∷◌, ◌++◌, Option, none, some,
  ltb, if◌then◌else◌,
}
use rnmap.Text.{Text, codes}
use rnmap.Errors.{ErrorKind, IoError}
use rnmap.Report.{PortResult, Protocol, PortState}
use rnmap.Timing.{Timing}

-- `timeout(…, TcpStream::connect(addr)).await`.
pub data Connected : Type 0 where
  connected : Connected
  failed : IoError → Connected
  timed_out : Connected

-- `ConnectionRefused | ConnectionReset`.
abbrev pub is_reset : ErrorKind → Bool
is_reset ErrorKind.connection_refused = true
is_reset ErrorKind.connection_reset = true
is_reset ErrorKind.would_block = false
is_reset ErrorKind.timed_out = false
is_reset ErrorKind.other_kind = false

-- What the scan does to its environment, in order.
pub data Event : Type 0 where
  attempt : ℕ → Event
  sleep : ℕ → Event

pub record Scanned : Type 0 where
  pub result : PortResult
  pub events : List Event

-- `started.elapsed().as_millis() as u64`.
abbrev pub as_u64 : ℕ → ℕ
as_u64 n = n % 2 ^ 64

pub open_result : ℕ → ℕ → PortResult
open_result port ms = record {
  port = port;
  protocol = Protocol.tcp;
  state = PortState.open_port;
  reason = codes "syn-ack";
  service = none;
  rtt_ms = some (as_u64 ms);
}

pub closed_result : ℕ → ℕ → PortResult
closed_result port ms = record {
  port = port;
  protocol = Protocol.tcp;
  state = PortState.closed;
  reason = codes "conn-refused";
  service = none;
  rtt_ms = some (as_u64 ms);
}

pub filtered_result : ℕ → Option Text → PortResult
filtered_result port last_err = record {
  port = port;
  protocol = Protocol.tcp;
  state = PortState.filtered;
  reason = elim last_err [ none ↦ codes "no-response" | some e ↦ e ];
  service = none;
  rtt_ms = none;
}

module _ (port max_retries : ℕ) (network : ℕ → Connected) (clock : ℕ → ℕ) where
  -- The wait before the next attempt, if one is left.
  pub pause : ℕ → List Event
  pause n = if ltb n max_retries then sleep (50 * (n + 1)) ∷ [] else []

  -- `for attempt in 0..=max_retries`: the rounds left, the attempt's number, the last error and the
  -- events so far.
  pub attempts : ℕ → ℕ → Option Text → List Event → Scanned
  unfolding pause open_result closed_result filtered_result
  attempts zero n last_err events = record {
    result = filtered_result port last_err;
    events = events;
  }
  attempts (suc rounds) n last_err events =
      let next = λ (e : Text). attempts rounds (n + 1) (some e) (events ++ attempt n ∷ pause n) in
      elim (network n) [
        | connected ↦ record {
          result = open_result port (clock n);
          events = events ++ attempt n ∷ [];
        }
        | failed e ↦ elim (is_reset e.kind) [
          | true ↦ record {
            result = closed_result port (clock n);
            events = events ++ attempt n ∷ [];
          }
          | false ↦ next e.message
        ]
        | timed_out ↦ next (codes "timeout")
      ]

-- `scan`.
unfoldable pub scan : ℕ → Timing → (ℕ → Connected) → (ℕ → ℕ) → Scanned
unfolding attempts
scan port timing network clock =
    attempts port timing.max_retries network clock (timing.max_retries + 1) 0 none []

-- ===== src/Errors.antt =====
-- crates/rnmap-core/src/error.rs: the crate's error type and its `Result`.
use rnmap.Base.{ℕ, Option}
use rnmap.Text.{Text, codes, ◌++◌}

-- The kinds of `std::io::Error` that the code tells apart; the others are `other_kind`.
pub data ErrorKind : Type 0 where
  connection_refused connection_reset would_block timed_out other_kind : ErrorKind

-- `std::io::Error`, as far as the code reads it.
pub record IoError : Type 0 where
  pub kind : ErrorKind
  pub raw_os_error : Option ℕ
  pub message : Text

pub data Error : Type 0 where
  target : Text → Text → Error
  ports : Text → Text → Error
  dns : Text → Text → Error
  privilege : Text → Error
  io : IoError → Error
  timeout : ℕ → Error
  output : Text → Error
  other : Text → Error

-- The `#[error("…")]` texts; `debug` prints the duration of `Timeout`.
unfoldable pub display : (ℕ → Text) → Error → Text
display debug (target spec why) = codes "invalid target spec `" ++ (spec ++ (codes "`: " ++ why))
display debug (ports spec why) = codes "invalid port spec `" ++ (spec ++ (codes "`: " ++ why))
display debug (dns name why) = codes "DNS resolution failed for `" ++ (name ++ (codes "`: " ++ why))
display debug (privilege why) =
    codes "raw socket scan requires elevated privileges (root or CAP_NET_RAW): " ++ why
display debug (io e) = codes "io error: " ++ e.message
display debug (timeout d) = codes "scan timed out after " ++ debug d
display debug (output why) = codes "output error: " ++ why
display debug (other why) = codes "internal: " ++ why

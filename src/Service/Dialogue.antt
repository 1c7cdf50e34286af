-- ===== src/Service/Dialogue.antt =====
-- crates/rnmap-core/src/service.rs: `detect`, the dialogue with an open port. The stream is the
-- environment.
use rnmap.Base.{
  ℕ, [], ◌∷◌, ◌++◌, Option, none, some, ◌==◌, ◌||◌, if◌then◌else◌, is_empty, take, contains, Bytes,
  Result, ok, err, Bool,
}
use rnmap.Text.{Text, codes}
use rnmap.Text.Space.{trim_end_matches}
use rnmap.Text.Utf8.{from_utf8_lossy}
use rnmap.Errors.{IoError}
use rnmap.Report.{ServiceInfo}
use rnmap.Service.{guess_from_banner}
use rnmap.Service.Pattern.{Regex}

-- The probe that is sent where no banner came, by the port; the others wait once more.
pub data Action : Type 0 where
  send : Text → Action
  wait_and_read : Action

abbrev crlf : Text
crlf = 13 ∷ 10 ∷ []

pub probe_for : ℕ → Action
probe_for port =
    if contains (80 ∷ 8080 ∷ 8000 ∷ 8888 ∷ 81 ∷ 591 ∷ 8008 ∷ 8081 ∷ []) port
    then send (
        codes "GET / HTTP/1.0"
        ++ (crlf
            ++ (codes "Host: rnmap"
                ++ (crlf ++ (codes "User-Agent: rnmap/0.1" ++ (crlf ++ crlf))))))
    else if port == 25 || port == 587
    then send (codes "EHLO rnmap.local" ++ crlf)
    else if port == 110
    then send (codes "QUIT" ++ crlf)
    else if port == 143
    then send (codes "a001 CAPABILITY" ++ crlf)
    else if port == 21
    then send crlf
    else wait_and_read

-- What the stream meets: the connection, the read of the banner, whether the write of a probe ended
-- in time (its own error is ignored), and the read after it. `none` is a timeout.
pub record Stream : Type 0 where
  pub opened : Bool
  pub banner : Option (Result Bytes IoError)
  pub written : Text → Bool
  pub reply : Option (Result Bytes IoError)

pub read_ok : Option (Result Bytes IoError) → Option Bytes
read_ok none = none
read_ok (some (ok bytes)) = some bytes
read_ok (some (err e)) = none

-- `send_probe_for`.
pub send_probe_for : Action → Stream → Option Bytes
unfolding read_ok
send_probe_for (send payload) stream = if stream.written payload then read_ok stream.reply else none
send_probe_for wait_and_read stream = read_ok stream.reply

abbrev pub or_nothing : Option Bytes → Bytes
or_nothing none = []
or_nothing (some bytes) = bytes

-- The banner, or the reply to a probe where the banner is missing or empty.
unfoldable pub collect : ℕ → Stream → Option (Result Bytes IoError) → Bytes
unfolding send_probe_for probe_for
collect port stream (some (ok (b ∷ bytes))) = b ∷ bytes
collect port stream _ = or_nothing (send_probe_for (probe_for port) stream)

-- The report of a banner that has been decoded. NULs at its end are cut off, and 256 characters kept.
unfoldable pub describe : Regex → ℕ → Text → ServiceInfo
unfolding guess_from_banner
describe regex port text =
    let trimmed = trim_end_matches (λ c. c == 0) text in
    let svc = guess_from_banner regex port trimmed in
    record {
      name = svc.name;
      product = svc.product;
      version = svc.version;
      banner = if is_empty trimmed then none else some (take 256 trimmed);
    }

-- `detect`.
unfoldable pub detect : Regex → ℕ → Stream → Option ServiceInfo
unfolding describe collect from_utf8_lossy
detect regex port stream =
    if stream.opened
    then some (describe regex port (from_utf8_lossy (collect port stream stream.banner)))
    else none

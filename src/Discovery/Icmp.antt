-- ===== src/Discovery/Icmp.antt =====
-- What the ICMP ping reports of a host.
use rnmap.Base.{Bool, true, false, Bytes, Result, ok, err}
use rnmap.Text.{Text}
use rnmap.Errors.{Error, IoError}
use rnmap.Packet.Safety.{stripped}
use rnmap.Discovery.{is_wait, first_is_zero}

-- The answer to an echo request that was sent.
abbrev pub verdict : Result Bytes IoError → Result Bool Error
verdict (ok bytes) = ok (first_is_zero (stripped bytes))
verdict (err e) = elim (is_wait e.kind) [ true ↦ ok false | false ↦ err (Error.io e) ]

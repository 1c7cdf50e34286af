-- ===== src/Report/Behaviour.antt =====
-- What a TCP port does with a connection request, as RFC 9293 has it, and the state that a scan should
-- report for it. It is the specification of both kinds of scan.
use rnmap.Base.{ℕ, ◌≡◌, none}
use rnmap.Report.{PortState, PortResult}

-- The port has a listener, has none, or its packets are dropped on the way.
pub data Behaviour : Type 0 where
  accepts refuses drops : Behaviour

unfoldable pub expected : Behaviour → PortState
expected accepts = PortState.open_port
expected refuses = PortState.closed
expected drops = PortState.filtered

-- The result is of the port, and no service has been detected for it.
abbrev pub IsFresh : ℕ → PortResult → Type 0
IsFresh port r = (r.port ≡ port) × (r.service ≡ none)

-- The flags of the answer to a SYN: SYN with ACK, or RST with ACK. A port that drops packets has none.
unfoldable pub answer_flags : Behaviour → ℕ
answer_flags accepts = 0x12
answer_flags refuses = 0x14
answer_flags drops = 0

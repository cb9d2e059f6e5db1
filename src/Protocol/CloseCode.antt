-- ===== src/Protocol/CloseCode.antt =====
-- `DefiniteCloseCode` of include/WSProtocol.h.
use lapp_s.Common.{ℕ}

abbrev pub normal : ℕ
normal = 1000

abbrev pub shutdown : ℕ
shutdown = 1001

abbrev pub protocol_violation : ℕ
protocol_violation = 1002

abbrev pub no_comprende : ℕ
no_comprende = 1003

abbrev pub bad_data : ℕ
bad_data = 1007

abbrev pub policy_violation : ℕ
policy_violation = 1008

abbrev pub message_too_big : ℕ
message_too_big = 1009

abbrev pub unsupported_extension : ℕ
unsupported_extension = 1010

abbrev pub unexpected_condition : ℕ
unexpected_condition = 1011

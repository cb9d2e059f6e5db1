-- ===== src/Protocol/OpCode.antt =====
-- `OpCode` of include/WSProtocol.h.
use lapp_s.Common.{ℕ}

abbrev pub continue : ℕ
continue = 0

abbrev pub text : ℕ
text = 1

abbrev pub binary : ℕ
binary = 2

abbrev pub close : ℕ
close = 8

abbrev pub ping : ℕ
ping = 9

abbrev pub pong : ℕ
pong = 10

-- ===== src/Protocol/Supported.antt =====
-- `WS::isOpCodeSupported` of include/WSProtocol.h.
use lapp_s.Common.{ℕ, ◌+◌, ◌/◌, ◌%◌, ◌<◌, true, ◌≡◌, refl, ◌⊎◌, arith}
use lapp_s.Protocol.{is_op_code_supported}
use lapp_s.Protocol.OpCode

abbrev pub IsControl : ℕ → Type 0
IsControl oc = (oc ≡ OpCode.close) ⊎ (oc ≡ OpCode.ping) ⊎ (oc ≡ OpCode.pong)

abbrev pub IsData : ℕ → Type 0
IsData oc = (oc ≡ OpCode.text) ⊎ (oc ≡ OpCode.binary)

pub is_op_code_supported_of : (oc : ℕ) → IsData oc ⊎ IsControl oc → is_op_code_supported oc ≡ true
unfolding is_op_code_supported
is_op_code_supported_of oc h = ground arith

-- The first byte of a whole frame with such an opcode.
pub whole_byte :
    (oc : ℕ)
    → IsData oc ⊎ IsControl oc
    → (oc < 16)
      × (128 + oc < 256)
      × ((128 + oc) / 16 % 8 ≡ 0)
      × ((128 + oc) % 16 ≡ oc)
      × ((128 + oc) / 128 ≡ 1)
whole_byte oc h =
    let small : oc < 16 = ground arith in
    (small, omega arith, omega arith, omega arith, omega arith)

pub continue_supported : is_op_code_supported OpCode.continue ≡ true
unfolding is_op_code_supported
continue_supported = refl

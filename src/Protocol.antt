-- ===== src/Protocol.antt =====
-- include/WSProtocol.h: opcodes, close codes and the length field of a frame; include/WSEvent.h;
-- and the enumerations and records of include/WSStreamProcessingCommon.h.
-- `OpCode` and `DefiniteCloseCode` are enumerations over fixed unsigned types, and the program
-- casts numbers that no enumerator names to them; so they are numbers here, with named values.
pub mod OpCode
pub mod CloseCode
pub mod Length
pub mod Supported
use lapp_s.Common.{
  ℕ, ◌-◌, ◌<◌, ◌^◌, Bool, ◌||◌, List, [], ◌∷◌, ◌++◌, ltb, ◌==◌, if◌then◌else◌, le_bytes, swap_bytes,
}

-- `WS::isOpCodeSupported`
pub is_op_code_supported : ℕ → Bool
is_op_code_supported opcode =
    opcode == 0 || opcode == 1 || opcode == 2 || opcode == 8 || opcode == 9 || opcode == 10

-- `WS::putLength`: what the call appends to `out`. The 16-bit and 64-bit fields are the words
-- `htobe16(pllength)` and `htobe64(pllength)`, byte by byte as they lie in memory.
unfoldable pub put_length : ℕ → List ℕ → List ℕ
put_length pllength out =
    if ltb 65535 pllength
    then out ++ (127 ∷ le_bytes 8 (swap_bytes 8 pllength))
    else if ltb 125 pllength
    then out ++ (126 ∷ le_bytes 2 (swap_bytes 2 pllength))
    else out ++ (pllength ∷ [])

-- `WSEvent`
pub record WsEvent : Type 0 where
  pub type : ℕ
  pub message : List ℕ

-- `State`, `Directive`, `FrameSeq` and `WSFrameSizeType`
pub data State : Type 0 where
  init : State
  header_1st_byte : State
  header_2nd_byte : State
  read_short_size_0 read_short_size_1 : State
  read_long_size_0 read_long_size_1 read_long_size_2 read_long_size_3 : State
  read_long_size_4 read_long_size_5 read_long_size_6 read_long_size_7 : State
  read_mask_0 read_mask_1 read_mask_2 read_mask_3 : State
  validate : State
  payload : State
  done : State
  message_ready : State

pub data Directive : Type 0 where
  more take_ready_message close_with_code continue : Directive

pub data FrameSeq : Type 0 where
  single first middle last : FrameSeq

pub data SizeType : Type 0 where
  min short long : SizeType

-- The arrays `MEDIUM_SIZE[2]`, `LARGE_SIZE[8]` and `MASK[4]`
pub record Two : Type 0 where
  pub b0 : ℕ
  pub b1 : ℕ

pub record Four : Type 0 where
  pub b0 : ℕ
  pub b1 : ℕ
  pub b2 : ℕ
  pub b3 : ℕ

pub record Eight : Type 0 where
  pub b0 : ℕ
  pub b1 : ℕ
  pub b2 : ℕ
  pub b3 : ℕ
  pub b4 : ℕ
  pub b5 : ℕ
  pub b6 : ℕ
  pub b7 : ℕ

-- `FrameHeader`; PAD is never read
pub record FrameHeader : Type 0 where
  pub fin : ℕ
  pub rsv1 : ℕ
  pub rsv2 : ℕ
  pub rsv3 : ℕ
  pub maskflag : ℕ
  pub small_size : ℕ
  pub size_type : SizeType
  pub opcode : ℕ
  pub fseq : FrameSeq
  pub medium_size : Two
  pub large_size : Eight
  pub mask : Four
  pub msg_size : ℕ

-- `Result`
pub record Result : Type 0 where
  pub cursor : ℕ
  pub directive : Directive
  pub c_code : ℕ

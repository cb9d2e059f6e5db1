-- ===== src/Parser.antt =====
-- include/WSStreamParser.h: the state that both stream parsers share, and the operations of the
-- base class. `stream` is the memory that the pointer argument addresses, from index 0.
-- A cursor never passes `limit`, so no `size_t` sum of cursors wraps.
pub mod Utf8
pub mod Copy
pub mod Machine
pub mod Frame
pub mod Delivery
pub mod Buffers
pub mod Validate
pub mod Opening
pub mod Header
pub mod Progress
use lapp_s.Common.{
  ℕ, ◌+◌, ◌-◌, ◌/◌, ◌^◌, Bool, true, false, ◌&&◌, ◌||◌, not, List, [], ◌∷◌, ◌++◌, ltb, ◌==◌,
  if◌then◌else◌, byte_at, of_le_bytes, swap_bytes, replicate, resize, bit_and, bit_or,
}
use lapp_s.Protocol.{
  FrameHeader, Two, Four, Eight, Result, State, Directive, FrameSeq, SizeType, is_op_code_supported,
}
use lapp_s.Protocol.OpCode
use lapp_s.Protocol.CloseCode

-- `opcodes` is the stack of `std::stack`, top first; the shared buffers are the vectors that
-- they hold.
pub record Parser : Type 0 where
  pub pl_bytes_ready : ℕ
  pub cursor : ℕ
  pub max_msg_size : ℕ
  pub out_msg_pre_size : ℕ
  pub header : FrameHeader
  pub opcodes : List ℕ
  pub message : List ℕ
  pub message_frames : List ℕ
  pub buffer_queue : List (List ℕ)
  pub state : State
  pub mask : ℕ

abbrev pub zero_header : FrameHeader
zero_header = record {
  fin = 0;
  rsv1 = 0;
  rsv2 = 0;
  rsv3 = 0;
  maskflag = 0;
  small_size = 0;
  size_type = SizeType.min;
  opcode = 0;
  fseq = FrameSeq.single;
  medium_size = record { b0 = 0; b1 = 0 };
  large_size = record { b0 = 0; b1 = 0; b2 = 0; b3 = 0; b4 = 0; b5 = 0; b6 = 0; b7 = 0 };
  mask = record { b0 = 0; b1 = 0; b2 = 0; b3 = 0 };
  msg_size = 0;
}

-- the constructor
unfoldable pub new_parser : ℕ → Parser
new_parser presz = record {
  pl_bytes_ready = 0;
  cursor = 0;
  max_msg_size = 0;
  out_msg_pre_size = presz;
  header = zero_header;
  opcodes = [];
  message = replicate presz 0;
  message_frames = replicate presz 0;
  buffer_queue = [];
  state = State.init;
  mask = 0;
}

unfoldable pub reset : Parser → Parser
reset p = record p { state = State.header_1st_byte; pl_bytes_ready = 0; header = zero_header }

-- What each of these functions returns: `{cursor, directive, code}`.
abbrev pub answer : Parser → Directive → ℕ → Parser × Result
answer p d code = (p, record { cursor = p.cursor; directive = d; c_code = code })

abbrev pub go_on : Parser → Parser × Result
go_on p = answer p Directive.continue CloseCode.normal

-- `cursor=0; return {cursor, MORE, NORMAL};`
abbrev pub ask_more : Parser → Parser × Result
ask_more p = answer (record p { cursor = 0 }) Directive.more CloseCode.normal

abbrev pub fail_with : Parser → ℕ → Parser × Result
fail_with p code = answer p Directive.close_with_code code

abbrev pub first_byte_fields : FrameHeader → ℕ → FrameHeader
first_byte_fields h b = record h {
  fin = bit_and b 128 / 2 ^ 7;
  rsv1 = bit_and b 64 / 2 ^ 6;
  rsv2 = bit_and b 32 / 2 ^ 5;
  rsv3 = bit_and b 16 / 2 ^ 4;
  opcode = bit_and b 15;
}

pub get_header_1st_byte : List ℕ → ℕ → ℕ → Parser → Parser × Result
get_header_1st_byte stream limit offset p =
    if ltb offset limit
    then (if bit_or (bit_or h.rsv1 h.rsv2) h.rsv3 == 1
        then fail_with q CloseCode.protocol_violation
        else if not (is_op_code_supported h.opcode)
        then fail_with q CloseCode.no_comprende
        else go_on (record q { cursor = offset + 1; state = State.header_2nd_byte }))
    else ask_more p
  where
    h : FrameHeader
    h = first_byte_fields p.header (byte_at stream offset)

    q : Parser
    q = record p { cursor = offset; header = h }

-- One size byte: store it, move on, and ask for more at the end of the input.
abbrev pub size_byte :
    List ℕ
    → ℕ
    → (FrameHeader → ℕ → FrameHeader)
    → State
    → Parser
    → (Parser → Parser × Result)
    → Parser × Result
size_byte stream limit store next p rest =
    let q = record p {
      header = store p.header (byte_at stream p.cursor);
      state = next;
      cursor = p.cursor + 1;
    } in
    if q.cursor == limit then ask_more q else rest q

-- The last size byte: the whole size is checked before the cursor moves.
abbrev size_end : List ℕ → ℕ → (FrameHeader → ℕ → FrameHeader) → Parser → Parser × Result
size_end stream limit store p =
    let h = store p.header (byte_at stream p.cursor) in
    let q = record p { header = h } in
    if ltb p.max_msg_size h.msg_size
    then fail_with q CloseCode.message_too_big
    else (let q' = record q { state = State.read_mask_0; cursor = p.cursor + 1 } in
        if q'.cursor == limit then ask_more q' else go_on q')

abbrev large_bytes : Eight → List ℕ
large_bytes e = e.b0 ∷ e.b1 ∷ e.b2 ∷ e.b3 ∷ e.b4 ∷ e.b5 ∷ e.b6 ∷ e.b7 ∷ []

abbrev pub store_large : (Eight → ℕ → Eight) → FrameHeader → ℕ → FrameHeader
store_large put h b = record h { large_size = put h.large_size b }

-- `be16toh` and `be64toh` of the bytes as they lie in memory
abbrev medium_end : FrameHeader → ℕ → FrameHeader
medium_end h b =
    let m = record (h.medium_size) { b1 = b } in
    record h { medium_size = m; msg_size = swap_bytes 2 (of_le_bytes (m.b0 ∷ m.b1 ∷ [])) }

abbrev large_end : FrameHeader → ℕ → FrameHeader
large_end h b =
    let l = record (h.large_size) { b7 = b } in
    record h { large_size = l; msg_size = swap_bytes 8 (of_le_bytes (large_bytes l)) }

-- The cases of the switch, each of which falls through to the next.
module _ (stream : List ℕ) (limit : ℕ) where
  size_short_1 : Parser → Parser × Result
  size_short_1 p = size_end stream limit medium_end p

  -- At the end of the input this case leaves the cursor where it is.
  size_short_0 : Parser → Parser × Result
  size_short_0 p =
      let q = record p {
        header = record (p.header) {
          medium_size = record (p.header.medium_size) { b0 = byte_at stream p.cursor };
        };
        state = State.read_short_size_1;
        cursor = p.cursor + 1;
      } in
      if q.cursor == limit then answer q Directive.more CloseCode.normal else size_short_1 q

  size_long_7 : Parser → Parser × Result
  size_long_7 p = size_end stream limit large_end p

  size_long_6 : Parser → Parser × Result
  size_long_6 p =
      size_byte stream limit (store_large (λ e b. record e { b6 = b })) State.read_long_size_7 p
        size_long_7

  size_long_5 : Parser → Parser × Result
  size_long_5 p =
      size_byte stream limit (store_large (λ e b. record e { b5 = b })) State.read_long_size_6 p
        size_long_6

  size_long_4 : Parser → Parser × Result
  size_long_4 p =
      size_byte stream limit (store_large (λ e b. record e { b4 = b })) State.read_long_size_5 p
        size_long_5

  size_long_3 : Parser → Parser × Result
  size_long_3 p =
      size_byte stream limit (store_large (λ e b. record e { b3 = b })) State.read_long_size_4 p
        size_long_4

  size_long_2 : Parser → Parser × Result
  size_long_2 p =
      size_byte stream limit (store_large (λ e b. record e { b2 = b })) State.read_long_size_3 p
        size_long_3

  size_long_1 : Parser → Parser × Result
  size_long_1 p =
      size_byte stream limit (store_large (λ e b. record e { b1 = b })) State.read_long_size_2 p
        size_long_2

  size_long_0 : Parser → Parser × Result
  size_long_0 p =
      size_byte stream limit (store_large (λ e b. record e { b0 = b })) State.read_long_size_1 p
        size_long_1

  size_at : State → Parser → Parser × Result
  size_at State.read_short_size_0 p = size_short_0 p
  size_at State.read_short_size_1 p = size_short_1 p
  size_at State.read_long_size_0 p = size_long_0 p
  size_at State.read_long_size_1 p = size_long_1 p
  size_at State.read_long_size_2 p = size_long_2 p
  size_at State.read_long_size_3 p = size_long_3 p
  size_at State.read_long_size_4 p = size_long_4 p
  size_at State.read_long_size_5 p = size_long_5 p
  size_at State.read_long_size_6 p = size_long_6 p
  size_at State.read_long_size_7 p = size_long_7 p
  size_at _ p = go_on p

  pub read_size : ℕ → Parser → Parser × Result
  read_size offset p =
      if ltb offset limit then size_at p.state (record p { cursor = offset }) else ask_more p

unfoldable pub is_control : ℕ → Bool
is_control opcode = opcode == OpCode.close || opcode == OpCode.ping || opcode == OpCode.pong

abbrev is_data : ℕ → Bool
is_data opcode = opcode == OpCode.text || opcode == OpCode.binary

abbrev is_empty : List ℕ → Bool
is_empty [] = true
is_empty (x ∷ xs) = false

abbrev top : List ℕ → ℕ → ℕ
top [] d = d
top (x ∷ xs) d = x

abbrev pop : List ℕ → List ℕ
pop [] = []
pop (x ∷ xs) = xs

abbrev pub with_fseq : Parser → FrameSeq → Parser
with_fseq p s = record p { header = record (p.header) { fseq = s } }

abbrev pub to_payload : Parser → Parser × Result
to_payload p = go_on (record p { state = State.payload })

-- A data or continuation frame; `fin` is the FIN bit as a condition.
abbrev validate_data : Bool → Parser → Parser × Result
validate_data fin p =
    let opcode = p.header.opcode in
    let empty = is_empty p.opcodes in
    let single_frame = fin && is_data opcode && empty in
    let first_fragment = not fin && is_data opcode && empty in
    let continuation_fragment = not fin && opcode == OpCode.continue && not empty in
    let last_fragment = fin && opcode == OpCode.continue && not empty in
    if not single_frame && not first_fragment && not continuation_fragment && not last_fragment
    then fail_with p CloseCode.protocol_violation
    else if single_frame
    then to_payload (with_fseq p FrameSeq.single)
    else if first_fragment
    then to_payload (record (with_fseq p FrameSeq.first) { opcodes = opcode ∷ p.opcodes })
    else if continuation_fragment
    then to_payload (with_fseq p FrameSeq.middle)
    else to_payload (record p {
      header = record (p.header) { fseq = FrameSeq.last; opcode = top p.opcodes opcode };
      opcodes = pop p.opcodes;
    })

abbrev validate_control : Parser → Parser × Result
validate_control p =
    if p.header.msg_size == 0
    then (if p.header.opcode == OpCode.close then fail_with p CloseCode.normal else to_payload p)
    else if ltb 125 p.header.msg_size
    then fail_with p CloseCode.protocol_violation
    else to_payload p

unfoldable pub validate_header : Parser → Parser × Result
unfolding is_control
validate_header p =
    let fin = not (p.header.fin == 0) in
    let control = is_control p.header.opcode in
    if not fin && control
    then fail_with p CloseCode.protocol_violation
    else if not (fin && control)
    then validate_data fin p
    else validate_control p

take_buffer : Parser → List (List ℕ) → List ℕ × Parser
take_buffer p [] = (replicate p.out_msg_pre_size 0, p)
take_buffer p (b ∷ bs) = (resize p.out_msg_pre_size b, record p { buffer_queue = bs })

unfoldable pub get_buffer : Parser → List ℕ × Parser
unfolding take_buffer
get_buffer p = take_buffer p p.buffer_queue

unfoldable pub return_buffer : Parser → List ℕ → Parser
return_buffer p buff = record p { buffer_queue = buff ∷ p.buffer_queue }

unfoldable pub set_max_msg_size : Parser → ℕ → Parser
set_max_msg_size p mms = record p { max_msg_size = mms }

unfoldable pub set_message_buffer_size : Parser → ℕ → Parser
set_message_buffer_size p bsz =
    if ltb p.out_msg_pre_size bsz then record p { out_msg_pre_size = bsz } else p

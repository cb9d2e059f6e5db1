-- ===== src/Server.antt =====
-- include/WSStreamServerParser.h: the parser of what clients send, which is masked.
pub mod Copied
pub mod Receive
pub mod Fragments
pub mod Progress
use lapp_s.Common.{
  ℕ, ◌+◌, ◌-◌, ◌/◌, ◌^◌, ◌&&◌, not, List, [], ◌∷◌, Option, some, none, ltb, ◌==◌, if◌then◌else◌,
  byte_at, of_le_bytes, length, resize, bit_and,
}
use lapp_s.Protocol.{FrameHeader, Four, Result, State, Directive, FrameSeq, WsEvent}
use lapp_s.Protocol.CloseCode
use lapp_s.Parser.{Parser, answer, go_on, ask_more, fail_with, get_buffer}
use lapp_s.Parser.Copy.{Copying, unmask}
use lapp_s.Parser.Machine.{Outcome, Side, choose_size, parse_with}

unfoldable pub get_header_2nd_byte : List ℕ → ℕ → ℕ → Parser → Parser × Result
get_header_2nd_byte stream limit offset p =
    if ltb offset limit
    then (if flag == 0
        then fail_with q CloseCode.protocol_violation
        else choose_size q (byte_at stream offset))
    else ask_more p
  where
    flag : ℕ
    flag = bit_and (byte_at stream offset) 128 / 2 ^ 7

    q : Parser
    q = record p { cursor = offset; header = record (p.header) { maskflag = flag } }

-- `ptr[0..7]` of MASK: the four mask bytes, twice
abbrev pub double_mask : Four → ℕ
double_mask m = of_le_bytes (m.b0 ∷ m.b1 ∷ m.b2 ∷ m.b3 ∷ m.b0 ∷ m.b1 ∷ m.b2 ∷ m.b3 ∷ [])

abbrev mask_byte :
    List ℕ → ℕ → (Four → ℕ → Four) → State → Parser → (Parser → Parser × Result) → Parser × Result
mask_byte stream limit put next p rest =
    let q = record p {
      header = record (p.header) { mask = put p.header.mask (byte_at stream p.cursor) };
      state = next;
      cursor = p.cursor + 1;
    } in
    if q.cursor == limit then answer q Directive.more CloseCode.normal else rest q

abbrev pub store_message : Parser → List ℕ → Parser
store_message p out = record p { message = out }

abbrev pub store_frames : Parser → List ℕ → Parser
store_frames p out = record p { message_frames = out }

-- The cases of the switch, each of which falls through to the next.
module _ (stream : List ℕ) (limit : ℕ) where
  unfoldable pub mask_3 : Parser → Parser × Result
  mask_3 p =
      let m = record (p.header.mask) { b3 = byte_at stream p.cursor } in
      let q = record p {
        header = record (p.header) { mask = m };
        mask = double_mask m;
        state = State.validate;
        cursor = p.cursor + 1;
      } in
      if q.cursor == limit && not (q.header.msg_size == 0) then ask_more q else go_on q

  unfoldable pub mask_2 : Parser → Parser × Result
  mask_2 p = mask_byte stream limit (λ m b. record m { b2 = b }) State.read_mask_3 p mask_3

  unfoldable pub mask_1 : Parser → Parser × Result
  mask_1 p = mask_byte stream limit (λ m b. record m { b1 = b }) State.read_mask_2 p mask_2

  unfoldable pub mask_0 : Parser → Parser × Result
  mask_0 p = mask_byte stream limit (λ m b. record m { b0 = b }) State.read_mask_1 p mask_1

  unfoldable pub mask_at : State → Parser → Parser × Result
  mask_at State.read_mask_0 p = mask_0 p
  mask_at State.read_mask_1 p = mask_1 p
  mask_at State.read_mask_2 p = mask_2 p
  mask_at State.read_mask_3 p = mask_3 p
  mask_at _ p = go_on p

  unfoldable pub read_mask : ℕ → Parser → Parser × Result
  read_mask offset p =
      if ltb offset limit then mask_at p.state (record p { cursor = offset }) else ask_more p

  -- How the loops leave the buffer, and what the function then returns.
  abbrev pub copied : ℕ → (Parser → List ℕ → Parser) → Parser → List ℕ → Parser × Result
  copied used store p buffer =
      let h = p.header in
      let s =
        unmask stream limit h.msg_size used h.mask p.mask
          (record { ready = p.pl_bytes_ready; at = p.cursor; out = buffer }) in
      let q = store (record p { pl_bytes_ready = s.ready; cursor = s.at }) s.out in
      if s.ready == h.msg_size then go_on (record q { state = State.done }) else ask_more q

  unfoldable pub payload_single : Parser → Parser × Result
  payload_single p =
      copied 0 store_message p
        (if p.pl_bytes_ready == 0 then resize p.header.msg_size p.message else p.message)

  -- `used = messageFrames->size() - MSG_SIZE`
  unfoldable pub payload_fragment : Parser → Parser × Result
  payload_fragment p =
      copied (length p.message_frames - p.header.msg_size) store_frames p p.message_frames

  unfoldable pub payload_first : Parser → Parser × Result
  payload_first p = payload_fragment (
      if p.pl_bytes_ready == 0
      then record p { message_frames = resize p.header.msg_size p.message_frames }
      else p)

  unfoldable pub payload_next : Parser → Parser × Result
  payload_next p =
      let total = length p.message_frames + p.header.msg_size in
      if p.pl_bytes_ready == 0 && not (p.cursor == limit)
      then (if ltb p.max_msg_size total
          then fail_with p CloseCode.message_too_big
          else payload_fragment (record p { message_frames = resize total p.message_frames }))
      else payload_fragment p

  unfoldable pub payload_of : FrameSeq → Parser → Parser × Result
  payload_of FrameSeq.single p = payload_single p
  payload_of FrameSeq.first p = payload_first p
  payload_of FrameSeq.middle p = payload_next p
  payload_of FrameSeq.last p = payload_next p

  unfoldable pub process_payload : ℕ → Parser → Parser × Result
  unfolding payload_of
  process_payload offset p = payload_of p.header.fseq (record p { cursor = offset })

abbrev pub server_side : Side
server_side = record {
  get_header_2nd_byte = get_header_2nd_byte;
  read_mask = read_mask;
  process_payload = process_payload;
}

abbrev pub parse : List ℕ → ℕ → ℕ → Parser → Outcome
parse = parse_with server_side

-- The buffer goes to the caller, and another one takes its place.
unfoldable pub take_message : FrameSeq → Parser → Parser × WsEvent
take_message FrameSeq.single p =
    let (buffer, q) = get_buffer p in
    (record q { message = buffer }, record { type = p.header.opcode; message = p.message })
take_message _ p =
    let (buffer, q) = get_buffer p in
    (
      record q { message_frames = buffer },
      record { type = p.header.opcode; message = p.message_frames },
    )

-- `none` is the `std::logic_error` of a call with no message ready.
unfoldable pub ready_message : State → Parser → Option (Parser × WsEvent)
ready_message State.message_ready p =
    some (take_message p.header.fseq (record p { state = State.init }))
ready_message _ p = none

unfoldable pub get_message : Parser → Option (Parser × WsEvent)
unfolding ready_message
get_message p = ready_message p.state p

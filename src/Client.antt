-- ===== src/Client.antt =====
-- include/WSStreamClientParser.h: the parser of what a server sends, which is not masked.
pub mod Receive
pub mod Progress
use lapp_s.Common.{
  ℕ, ◌+◌, ◌-◌, ◌/◌, ◌^◌, ◌&&◌, not, List, ltb, ◌==◌, if◌then◌else◌, byte_at, length, resize,
  mem_copy, take, drop, bit_and,
}
use lapp_s.Protocol.{FrameHeader, Result, State, Directive, FrameSeq, WsEvent}
use lapp_s.Protocol.CloseCode
use lapp_s.Parser.{Parser, answer, go_on, ask_more, fail_with, get_buffer}
use lapp_s.Parser.Machine.{Outcome, Side, choose_size, parse_with}

unfoldable pub get_header_2nd_byte : List ℕ → ℕ → ℕ → Parser → Parser × Result
get_header_2nd_byte stream limit offset p =
    if ltb offset limit
    then (if flag == 1
        then fail_with q CloseCode.protocol_violation
        else choose_size q (byte_at stream offset))
    else ask_more p
  where
    flag : ℕ
    flag = bit_and (byte_at stream offset) 128 / 2 ^ 7

    q : Parser
    q = record p { cursor = offset; header = record (p.header) { maskflag = flag } }

-- The READ_MASK cases: no mask is read.
unfoldable pub skip_mask : List ℕ → ℕ → ℕ → Parser → Parser × Result
skip_mask stream limit offset p = go_on (record p { state = State.validate })

abbrev pub store_message : Parser → List ℕ → Parser
store_message p out = record p { message = out }

abbrev pub store_frames : Parser → List ℕ → Parser
store_frames p out = record p { message_frames = out }

module _ (stream : List ℕ) (limit : ℕ) where
  -- One `memcpy` of what the frame still lacks, or of all the input that is left.
  abbrev pub copied : ℕ → (Parser → List ℕ → Parser) → Parser → List ℕ → Parser × Result
  copied used store p buffer =
      let size = p.header.msg_size in
      let ready = p.pl_bytes_ready in
      let offs = limit - p.cursor in
      let n = if ltb size (ready + offs) then size - ready else offs in
      let ready' = ready + n in
      let cursor' = p.cursor + n in
      let q =
        store (record p { pl_bytes_ready = ready'; cursor = cursor' })
          (mem_copy buffer (used + ready) (take n (drop p.cursor stream))) in
      if ready' == size
      then go_on (record q { state = State.done })
      else if cursor' == limit
      then ask_more q
      else answer q Directive.more CloseCode.normal

  unfoldable pub payload_single : Parser → Parser × Result
  payload_single p =
      copied 0 store_message p
        (if p.pl_bytes_ready == 0 then resize p.header.msg_size p.message else p.message)

  -- `used = messageFrames->size() - MSG_SIZE`
  unfoldable pub payload_fragment : Parser → Parser × Result
  payload_fragment p =
      copied (length p.message_frames - p.header.msg_size) store_frames p p.message_frames

  unfoldable pub payload_first : Parser → Parser × Result
  payload_first p = payload_fragment (
      if p.pl_bytes_ready == 0
      then record p { message_frames = resize p.header.msg_size p.message_frames }
      else p)

  unfoldable pub payload_next : Parser → Parser × Result
  payload_next p =
      let total = length p.message_frames + p.header.msg_size in
      if p.pl_bytes_ready == 0 && not (p.cursor == limit)
      then (if ltb p.max_msg_size total
          then fail_with p CloseCode.message_too_big
          else payload_fragment (record p { message_frames = resize total p.message_frames }))
      else payload_fragment p

  unfoldable pub payload_of : FrameSeq → Parser → Parser × Result
  payload_of FrameSeq.single p = payload_single p
  payload_of FrameSeq.first p = payload_first p
  payload_of FrameSeq.middle p = payload_next p
  payload_of FrameSeq.last p = payload_next p

  unfoldable pub process_payload : ℕ → Parser → Parser × Result
  unfolding payload_of
  process_payload offset p = payload_of p.header.fseq (record p { cursor = offset })

abbrev pub client_side : Side
client_side = record {
  get_header_2nd_byte = get_header_2nd_byte;
  read_mask = skip_mask;
  process_payload = process_payload;
}

abbrev pub parse : List ℕ → ℕ → ℕ → Parser → Outcome
parse = parse_with client_side

unfoldable pub take_message : FrameSeq → Parser → Parser × WsEvent
take_message FrameSeq.single p =
    let (buffer, q) = get_buffer p in
    (record q { message = buffer }, record { type = p.header.opcode; message = p.message })
take_message _ p =
    let (buffer, q) = get_buffer p in
    (
      record q { message_frames = buffer },
      record { type = p.header.opcode; message = p.message_frames },
    )

unfoldable pub leave_ready : State → State
leave_ready State.message_ready = State.init
leave_ready s = s

-- Here the state is not checked: a call with no message ready hands out the buffer as it is.
unfoldable pub get_message : Parser → Parser × WsEvent
unfolding leave_ready take_message
get_message p = take_message p.header.fseq (record p { state = leave_ready p.state })

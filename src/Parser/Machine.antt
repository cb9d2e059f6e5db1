-- ===== src/Parser/Machine.antt =====
-- `parse` of both parser classes. The two bodies have the same text but for the members that
-- they call and for the READ_MASK cases, which stand in a `Side`.
use lapp_s.Common.{ℕ, zero, suc, ◌+◌, ◌-◌, List, ltb, ◌==◌, if◌then◌else◌, bit_and}
use lapp_s.Protocol.{Result, State, Directive, FrameSeq, SizeType}
use lapp_s.Protocol.CloseCode
use lapp_s.Parser.{Parser, answer, go_on, reset, get_header_1st_byte, read_size, validate_header}

-- A call returns, or throws `std::logic_error`; `starved` is the model's own, for fuel run out.
pub data Outcome : Type 0 where
  returned : Parser → Result → Outcome
  thrown : Parser → Outcome
  starved : Outcome

pub record Side : Type 0 where
  pub get_header_2nd_byte : List ℕ → ℕ → ℕ → Parser → Parser × Result
  pub read_mask : List ℕ → ℕ → ℕ → Parser → Parser × Result
  pub process_payload : List ℕ → ℕ → ℕ → Parser → Parser × Result

-- `if(result.directive != CONTINUE) return result;`
unfoldable pub proceed : Parser × Result → (Parser → Outcome) → Outcome
proceed (p, r) rest = elim r.directive [ Directive.continue ↦ rest p | _ ↦ returned p r ]

-- The part of `getHeader2ndByte` that is the same in both classes.
unfoldable pub choose_size : Parser → ℕ → Parser × Result
choose_size p b =
    let small = bit_and b 127 in
    let h = record (p.header) { small_size = small } in
    let q = record p { cursor = p.cursor + 1 } in
    if ltb small 126
    then go_on (record q {
      header = record h { size_type = SizeType.min; msg_size = small };
      state = State.read_mask_0;
    })
    else if small == 126
    then go_on (record q {
      header = record h { size_type = SizeType.short };
      state = State.read_short_size_0;
    })
    else go_on (record q {
      header = record h { size_type = SizeType.long };
      state = State.read_long_size_0;
    })

-- `again` is the recursive call `parse(stream, limit, cursor)`.
module _ (side : Side) (stream : List ℕ) (limit : ℕ) (again : ℕ → Parser → Outcome) where
  unfoldable pub on_done : FrameSeq → Parser → Outcome
  on_done FrameSeq.single p =
      let q = record p { state = State.message_ready } in
      returned q (answer q Directive.take_ready_message CloseCode.normal).1
  on_done FrameSeq.last p =
      let q = record p { state = State.message_ready } in
      returned q (answer q Directive.take_ready_message CloseCode.normal).1
  on_done FrameSeq.first p = again p.cursor (record p { state = State.init })
  on_done FrameSeq.middle p = again p.cursor (record p { state = State.init })

  unfoldable pub decide_on_done : Parser → Outcome
  unfolding on_done
  decide_on_done p = on_done p.header.fseq p

  unfoldable pub from_payload : Parser → Outcome
  from_payload p = proceed (side.process_payload stream limit p.cursor p) decide_on_done

  unfoldable pub from_validate : Parser → Outcome
  from_validate p = proceed (validate_header p) from_payload

  unfoldable pub from_mask : Parser → Outcome
  from_mask p = proceed (side.read_mask stream limit p.cursor p) from_validate

  unfoldable pub from_size : Parser → Outcome
  from_size p = proceed (read_size stream limit p.cursor p) from_mask

  unfoldable pub from_second : Parser → Outcome
  from_second p = proceed (side.get_header_2nd_byte stream limit p.cursor p) from_size

  unfoldable pub from_first : Parser → Outcome
  from_first p = proceed (get_header_1st_byte stream limit p.cursor p) from_second

  -- the switch on `mState`
  unfoldable pub enter : State → Parser → Outcome
  enter State.init p = from_first (reset p)
  enter State.header_1st_byte p = from_first p
  enter State.header_2nd_byte p = from_second p
  enter State.read_short_size_0 p = from_size p
  enter State.read_short_size_1 p = from_size p
  enter State.read_long_size_0 p = from_size p
  enter State.read_long_size_1 p = from_size p
  enter State.read_long_size_2 p = from_size p
  enter State.read_long_size_3 p = from_size p
  enter State.read_long_size_4 p = from_size p
  enter State.read_long_size_5 p = from_size p
  enter State.read_long_size_6 p = from_size p
  enter State.read_long_size_7 p = from_size p
  enter State.read_mask_0 p = from_mask p
  enter State.read_mask_1 p = from_mask p
  enter State.read_mask_2 p = from_mask p
  enter State.read_mask_3 p = from_mask p
  enter State.validate p = from_validate p
  enter State.payload p = from_payload p
  enter State.done p = decide_on_done p
  enter State.message_ready p = thrown p

unfoldable pub parse_on : Side → ℕ → List ℕ → ℕ → ℕ → Parser → Outcome
parse_on side zero stream limit offset p = starved
parse_on side (suc f) stream limit offset p =
    enter side stream limit (parse_on side f stream limit) p.state (record p { cursor = offset })

-- A recursive call starts a frame, and goes on to another one only after it has read a byte; so
-- two more than the input left is fuel enough.
abbrev pub parse_with : Side → List ℕ → ℕ → ℕ → Parser → Outcome
parse_with side stream limit offset p =
    parse_on side (suc (suc (limit - offset))) stream limit offset p

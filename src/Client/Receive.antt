-- ===== src/Client/Receive.antt =====
-- What the client's parser makes of the frames that the server builds.
use lapp_s.Common.{
  ℕ, suc, ◌+◌, ◌-◌, ◌*◌, ◌/◌, ◌≤◌, ◌<◌, List, [], ◌∷◌, ◌++◌, ◌≡◌, refl, sym, ap, ap₂, subst,
  append_assoc, drop-append_at, drop-suc, ◌∙◌, arith, length, drop, resize, length-append,
  if◌then◌else◌, length-resize, mem_copy-append, drop-length, drop-byte_at, take-append, ltb,
  lt→ltb, ==_refl, ◌==◌, header_bits, inl,
}
use lapp_s.Protocol.{State, Directive, FrameSeq}
use lapp_s.Protocol.CloseCode
use lapp_s.ServerMessage.{server_message}
use lapp_s.ServerMessage.Frames.{server_message_layout}
use lapp_s.Parser.Opening.{opened}
use lapp_s.Parser.{Parser, reset, go_on}
use lapp_s.Protocol.Supported.{is_op_code_supported_of, whole_byte}
use lapp_s.Protocol.Length.{length_code, length_rest, length_field, length_field_parts}
use lapp_s.Parser.Buffers.{get_buffer-SameState}
use lapp_s.Parser.Header.{drop-lt}
use lapp_s.Parser.Delivery.{Sendable, IsIdle, Sendable-known, from_validate-single}
use lapp_s.Parser.Machine.{
  Outcome, returned, choose_size, proceed, from_mask, from_payload, decide_on_done, on_done,
  parse_on, enter,
}
use lapp_s.Client.{
  get_header_2nd_byte, copied, store_message, payload_single, process_payload, payload_of,
  client_side, get_message, take_message, leave_ready, skip_mask,
}

-- Without the mask bit the second byte goes on to the size.
get_header_2nd_byte-open :
    (s : List ℕ) (p : Parser) (i b : ℕ) (t : List ℕ)
    → drop i s ≡ b ∷ t
    → b < 256
    → b / 128 * 128 ≡ 0
    → get_header_2nd_byte s (length s) i p
      ≡ choose_size (record p { cursor = i; header = record (p.header) { maskflag = 0 } }) b
unfolding get_header_2nd_byte
get_header_2nd_byte-open s p i b t here octet clear =
    let flag : b / 128 ≡ 0 = omega arith in
    rw
      (
        lt→ltb i (length s) (drop-lt s i b t here),
        drop-byte_at s i b t here,
        (header_bits b octet).bit_7,
        flag,
      )
      refl

-- The copy of a payload that is all there, into the end of the buffer.
amount : (size offs : ℕ) → size ≤ offs → (if ltb size (0 + offs) then size - 0 else offs) ≡ size
amount size offs h = ground arith

module _ (s pre hole src post : List ℕ) (same : length hole ≡ length src) (p : Parser)
    (here : drop p.cursor s ≡ src ++ post) (fresh : p.pl_bytes_ready ≡ 0)
    (size : p.header.msg_size ≡ length src) where
  copied-whole :
      (store : Parser → List ℕ → Parser)
      → copied s (length s) (length pre) store p (pre ++ hole)
        ≡ go_on
            (record (store
              (record p { pl_bytes_ready = length src; cursor = p.cursor + length src })
              (pre ++ src)) { state = State.done })
  copied-whole store =
      let enough : length src ≤ length s - p.cursor =
        omega (arith, drop-length s p.cursor _ here, length-append src post) in
      let used : length pre + 0 ≡ length pre = omega arith in
      let all : 0 + length src ≡ length src = omega arith in
      rw
        (
          fresh,
          size,
          amount (length src) (length s - p.cursor) enough,
          here,
          take-append src post,
          used,
          mem_copy-append pre hole src same,
          all,
          ==_refl (length src),
        )
        refl

module _ (s : List ℕ) (again : ℕ → Parser → Outcome) (src post : List ℕ) (p : Parser)
    (here : drop p.cursor s ≡ src ++ post) (fresh : p.pl_bytes_ready ≡ 0)
    (size : p.header.msg_size ≡ length src) (one : p.header.fseq ≡ FrameSeq.single) where
  payload_single-whole :
      payload_single s (length s) p
      ≡ go_on (record p {
        message = src;
        pl_bytes_ready = length src;
        cursor = p.cursor + length src;
        state = State.done;
      })
  unfolding payload_single
  payload_single-whole =
      rw (ap (λ k. if k == 0 then resize p.header.msg_size p.message else p.message) fresh) (
        copied-whole s [] (resize p.header.msg_size p.message) src post
          (length-resize p.header.msg_size p.message ∙ size) p here fresh size store_message)

  from_payload-single :
      from_payload client_side s (length s) again p
      ≡ returned
          (record p {
            message = src;
            pl_bytes_ready = length src;
            cursor = p.cursor + length src;
            state = State.message_ready;
          })
          (record {
            cursor = p.cursor + length src;
            directive = Directive.take_ready_message;
            c_code = CloseCode.normal;
          })
  unfolding from_payload process_payload proceed decide_on_done payload_of
  from_payload-single =
      let q = record p {
        message = src;
        pl_bytes_ready = length src;
        cursor = p.cursor + length src;
        state = State.done;
      } in
      ap (λ r. proceed r (decide_on_done client_side s (length s) again))
        (ap (λ f. payload_of s (length s) f p) one ∙ payload_single-whole)
      ∙ ap (λ f. on_done client_side s (length s) again f q) one

-- The call reports a message at `cursor`; `getMessage` hands it out and the parser is idle again.
pub record Delivers (max oc : ℕ) (src : List ℕ) (cursor : ℕ) (out : Outcome) : Type 0 where
  pub after : Parser
  pub runs :
      out
      ≡ returned after (record {
        cursor = cursor;
        directive = Directive.take_ready_message;
        c_code = CloseCode.normal;
      })
  pub event : (get_message after).1 ≡ record { type = oc; message = src }
  pub idle : IsIdle max (get_message after).0

take_message-single :
    (p : Parser)
    → p.state ≡ State.init
    → p.opcodes ≡ []
    → ((take_message FrameSeq.single p).1 ≡ record { type = p.header.opcode; message = p.message })
      × IsIdle p.max_msg_size (take_message FrameSeq.single p).0
unfolding take_message
take_message-single p init empty =
    let same = get_buffer-SameState p in
    (
      refl,
      record {
        state = same.state ∙ init;
        opcodes = same.opcodes ∙ empty;
        max_msg_size = same.max_msg_size;
      },
    )

get_message-single :
    (p : Parser)
    → p.header.fseq ≡ FrameSeq.single
    → p.state ≡ State.message_ready
    → p.opcodes ≡ []
    → ((get_message p).1 ≡ record { type = p.header.opcode; message = p.message })
      × IsIdle p.max_msg_size (get_message p).0
unfolding get_message
get_message-single p one ready empty =
    let q = record p { state = leave_ready p.state } in
    subst
      (λ f.
        ((take_message f q).1 ≡ record { type = p.header.opcode; message = p.message })
        × IsIdle p.max_msg_size (take_message f q).0)
      (sym one) (take_message-single q (ap leave_ready ready) empty)

from_mask-single :
    (s : List ℕ) (again : ℕ → Parser → Outcome) (oc : ℕ) (src post : List ℕ) (p : Parser)
    → drop p.cursor s ≡ src ++ post
    → p.pl_bytes_ready ≡ 0
    → p.header.msg_size ≡ length src
    → p.header.fseq ≡ FrameSeq.single
    → p.header.opcode ≡ oc
    → p.header.fin ≡ 1
    → p.opcodes ≡ []
    → Sendable oc src
    → Delivers p.max_msg_size oc src
        (p.cursor + length src)
        (from_mask client_side s (length s) again p)
unfolding from_mask skip_mask proceed
from_mask-single s again oc src post p here fresh size one opcode fin empty ok =
    let p1 = record p { state = State.validate } in
    let p2 = record p1 {
      header = record (p.header) { fseq = FrameSeq.single };
      state = State.payload;
    } in
    let q = record p2 {
      message = src;
      pl_bytes_ready = length src;
      cursor = p.cursor + length src;
      state = State.message_ready;
    } in
    let handed = get_message-single q refl refl empty in
    record {
      after = q;
      runs =
          from_validate-single client_side s again oc src post p1 here fresh size one opcode fin
            empty ok
          ∙ from_payload-single s again src post p2 here fresh size refl;
      event = handed.0 ∙ ap (λ o. record { type = o; message = src }) opcode;
      idle = handed.1;
    }

Delivers-subst :
    {max max' oc : ℕ} {src : List ℕ} {i i' : ℕ} {out out' : Outcome}
    → max ≡ max'
    → i ≡ i'
    → out' ≡ out
    → Delivers max oc src i out
    → Delivers max' oc src i' out'
Delivers-subst {max'} {oc} {src} {i} {i'} {out} {out'} m e o d =
    subst (λ k. Delivers max' oc src k out') e
      (subst (λ k. Delivers k oc src i out') m (subst (Delivers _ oc src i) (sym o) d))

-- A frame of the server's, with what follows it, byte by byte.
frame_bytes :
    (oc : ℕ) (src post : List ℕ)
    → oc < 16
    → server_message oc src ++ post
      ≡ (128 + oc) ∷ (0 + length_code (length src)) ∷ (length_rest (length src) ++ (src ++ post))
frame_bytes oc src post h =
    ap (λ t. t ++ post) ((server_message_layout oc src h).0)
    ∙ ap (λ t. ((128 + oc) ∷ (t ++ src)) ++ post) (length_field_parts (length src))
    ∙ ap₂ (λ k t. (128 + oc) ∷ k ∷ t) zero_add (append_assoc (length_rest (length src)) src post)
  where
    zero_add : length_code (length src) ≡ 0 + length_code (length src)
    zero_add = omega arith

length-server_message :
    (oc : ℕ) (src : List ℕ)
    → oc < 16
    → length (server_message oc src) ≡ 1 + 1 + length (length_rest (length src)) + length src
length-server_message oc src h =
    ap length ((server_message_layout oc src h).0)
    ∙ omega (
      arith,
      ap length (length_field_parts (length src)),
      length-append (length_field (length src)) src,
    )

-- An idle client parser that finds a frame of the server's at its cursor, with a payload or more
-- input behind the header, reports the message, opcode and payload, and is idle again once it is
-- taken. Opcode and size are such that the message may go as one frame and, above 125 bytes, is
-- within the parser's limit.
pub server_message_received :
    (f : ℕ) (s : List ℕ) (i oc c max : ℕ) (src post tail : List ℕ) (p : Parser)
    → IsIdle max p
    → Sendable oc src
    → (125 < length src → length src ≤ max)
    → src ++ post ≡ c ∷ tail
    → drop i s ≡ server_message oc src ++ post
    → Delivers max oc src
        (i + length (server_message oc src))
        (parse_on client_side (suc f) s (length s) i p)
unfolding parse_on enter reset
server_message_received f s i oc c max src post tail p idle ok fits more here =
    let again = parse_on client_side f s (length s) in
    let p0 = reset (record p { cursor = i }) in
    let known = Sendable-known oc src ok in
    let (small, octet, no_rsv, low, high) = whole_byte oc known in
    let bytes = here ∙ frame_bytes oc src post small in
    let n = length src in
    let o =
      opened client_side s again 0 0 (inl refl) (λ q j b t. get_header_2nd_byte-open s q j b t) p0
        (128 + oc) n c tail
        (record {
          octet = octet;
          no_rsv = no_rsv;
          known = rw low (is_op_code_supported_of oc known);
        })
        (omega (arith, ok.0)) (λ h. omega (arith, fits h, idle.max_msg_size))
        (bytes ∙ ap (λ t. (128 + oc) ∷ (0 + length_code n) ∷ (length_rest n ++ t)) more) in
    let j = i + 1 + 1 + length (length_rest n) in
    let payload_at : drop j s ≡ src ++ post =
      drop-append_at s (i + 1 + 1) (length_rest n) (src ++ post)
        (drop-suc s (i + 1) _ _ (drop-suc s i _ _ bytes)) in
    Delivers-subst idle.max_msg_size (omega (arith, length-server_message oc src small))
      (ap (λ st. enter client_side s (length s) again st (record p { cursor = i })) idle.state
        ∙ o.runs)
      (from_mask-single s again oc src post
        (record p0 { header = o.header; cursor = j; state = State.read_mask_0 }) payload_at refl
        o.says.msg_size o.says.fseq (o.says.opcode ∙ low) (o.says.fin ∙ high) idle.opcodes ok)

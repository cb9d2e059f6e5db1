-- ===== src/Server/Receive.antt =====
-- What the server's parser makes of a client's masked frame.
use lapp_s.Common.{
  ℕ, suc, ◌+◌, ◌≤◌, ◌<◌, ◌^◌, List, [], ◌∷◌, ◌++◌, ◌≡◌, ◌≢◌, refl, sym, ap, subst, ◌∙◌, arith,
  length, length-append, drop, drop-suc, drop-append_at, append_assoc, ◌⊎◌, inr, IsOctets, some,
}
use lapp_s.Protocol.{Four, State, Directive, FrameSeq}
use lapp_s.Protocol.CloseCode
use lapp_s.Protocol.Supported.{IsControl, IsData, is_op_code_supported_of, whole_byte}
use lapp_s.Protocol.Length.{length_code, length_rest}
use lapp_s.Parser.{Parser, reset, get_buffer}
use lapp_s.Parser.Buffers.{get_buffer-SameState}
use lapp_s.Parser.Copy.Loop.{IsKey}
use lapp_s.Parser.Copy.Fill.{mask_from, mask_twice}
use lapp_s.Parser.Delivery.{Sendable, IsIdle, Sendable-known, from_validate-single}
use lapp_s.Parser.Header.{drop-lt}
use lapp_s.Parser.Opening.{opened}
use lapp_s.Parser.Machine.{Outcome, returned, proceed, from_mask, from_validate, parse_on, enter}
use lapp_s.Server.{double_mask, server_side, get_message, ready_message, take_message}
use lapp_s.Server.Copied.{get_header_2nd_byte-masked, read_mask_lem, from_payload-single}

-- The call reports a message at `cursor`; `getMessage` hands it out and the parser is idle again.
pub record Delivers (max oc : ℕ) (src : List ℕ) (cursor : ℕ) (out : Outcome) : Type 0 where
  pub after : Parser
  pub next : Parser
  pub runs :
      out
      ≡ returned after (record {
        cursor = cursor;
        directive = Directive.take_ready_message;
        c_code = CloseCode.normal;
      })
  pub event : get_message after ≡ some (next, record { type = oc; message = src })
  pub idle : IsIdle max next

-- What `get_message` does with a single frame's message.
get_message-single :
    (p : Parser)
    → p.header.fseq ≡ FrameSeq.single
    → p.state ≡ State.message_ready
    → p.opcodes ≡ []
    → (q : Parser) × (get_message p
        ≡ some (q, record { type = p.header.opcode; message = p.message }))
      × IsIdle p.max_msg_size q
unfolding get_message ready_message take_message
get_message-single p one ready empty =
    let p' = record p { state = State.init } in
    let same = get_buffer-SameState p' in
    let q = record ((get_buffer p').1) { message = (get_buffer p').0 } in
    (
      q,
      ap (λ st. ready_message st p) ready ∙ ap (λ f. some (take_message f p')) one,
      record {
        state = same.state;
        opcodes = same.opcodes ∙ empty;
        max_msg_size = same.max_msg_size;
      },
    )

from_mask-single :
    (s : List ℕ)
    → IsOctets s
    → (again : ℕ → Parser → Outcome) → (oc : ℕ) (k : Four) (src post : List ℕ) (p : Parser)
    → IsKey k
    → drop p.cursor s ≡ k.b0 ∷ k.b1 ∷ k.b2 ∷ k.b3 ∷ (src ++ post)
    → p.state ≡ State.read_mask_0
    → p.pl_bytes_ready ≡ 0
    → p.header.msg_size ≡ length src
    → p.header.fseq ≡ FrameSeq.single
    → p.header.opcode ≡ oc
    → p.header.fin ≡ 1
    → p.opcodes ≡ []
    → Sendable oc src
    → Delivers p.max_msg_size oc
        (mask_from k 0 src)
        (p.cursor + 1 + 1 + 1 + 1 + length src)
        (from_mask server_side s (length s) again p)
unfolding from_mask proceed
from_mask-single s octets again oc k src post p key here st fresh size one opcode fin empty ok =
    let i = p.cursor in
    let j = i + 1 + 1 + 1 + 1 in
    let a1 = drop-suc s i k.b0 _ here in
    let a2 = drop-suc s (i + 1) k.b1 _ a1 in
    let a3 = drop-suc s (i + 1 + 1) k.b2 _ a2 in
    let a4 = drop-suc s (i + 1 + 1 + 1) k.b3 _ a3 in
    let inside : j ≤ length s = omega (arith, drop-lt s (i + 1 + 1 + 1) k.b3 _ a3) in
    let p1 = record p {
      header = record (p.header) { mask = k };
      mask = double_mask k;
      state = State.validate;
      cursor = j;
    } in
    let p2 = record p1 {
      header = record (p1.header) { fseq = FrameSeq.single };
      state = State.payload;
    } in
    let q = record p2 {
      message = mask_from k 0 src;
      pl_bytes_ready = length src;
      cursor = j + length src;
      state = State.message_ready;
    } in
    let (next, event, idle) = get_message-single q refl refl empty in
    record {
      after = q;
      next = next;
      runs =
          ap (λ r. proceed r (from_validate server_side s (length s) again))
            (read_mask_lem s i k (src ++ post) here p st (nothing src post p size))
          ∙ (from_validate-single server_side s again oc src post p1 a4 fresh size one opcode fin
                empty ok
              ∙ from_payload-single s octets again src post p2 a4 inside fresh size refl key refl);
      event =
          event ∙ ap (λ o. some (next, record { type = o; message = mask_from k 0 src })) opcode;
      idle = idle;
    }
  where
    nothing :
        (src post : List ℕ) (p : Parser)
        → p.header.msg_size ≡ length src
        → src ++ post ≡ []
        → p.header.msg_size ≡ 0
    nothing [] post p size e = size
    nothing (x ∷ src) post p size e = cc

-- Section 5.2 of RFC 6455: a whole masked frame.
abbrev pub masked_frame : Four → ℕ → List ℕ → List ℕ
masked_frame k oc src =
    (128 + oc)
    ∷ (128 + length_code (length src))
    ∷ (length_rest (length src) ++ (k.b0 ∷ k.b1 ∷ k.b2 ∷ k.b3 ∷ mask_from k 0 src))

pub length-mask_from : (k : Four) (i : ℕ) (src : List ℕ) → length (mask_from k i src) ≡ length src
length-mask_from k i [] = refl
length-mask_from k i (b ∷ src) = ap suc (length-mask_from k (i + 1) src)

Delivers-subst :
    {max max' oc : ℕ} {src src' : List ℕ} {i i' : ℕ} {out out' : Outcome}
    → max ≡ max'
    → src ≡ src'
    → i ≡ i'
    → out' ≡ out
    → Delivers max oc src i out
    → Delivers max' oc src' i' out'
Delivers-subst {max'} {oc} {src} {src'} {i} {i'} {out} {out'} m r e o d =
    subst (λ t. Delivers max' oc t i' out') r
      (subst (λ k. Delivers max' oc src k out') e
        (subst (λ k. Delivers k oc src i out') m (subst (Delivers _ oc src i) (sym o) d)))

length-masked_frame :
    (k : Four) (oc : ℕ) (src : List ℕ)
    → length (masked_frame k oc src) ≡ 6 + length (length_rest (length src)) + length src
length-masked_frame k oc src = omega (
  arith,
  length-append (length_rest (length src)) (k.b0 ∷ k.b1 ∷ k.b2 ∷ k.b3 ∷ mask_from k 0 src),
  length-mask_from k 0 src,
)

Sendable-masked :
    (k : Four) (oc : ℕ) (src : List ℕ) → Sendable oc src → Sendable oc (mask_from k 0 src)
Sendable-masked k oc src ok =
    subst (λ n. (n < 2 ^ 63) × (IsData oc ⊎ (IsControl oc × (n ≤ 125) × ((oc ≢ 8) ⊎ (0 < n)))))
      (sym (length-mask_from k 0 src)) ok

-- An idle server parser that finds at its cursor, in an input of octets, a whole frame masked
-- with a key of octets reports the message with its opcode and the unmasked payload, whatever
-- follows the frame, and is idle again once the message is taken. The opcode is that of a data
-- frame, or of a control frame of 125 bytes at most and not an empty close; a payload of more
-- than 125 bytes is within the parser's limit.
pub masked_frame_received :
    (f : ℕ) (s : List ℕ) (i oc max : ℕ) (k : Four) (src post : List ℕ) (p : Parser)
    → IsOctets s
    → IsOctets src
    → IsKey k
    → IsIdle max p
    → Sendable oc src
    → (125 < length src → length src ≤ max)
    → drop i s ≡ masked_frame k oc src ++ post
    → Delivers max oc src
        (i + length (masked_frame k oc src))
        (parse_on server_side (suc f) s (length s) i p)
unfolding parse_on enter reset
masked_frame_received f s i oc max k src post p octets plain key idle ok fits here =
    let again = parse_on server_side f s (length s) in
    let p0 = reset (record p { cursor = i }) in
    let known = Sendable-known oc src ok in
    let (small, octet, no_rsv, low, high) = whole_byte oc known in
    let n = length src in
    let masked = mask_from k 0 src in
    let key_bytes = k.b0 ∷ k.b1 ∷ k.b2 ∷ k.b3 ∷ [] in
    let bytes =
      here
      ∙ ap (λ t. (128 + oc) ∷ (128 + length_code n) ∷ t)
          (append_assoc (length_rest n) (key_bytes ++ masked) post) in
    let o =
      opened server_side s again 128 1 (inr refl) (λ q j b t. get_header_2nd_byte-masked s q j b t)
        p0 (128 + oc) n k.b0 (k.b1 ∷ k.b2 ∷ k.b3 ∷ (masked ++ post))
        (record {
          octet = octet;
          no_rsv = no_rsv;
          known = rw low (is_op_code_supported_of oc known);
        })
        (omega (arith, ok.0)) (λ h. omega (arith, fits h, idle.max_msg_size)) bytes in
    let j = i + 1 + 1 + length (length_rest n) in
    let key_at_j =
      drop-append_at s (i + 1 + 1) (length_rest n) (key_bytes ++ (masked ++ post))
        (drop-suc s (i + 1) _ _ (drop-suc s i _ _ bytes)) in
    Delivers-subst idle.max_msg_size (mask_twice k 0 src key plain)
      (omega (arith, length-masked_frame k oc src, length-mask_from k 0 src))
      (ap (λ st. enter server_side s (length s) again st (record p { cursor = i })) idle.state
        ∙ o.runs)
      (from_mask-single s octets again oc k masked post
        (record p0 { header = o.header; cursor = j; state = State.read_mask_0 }) key key_at_j refl
        refl (o.says.msg_size ∙ sym (length-mask_from k 0 src)) o.says.fseq (o.says.opcode ∙ low)
        (o.says.fin ∙ high) idle.opcodes (Sendable-masked k oc src ok))

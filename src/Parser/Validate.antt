-- ===== src/Parser/Validate.antt =====
-- `validateHeader` of include/WSStreamParser.h against section 5.4 and 5.5 of RFC 6455.
use lapp_s.Common.{
  ℕ, ◌≤◌, ◌<◌, true, not, List, [], ◌∷◌, ◌≡◌, ◌≢◌, arith, ◌⊎◌, ◌↔◌, ◌==◌, ◌&&◌, if◌then◌else◌,
}
use lapp_s.Protocol.{FrameSeq, Directive}
use lapp_s.Protocol.OpCode
use lapp_s.Protocol.CloseCode
use lapp_s.Protocol.Supported.{IsControl, IsData}
use lapp_s.Parser.{Parser, is_control, with_fseq, to_payload, validate_header}

pub is_control_lem : (oc : ℕ) → IsControl oc → is_control oc ≡ true
unfolding is_control
is_control_lem oc h = ground arith

-- What RFC 6455 lets follow: a control frame in one piece and of 125 bytes at most, and, if it
-- closes, with a body; a data frame while no message is begun; a continuation while one is.
abbrev pub Legal : (fin oc size : ℕ) → List ℕ → Type 0
Legal fin oc size begun =
    ((fin ≢ 0) × IsControl oc × (size ≤ 125) × ((oc ≢ OpCode.close) ⊎ (0 < size)))
    ⊎ (IsData oc × (begun ≡ []))
    ⊎ ((oc ≡ OpCode.continue) × (begun ≢ []))

-- `validateHeader` goes on with a frame exactly when RFC 6455 lets it follow: a control frame in
-- one piece, of 125 bytes at most and not an empty close; a data frame while no message is begun;
-- a continuation while one is.
pub validate_header_iff :
    (p : Parser)
    → ((validate_header p).1.directive ≡ Directive.continue)
      ↔ Legal p.header.fin p.header.opcode p.header.msg_size p.opcodes
unfolding validate_header
validate_header_iff p = (accepted p, legal p)
  where
    accepted :
        (p : Parser)
        → (validate_header p).1.directive ≡ Directive.continue
        → Legal p.header.fin p.header.opcode p.header.msg_size p.opcodes
    accepted p h = ground arith

    legal :
        (p : Parser)
        → Legal p.header.fin p.header.opcode p.header.msg_size p.opcodes
        → (validate_header p).1.directive ≡ Directive.continue
    legal p h = ground arith

-- A frame that is refused is answered with a protocol violation, but a whole close frame with no
-- body with a normal closure; and the parser's buffers, state and open messages stay as they are.
pub validate_header_refused :
    (p : Parser)
    → (validate_header p).1.directive ≢ Directive.continue
    → ((validate_header p).0 ≡ p)
      × ((validate_header p).1.directive ≡ Directive.close_with_code)
      × ((validate_header p).1.c_code ≡ (
          if p.header.opcode == OpCode.close && p.header.msg_size == 0 && not (p.header.fin == 0)
          then CloseCode.normal
          else CloseCode.protocol_violation))
unfolding validate_header
validate_header_refused p h = (ground arith, ground arith, ground arith)

module _ (p : Parser) where
  pub validate-single :
      p.header.fin ≡ 1
      → (p.header.opcode ≡ OpCode.text) ⊎ (p.header.opcode ≡ OpCode.binary)
      → p.opcodes ≡ []
      → validate_header p ≡ to_payload (with_fseq p FrameSeq.single)
  unfolding validate_header
  validate-single fin oc empty = ground arith

  pub validate-control :
      p.header.fin ≡ 1
      → is_control p.header.opcode ≡ true
      → p.header.msg_size ≤ 125
      → (p.header.opcode ≡ OpCode.close → 0 < p.header.msg_size)
      → validate_header p ≡ to_payload p
  unfolding validate_header
  validate-control fin control size body = ground arith

  pub validate-first :
      p.header.fin ≡ 0
      → (p.header.opcode ≡ OpCode.text) ⊎ (p.header.opcode ≡ OpCode.binary)
      → p.opcodes ≡ []
      → validate_header p
        ≡ to_payload (record (with_fseq p FrameSeq.first) { opcodes = p.header.opcode ∷ [] })
  unfolding validate_header
  validate-first fin oc empty = ground arith

  pub validate-middle :
      (x : ℕ)
      → p.header.fin ≡ 0
      → p.header.opcode ≡ OpCode.continue
      → p.opcodes ≡ x ∷ []
      → validate_header p ≡ to_payload (with_fseq p FrameSeq.middle)
  unfolding validate_header
  validate-middle x fin oc begun = ground arith

  pub validate-last :
      (x : ℕ)
      → p.header.fin ≡ 1
      → p.header.opcode ≡ OpCode.continue
      → p.opcodes ≡ x ∷ []
      → validate_header p
        ≡ to_payload (record p {
          header = record (p.header) { fseq = FrameSeq.last; opcode = x };
          opcodes = [];
        })
  unfolding validate_header
  validate-last x fin oc begun = ground arith

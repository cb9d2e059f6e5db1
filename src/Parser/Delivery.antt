-- ===== src/Parser/Delivery.antt =====
-- A frame that is a message by itself, up to its payload: both parser classes alike.
use lapp_s.Common.{
  ℕ, ◌≤◌, ◌<◌, ◌^◌, List, [], ◌++◌, ◌≡◌, ◌≢◌, sym, ap, ◌∙◌, length, drop, ◌⊎◌, inl, inr,
}
use lapp_s.Protocol.{State, FrameSeq}
use lapp_s.Protocol.OpCode
use lapp_s.Protocol.Supported.{IsControl, IsData}
use lapp_s.Parser.{Parser, to_payload, with_fseq}
use lapp_s.Parser.Validate.{is_control_lem, validate-single, validate-control}
use lapp_s.Parser.Machine.{Outcome, Side, proceed, from_validate, from_payload}

-- A message that may go as one frame to a peer that has no message begun.
abbrev pub Sendable : ℕ → List ℕ → Type 0
Sendable oc src =
    (length src < 2 ^ 63)
    × (IsData oc ⊎ (IsControl oc × (length src ≤ 125) × ((oc ≢ OpCode.close) ⊎ (0 < length src))))

-- Between two messages, with `max` for the greatest message size.
pub record IsIdle (max : ℕ) (p : Parser) : Type 0 where
  pub state : p.state ≡ State.init
  pub opcodes : p.opcodes ≡ []
  pub max_msg_size : p.max_msg_size ≡ max

pub Sendable-known : (oc : ℕ) (src : List ℕ) → Sendable oc src → IsData oc ⊎ IsControl oc
Sendable-known oc src (_, inl d) = inl d
Sendable-known oc src (_, inr c) = inr c.0

module _ (side : Side) (s : List ℕ) (again : ℕ → Parser → Outcome) (oc : ℕ) (src post : List ℕ)
    (p : Parser) (here : drop p.cursor s ≡ src ++ post) (fresh : p.pl_bytes_ready ≡ 0)
    (size : p.header.msg_size ≡ length src) (one : p.header.fseq ≡ FrameSeq.single)
    (opcode : p.header.opcode ≡ oc) (fin : p.header.fin ≡ 1) (empty : p.opcodes ≡ []) where
  pub from_validate-single :
      Sendable oc src
      → from_validate side s (length s) again p
        ≡ from_payload side s (length s) again (record p {
          header = record (p.header) { fseq = FrameSeq.single };
          state = State.payload;
        })
  unfolding from_validate proceed
  from_validate-single (_, inl data_frame) =
      ap (λ r. proceed r (from_payload side s (length s) again))
        (validate-single p fin (rw opcode data_frame) empty)
  from_validate-single (_, inr (control, small, body)) =
      ap (λ r. proceed r (from_payload side s (length s) again))
        (validate-control p fin (is_control_lem p.header.opcode (rw opcode control)) (rw size small)
            (λ c. closing body (sym opcode ∙ c))
          ∙ ap (λ f. to_payload (with_fseq p f)) one)
    where
      closing : (oc ≢ OpCode.close) ⊎ (0 < length src) → oc ≡ OpCode.close → 0 < p.header.msg_size
      closing (inl no_close) c = absurd (no_close c)
      closing (inr some_body) c = rw size some_body

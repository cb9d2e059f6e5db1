-- ===== src/Server/Fragments/Message.antt =====
-- One frame of a fragmented message at the server's parser: the first, one in the middle, the last,
-- and a control frame in between.
use lapp_s.Common.{
  ℕ, ◌+◌, ◌/◌, ◌%◌, ◌≤◌, ◌<◌, List, [], ◌∷◌, ◌++◌, ◌≡◌, ◌≢◌, ◌⊎◌, inl, inr, refl, sym, ap, ap₂, ◌∙◌,
  arith, length, IsOctets, some,
}
use lapp_s.Protocol.{Four, State, Directive, FrameSeq, Result}
use lapp_s.Protocol.OpCode
use lapp_s.Protocol.CloseCode
use lapp_s.Protocol.Supported.{IsControl, IsData, whole_byte}
use lapp_s.Parser.{Parser, reset, validate_header, to_payload, with_fseq, get_buffer}
use lapp_s.Parser.Buffers.{get_buffer-SameState}
use lapp_s.Parser.Copy.Loop.{IsKey}
use lapp_s.Parser.Copy.Fill.{mask_from, mask_twice}
use lapp_s.Parser.Delivery.{IsIdle}
use lapp_s.Parser.Validate.{
  is_control_lem, validate-first, validate-middle, validate-last, validate-control,
}
use lapp_s.Parser.Machine.{Outcome, returned, proceed, from_validate, from_payload, enter}
use lapp_s.Server.{server_side, get_message, ready_message, take_message}
use lapp_s.Server.Copied.{from_payload-single}
use lapp_s.Server.Receive.{Delivers, length-mask_from}
use lapp_s.Server.Fragments.{fragment, length-fragment, keyed, Checks}
use lapp_s.Server.Fragments.Kinds.{
  taken, from_payload-first, from_payload-middle, from_payload-last,
}

-- Within a message of opcode `oc`, of which `acc` has been received.
pub record IsBegun (max oc : ℕ) (acc : List ℕ) (p : Parser) : Type 0 where
  pub state : p.state ≡ State.init
  pub opcodes : p.opcodes ≡ oc ∷ []
  pub max_msg_size : p.max_msg_size ≡ max
  pub frames : p.message_frames ≡ acc

-- The machine goes on with the next frame, at `j`.
pub record GoesOn (again : ℕ → Parser → Outcome) (max oc : ℕ) (acc : List ℕ) (j : ℕ) (out : Outcome)
    : Type 0 where
  pub next : Parser
  pub runs : out ≡ again j next
  pub begun : IsBegun max oc acc next

abbrev pub ready_at : ℕ → Result
ready_at j = record {
  cursor = j;
  directive = Directive.take_ready_message;
  c_code = CloseCode.normal;
}

-- The call reports a control message, and the message stays begun when that one is taken.
pub record Interrupts (max oc : ℕ) (acc : List ℕ) (op : ℕ) (src : List ℕ) (cursor : ℕ)
    (out : Outcome) : Type 0 where
  pub after : Parser
  pub next : Parser
  pub runs : out ≡ returned after (ready_at cursor)
  pub event : get_message after ≡ some (next, record { type = op; message = src })
  pub begun : IsBegun max oc acc next

module _ (s : List ℕ) (octets : IsOctets s) (again : ℕ → Parser → Outcome) (i : ℕ) (k : Four)
    (key : IsKey k) (src post : List ℕ) (plain : IsOctets src) (p : Parser) where
  abbrev wire : List ℕ
  wire = mask_from k 0 src

  abbrev Checked : ℕ → Type 0
  Checked b = Checks s again b (length src) k i p (wire ++ post)

  abbrev entered : Outcome
  entered = enter server_side s (length s) again p.state (record p { cursor = i })

  size_of : (b : ℕ) (c : Checked b) → c.header.msg_size ≡ length wire
  size_of b c = c.msg_size ∙ sym (length-mask_from k 0 src)

  end_of : (b : ℕ) (c : Checked b) → c.at + length wire ≡ i + length (fragment b k src)
  end_of b c = omega (arith, c.behind, length-fragment b k src, length-mask_from k 0 src)

  validated :
      (q q2 : Parser)
      → validate_header q ≡ to_payload q2
      → from_validate server_side s (length s) again q
        ≡ from_payload server_side s (length s) again (record q2 { state = State.payload })
  unfolding from_validate proceed
  validated q q2 e = ap (λ r. proceed r (from_payload server_side s (length s) again)) e

  pub first_received :
      (max oc : ℕ)
      → IsIdle max p
      → IsData oc
      → Checked oc
      → GoesOn again max oc src (i + length (fragment oc k src)) entered
  unfolding reset
  first_received max oc idle data_frame c =
      let small : (oc / 128 ≡ 0) × (oc % 16 ≡ oc) = ground arith in
      let opcode : c.header.opcode ≡ oc = c.opcode ∙ small.1 in
      let kp = keyed p c.header k c.at in
      let p1 = record (with_fseq kp FrameSeq.first) { opcodes = c.header.opcode ∷ [] } in
      let p2 = record p1 { state = State.payload } in
      let next =
        taken s octets wire post p2 c.here c.inside refl (size_of oc c) key refl
          (mask_from k 0 wire) State.init in
      record {
        next = next;
        runs =
            c.runs
            ∙ (validated kp p1
                  (validate-first kp (c.fin ∙ small.0) (rw opcode data_frame) idle.opcodes)
                ∙ (from_payload-first s octets wire post p2 c.here c.inside refl (size_of oc c) key
                      refl again refl
                    ∙ ap (λ j. again j next) (end_of oc c)));
        begun = record {
          state = refl;
          opcodes = ap (λ x. x ∷ []) opcode;
          max_msg_size = idle.max_msg_size;
          frames = mask_twice k 0 src key plain;
        };
      }

  module _ (max oc : ℕ) (acc : List ℕ) (begun : IsBegun max oc acc p) where
    joined : p.message_frames ++ mask_from k 0 wire ≡ acc ++ src
    joined = ap₂ ◌++◌ begun.frames (mask_twice k 0 src key plain)

    fits_of : length acc + length src ≤ max → length p.message_frames + length wire ≤ p.max_msg_size
    fits_of fits =
        omega (arith, ap length begun.frames, length-mask_from k 0 src, begun.max_msg_size)

    pub middle_received :
        length acc + length src ≤ max
        → Checked 0
        → GoesOn again max oc (acc ++ src) (i + length (fragment 0 k src)) entered
    unfolding reset
    middle_received fits c =
        let kp = keyed p c.header k c.at in
        let p1 = with_fseq kp FrameSeq.middle in
        let p2 = record p1 { state = State.payload } in
        let next =
          taken s octets wire post p2 c.here c.inside refl (size_of 0 c) key refl
            (p.message_frames ++ mask_from k 0 wire) State.init in
        record {
          next = next;
          runs =
              c.runs
              ∙ (validated kp p1 (validate-middle kp oc c.fin c.opcode begun.opcodes)
                  ∙ (from_payload-middle s octets wire post p2 c.here c.inside refl (size_of 0 c)
                        key refl again (fits_of fits) refl
                      ∙ ap (λ j. again j next) (end_of 0 c)));
          begun = record {
            state = refl;
            opcodes = begun.opcodes;
            max_msg_size = begun.max_msg_size;
            frames = joined;
          };
        }

    pub last_received :
        length acc + length src ≤ max
        → Checked 128
        → Delivers max oc (acc ++ src) (i + length (fragment 128 k src)) entered
    unfolding reset get_message ready_message take_message
    last_received fits c =
        let kp = keyed p c.header k c.at in
        let p1 = record kp {
          header = record (kp.header) { fseq = FrameSeq.last; opcode = oc };
          opcodes = [];
        } in
        let p2 = record p1 { state = State.payload } in
        let after =
          taken s octets wire post p2 c.here c.inside refl (size_of 128 c) key refl
            (p.message_frames ++ mask_from k 0 wire) State.message_ready in
        let freed = record after { state = State.init } in
        let same = get_buffer-SameState freed in
        let next = record ((get_buffer freed).1) { message_frames = (get_buffer freed).0 } in
        record {
          after = after;
          next = next;
          runs =
              c.runs
              ∙ (validated kp p1 (validate-last kp oc c.fin c.opcode begun.opcodes)
                  ∙ (from_payload-last s octets wire post p2 c.here c.inside refl (size_of 128 c)
                        key refl again (fits_of fits) refl
                      ∙ ap (λ j. returned after (ready_at j)) (end_of 128 c)));
          event = ap (λ m. some (next, record { type = oc; message = m })) joined;
          idle = record {
            state = same.state;
            opcodes = same.opcodes;
            max_msg_size = same.max_msg_size ∙ begun.max_msg_size;
          };
        }

    -- A control frame is handed out by itself, and the message stays begun.
    pub control_received :
        (op : ℕ)
        → IsControl op
        → length src ≤ 125
        → ((op ≢ OpCode.close) ⊎ (0 < length src))
        → Checked (128 + op)
        → Interrupts max oc acc op src (i + length (fragment (128 + op) k src)) entered
    unfolding reset get_message ready_message take_message
    control_received op control small body c =
        let bits = whole_byte op (inr control) in
        let opcode : c.header.opcode ≡ op = c.opcode ∙ bits.3 in
        let kp = keyed p c.header k c.at in
        let p2 = record kp { state = State.payload } in
        let after = record p2 {
          message = mask_from k 0 wire;
          pl_bytes_ready = length wire;
          cursor = c.at + length wire;
          state = State.message_ready;
        } in
        let freed = record after { state = State.init } in
        let same = get_buffer-SameState freed in
        let next = record ((get_buffer freed).1) { message = (get_buffer freed).0 } in
        record {
          after = after;
          next = next;
          runs =
              c.runs
              ∙ (validated kp kp (
                    validate-control kp (c.fin ∙ bits.4)
                      (is_control_lem c.header.opcode (rw opcode control)) (rw c.msg_size small)
                      (λ e. rw c.msg_size (closing body (sym opcode ∙ e))))
                  ∙ (from_payload-single s octets again wire post p2 c.here c.inside refl
                        (size_of (128 + op) c) c.fseq key refl
                      ∙ ap (λ j. returned after (ready_at j)) (end_of (128 + op) c)));
          event =
              ap (λ f. some (take_message f freed)) c.fseq
              ∙ ap₂ (λ t m. some (next, record { type = t; message = m })) opcode
                  (mask_twice k 0 src key plain);
          begun = record {
            state = same.state;
            opcodes = same.opcodes ∙ begun.opcodes;
            max_msg_size = same.max_msg_size ∙ begun.max_msg_size;
            frames = same.message_frames ∙ begun.frames;
          };
        }
      where
        closing : (op ≢ OpCode.close) ⊎ (0 < length src) → op ≡ OpCode.close → 0 < length src
        closing (inl no_close) e = absurd (no_close e)
        closing (inr some_body) e = some_body

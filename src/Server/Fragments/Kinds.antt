-- ===== src/Server/Fragments/Kinds.antt =====
-- The payloads of the fragments of a message, at the end of the frames that came before.
use lapp_s.Common.{
  ℕ, ◌+◌, ◌-◌, ◌≤◌, true, false, Bool-cases, inl, inr, List, [], ◌∷◌, ◌++◌, ◌≡◌, refl, sym, ap, ◌∙◌,
  arith, length, length-append, length-replicate, append-nil, drop, drop-all, resize, length-resize,
  resize-grow, replicate, ltb, ◌==◌, IsOctets,
}
use lapp_s.Protocol.{State, Directive, FrameSeq}
use lapp_s.Protocol.CloseCode
use lapp_s.Parser.{Parser, go_on}
use lapp_s.Parser.Copy.Loop.{IsKey}
use lapp_s.Parser.Copy.Fill.{mask_from}
use lapp_s.Parser.Machine.{Outcome, returned, proceed, from_payload, decide_on_done, on_done}
use lapp_s.Server.{
  double_mask, store_frames, payload_fragment, payload_first, payload_next, payload_of,
  process_payload, server_side,
}
use lapp_s.Server.Copied.{copied-whole}

module _ (s : List ℕ) (octets : IsOctets s) (wire post : List ℕ) (p : Parser)
    (here : drop p.cursor s ≡ wire ++ post) (inside : p.cursor ≤ length s)
    (fresh : p.pl_bytes_ready ≡ 0) (size : p.header.msg_size ≡ length wire)
    (key : IsKey p.header.mask) (double : p.mask ≡ double_mask p.header.mask) where
  -- The parser when the payload is behind it.
  abbrev pub taken : List ℕ → State → Parser
  taken frames state = record p {
    message_frames = frames;
    pl_bytes_ready = length wire;
    cursor = p.cursor + length wire;
    state = state;
  }

  abbrev pub plain : List ℕ
  plain = mask_from p.header.mask 0 wire

  payload_fragment-whole :
      (pre hole : List ℕ)
      → length hole ≡ length wire
      → payload_fragment s (length s) (record p { message_frames = pre ++ hole })
        ≡ go_on (taken (pre ++ plain) State.done)
  unfolding payload_fragment
  payload_fragment-whole pre hole same =
      let used : length (pre ++ hole) - p.header.msg_size ≡ length pre =
        omega (arith, length-append pre hole) in
      rw used (
        copied-whole s octets pre hole wire post same (record p { message_frames = pre ++ hole })
          here inside fresh size key double store_frames)

  pub payload_first-whole : payload_first s (length s) p ≡ go_on (taken plain State.done)
  unfolding payload_first
  payload_first-whole =
      let start : (p.pl_bytes_ready == 0) ≡ true = rw fresh refl in
      rw start (
        payload_fragment-whole [] (resize p.header.msg_size p.message_frames)
          (length-resize p.header.msg_size p.message_frames ∙ size))

  pub payload_next-whole :
      length p.message_frames + length wire ≤ p.max_msg_size
      → payload_next s (length s) p ≡ go_on (taken (p.message_frames ++ plain) State.done)
  unfolding payload_next
  payload_next-whole fits =
      let m = p.message_frames in
      let in_limit : ltb p.max_msg_size (length m + p.header.msg_size) ≡ false = ground arith in
      let start : (p.pl_bytes_ready == 0) ≡ true = rw fresh refl in
      elim (Bool-cases (p.cursor == length s)) [
        | inl over ↦
            let none_left : wire ≡ [] =
              at_end wire (sym here ∙ drop-all p.cursor s (ground arith)) in
            rw start (
              rw over (
                ap (λ t. payload_fragment s (length s) (record p { message_frames = t }))
                  (sym (append-nil m))
                ∙ payload_fragment-whole m [] (rw none_left refl)))
        | inr more ↦ rw start (
            rw more (
              rw in_limit (
                ap (λ t. payload_fragment s (length s) (record p { message_frames = t }))
                  (resize-grow p.header.msg_size m)
                ∙ payload_fragment-whole m (replicate p.header.msg_size 0)
                    (length-replicate p.header.msg_size 0 ∙ size))))
      ]
    where
      at_end : (wire : List ℕ) → wire ++ post ≡ [] → wire ≡ []
      at_end [] e = refl
      at_end (x ∷ wire) e = cc

  module _ (again : ℕ → Parser → Outcome) where
    -- A fragment that the message does not end with: the next frame follows.
    pub from_payload-first :
        p.header.fseq ≡ FrameSeq.first
        → from_payload server_side s (length s) again p
          ≡ again (p.cursor + length wire) (taken plain State.init)
    unfolding from_payload process_payload payload_of proceed decide_on_done on_done
    from_payload-first first =
        ap (λ r. proceed r (decide_on_done server_side s (length s) again))
          (ap (λ f. payload_of s (length s) f p) first ∙ payload_first-whole)
        ∙ ap (λ f. on_done server_side s (length s) again f (taken plain State.done)) first

    module _ (fits : length p.message_frames + length wire ≤ p.max_msg_size) where
      pub from_payload-middle :
          p.header.fseq ≡ FrameSeq.middle
          → from_payload server_side s (length s) again p
            ≡ again (p.cursor + length wire) (taken (p.message_frames ++ plain) State.init)
      unfolding from_payload process_payload payload_of proceed decide_on_done on_done
      from_payload-middle middle =
          ap (λ r. proceed r (decide_on_done server_side s (length s) again))
            (ap (λ f. payload_of s (length s) f p) middle ∙ payload_next-whole fits)
          ∙ ap
              (λ f.
                on_done server_side s (length s) again f
                  (taken (p.message_frames ++ plain) State.done))
              middle

      pub from_payload-last :
          p.header.fseq ≡ FrameSeq.last
          → from_payload server_side s (length s) again p
            ≡ returned (taken (p.message_frames ++ plain) State.message_ready) (record {
              cursor = p.cursor + length wire;
              directive = Directive.take_ready_message;
              c_code = CloseCode.normal;
            })
      unfolding from_payload process_payload payload_of proceed decide_on_done on_done
      from_payload-last last =
          ap (λ r. proceed r (decide_on_done server_side s (length s) again))
            (ap (λ f. payload_of s (length s) f p) last ∙ payload_next-whole fits)
          ∙ ap
              (λ f.
                on_done server_side s (length s) again f
                  (taken (p.message_frames ++ plain) State.done))
              last

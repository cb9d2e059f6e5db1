-- ===== src/Server/Fragments/Whole.antt =====
-- A whole fragmented message at the server's parser, with the control frames in between.
use lapp_s.Common.{
  ℕ, zero, suc, ◌+◌, ◌-◌, ◌*◌, ◌%◌, ◌≤◌, ◌<◌, ◌^◌, List, [], ◌∷◌, ◌++◌, ◌≡◌, ◌⊎◌, inl, inr, refl,
  sym, ap, subst, ◌∙◌, arith, length, length-append, length-drop, drop, drop-append_at,
  append_assoc, IsOctets,
}
use lapp_s.Protocol.{Four, WsEvent}
use lapp_s.Protocol.OpCode
use lapp_s.Protocol.Supported.{IsData, continue_supported, is_op_code_supported_of, whole_byte}
use lapp_s.Parser.{Parser}
use lapp_s.Parser.Copy.Loop.{IsKey}
use lapp_s.Parser.Delivery.{IsIdle}
use lapp_s.Parser.Opening.{FirstByte}
use lapp_s.Parser.Machine.{Outcome, parse_on}
use lapp_s.Server
use lapp_s.Server.{server_side, get_message}
use lapp_s.Server.Fragments.{fragment, fragment-Checks}
use lapp_s.Server.Fragments.Message.{
  IsBegun, first_received, middle_received, last_received, control_received,
}
use lapp_s.Server.Fragments.Pieces.{
  Piece, part, control, bytes_of, text_of, events_of, ArePieces, Reports, final, another,
  pieces_short,
}

first_byte : (fin : ℕ) → (fin ≡ 0) ⊎ (fin ≡ 1) → FirstByte (128 * fin)
first_byte fin h = record {
  octet = ground arith;
  no_rsv = ground arith;
  known = let low : 128 * fin % 16 ≡ OpCode.continue = omega arith in rw low continue_supported;
}

-- The calls that take the message begin with `out`, and end behind it with an idle parser.
abbrev pub Ends : List ℕ → ℕ → Outcome → List WsEvent → ℕ → Type 0
Ends s max out es j = (q : Parser) × (Reports s out es j q) × (IsIdle max q)

Ends-subst :
    (s : List ℕ) (max : ℕ) {out out' : Outcome} {es es' : List WsEvent} {j j' : ℕ}
    → out' ≡ out
    → es ≡ es'
    → j ≡ j'
    → Ends s max out es j
    → Ends s max out' es' j'
Ends-subst s max {out} {out'} {es} {es'} {j} {j'} o e n h =
    subst (λ x. Ends s max out' es' x) n
      (subst (λ x. Ends s max out' x j) e (subst (λ x. Ends s max x es j) (sym o) h))

module _ (s : List ℕ) (octets : IsOctets s) (max oc : ℕ) (word : max < 2 ^ 63) (k : Four)
    (key : IsKey k) (src : List ℕ) (plain : IsOctets src) (post : List ℕ) where
  abbrev whole : List ℕ → WsEvent
  whole text = record { type = oc; message = text }

  -- The frames behind the first one, from a parser that has `acc` of the message.
  rest_received :
      (ps : List Piece) (f i : ℕ) (p : Parser) (acc : List ℕ)
      → ArePieces ps
      → IsBegun max oc acc p
      → length ps < f
      → length acc + length (text_of ps src) ≤ max
      → drop i s ≡ bytes_of ps k src ++ post
      → Ends s max
          (parse_on server_side f s (length s) i p)
          (events_of ps (whole (acc ++ text_of ps src)))
          (i + length (bytes_of ps k src))
  unfolding parse_on
  rest_received ps zero i p acc ok begun enough fits here = absurd (omega arith)
  rest_received [] (suc f) i p acc ok begun enough fits here =
      let again = parse_on server_side f s (length s) in
      let c =
        fragment-Checks s again i 128 k src post p (first_byte 1 (inr refl)) (omega arith)
          (λ h. omega (arith, begun.max_msg_size)) begun.state here in
      let d = last_received s octets again i k key src post plain p max oc acc begun fits c in
      (
        d.next,
        subst (λ o. Reports s o (whole (acc ++ src) ∷ []) (i + length (fragment 128 k src)) d.next)
            (sym d.runs)
            (final d.after d.next (whole (acc ++ src)) (i + length (fragment 128 k src)) d.event),
        d.idle,
      )
  rest_received (part j piece ∷ ps) (suc f) i p acc ok begun enough fits here =
      let again = parse_on server_side f s (length s) in
      let rest = bytes_of ps k src in
      let now = fragment 0 j piece in
      let at = here ∙ append_assoc now rest post in
      let room : length acc + length piece ≤ max =
        omega (arith, length-append piece (text_of ps src)) in
      let c =
        fragment-Checks s again i 0 j piece (rest ++ post) p (first_byte 0 (inl refl)) (omega arith)
          (λ h. omega (arith, begun.max_msg_size)) begun.state at in
      let g =
        middle_received s octets again i j ok.0.0 piece (rest ++ post) ok.0.1 p max oc acc begun
          room c in
      Ends-subst s max g.runs
        (ap (λ t. events_of ps (whole t)) (append_assoc acc piece (text_of ps src)))
        (omega (arith, length-append now rest))
        (rest_received ps f (i + length now) g.next (acc ++ piece) ok.1 g.begun (omega arith)
          (omega (arith, length-append piece (text_of ps src), length-append acc piece))
          (drop-append_at s i now (rest ++ post) at))
  rest_received (control j op piece ∷ ps) (suc f) i p acc ok begun enough fits here =
      let again = parse_on server_side f s (length s) in
      let (piece_key, piece_plain, is_control, small, body) = ok.0 in
      let bits = whole_byte op (inr is_control) in
      let rest = bytes_of ps k src in
      let now = fragment (128 + op) j piece in
      let at = here ∙ append_assoc now rest post in
      let c =
        fragment-Checks s again i (128 + op) j piece (rest ++ post) p
          (record {
            octet = bits.1;
            no_rsv = bits.2;
            known = rw bits.3 (is_op_code_supported_of op (inr is_control));
          })
          (omega arith) (λ h. absurd (omega arith)) begun.state at in
      let d =
        control_received s octets again i j piece_key piece (rest ++ post) piece_plain p max oc acc
          begun op is_control small body c in
      let n = i + length now in
      let behind = drop-append_at s i now (rest ++ post) at in
      let left : length rest ≤ length s - n =
        omega (arith, ap length behind, length-drop n s, length-append rest post) in
      let (q, reports, idle) =
        rest_received ps (suc (suc (length s - n))) n d.next acc ok.1 d.begun
          (omega (arith, left, pieces_short ps k src)) fits behind in
      Ends-subst s max d.runs refl (omega (arith, length-append now rest)) (
        q,
        another d.after d.next q (record { type = op; message = piece })
            (events_of ps (whole (acc ++ text_of ps src))) n (n + length rest) d.event (omega arith)
            (omega (arith, left, pieces_short ps k src)) reports,
        idle,
      )

  -- An idle server parser that finds at its cursor, in an input of octets, the frames of a fragmented
  -- message, all masked with keys of octets, with control frames between them: the caller that takes
  -- each message gets the control messages, in their order, and then the whole message with the
  -- opcode of its first frame, and the parser is idle behind the last frame. The message is within
  -- the parser's limit, which is less than 2^63; a control frame has 125 bytes at most and is not an
  -- empty close.
  pub fragmented_message_received :
      (i : ℕ) (j : Four) (first : List ℕ) (ps : List Piece) (p : Parser)
      → IsKey j
      → IsOctets first
      → IsData oc
      → ArePieces ps
      → IsIdle max p
      → length first + length (text_of ps src) ≤ max
      → drop i s ≡ fragment oc j first ++ (bytes_of ps k src ++ post)
      → Ends s max
          (Server.parse s (length s) i p)
          (events_of ps (whole (first ++ text_of ps src)))
          (i + length (fragment oc j first) + length (bytes_of ps k src))
  unfolding parse_on
  fragmented_message_received i j first ps p first_key first_plain data_frame ok idle fits here =
      let f = suc (length s - i) in
      let again = parse_on server_side f s (length s) in
      let rest = bytes_of ps k src in
      let now = fragment oc j first in
      let small : (oc < 16) × (oc % 16 ≡ oc) = ground arith in
      let c =
        fragment-Checks s again i oc j first (rest ++ post) p
          (record {
            octet = omega arith;
            no_rsv = omega arith;
            known = rw small.1 (is_op_code_supported_of oc (inl data_frame));
          })
          (omega arith) (λ h. omega (arith, idle.max_msg_size)) idle.state here in
      let g =
        first_received s octets again i j first_key first (rest ++ post) first_plain p max oc idle
          data_frame c in
      let behind = drop-append_at s i now (rest ++ post) here in
      let left : length rest ≤ length s - (i + length now) =
        omega (arith, ap length behind, length-drop (i + length now) s, length-append rest post) in
      Ends-subst s max g.runs refl refl (
        rest_received ps f (i + length now) g.next first ok g.begun
          (omega (arith, left, pieces_short ps k src)) fits behind)

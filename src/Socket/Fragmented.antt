-- ===== src/Socket/Fragmented.antt =====
-- `processInput` of include/WebSocket.h on a read that the parser cuts into several messages: a
-- fragmented message, with control frames in between.
use lapp_s.Common.{
  ℕ, zero, suc, ◌+◌, ◌≤◌, ◌<◌, ◌^◌, true, false, List, [], ◌∷◌, ◌++◌, ◌≡◌, refl, sym, ap, subst,
  ◌∙◌, arith, length, length-append, append-nil, IsOctets, ltb, ◌&&◌,
}
use lapp_s.Protocol.{Four, WsEvent}
use lapp_s.Protocol.Supported.{IsData}
use lapp_s.Parser.{Parser}
use lapp_s.Parser.Copy.Loop.{IsKey}
use lapp_s.Parser.Delivery.{IsIdle}
use lapp_s.Parser.Machine.{Outcome}
use lapp_s.Server
use lapp_s.Server.Fragments.{fragment}
use lapp_s.Server.Fragments.Pieces.{
  Piece, part, control, ArePieces, bytes_of, text_of, events_of, Reports, final, another,
  pieces_short,
}
use lapp_s.Server.Fragments.Whole.{fragmented_message_received}
use lapp_s.Socket.{
  Socket, Phase, Effect, on_outcome, on_directive, with_message, after_message, process_from,
  process_input, done, messaging_input,
}
use lapp_s.Socket.Handled.{Acceptable, reaction, Handled, on_message-Acceptable}
use lapp_s.Socket.Session.{one_more, nothing_more}

abbrev pub reactions_to : List WsEvent → List WsEvent
reactions_to [] = []
reactions_to (e ∷ es) = reaction e.type e.message ++ reactions_to es

abbrev pub bytes_in : List WsEvent → ℕ
bytes_in [] = 0
bytes_in (e ∷ es) = length e.message + bytes_in es

abbrev pub AllTaken : List WsEvent → Type 0
AllTaken [] = Unit
AllTaken (e ∷ es) = Acceptable e.type e.message × AllTaken es

-- The socket after all of the events, ready for the next read.
pub record Answered (max : ℕ) (s : Socket) (es : List WsEvent) (e : Effect) : Type 0 where
  pub after : Socket
  pub runs : e ≡ done after true
  pub idle : IsIdle max after.parser
  pub handled : Handled s after (reactions_to es) (length es) (bytes_in es)

Reports-some :
    {s : List ℕ} {out : Outcome} {es : List WsEvent} {n : ℕ} {q : Parser}
    → Reports s out es n q
    → 0 < length es
Reports-some (final a q e j event) = omega arith
Reports-some (another a q r e es j n event from_0 inside reports) = omega arith

-- The parser is no part of what is handled.
Handled-parser :
    (s : Socket) (p : Parser) {t : Socket} {queued : List WsEvent} {n a : ℕ}
    → Handled (record s { parser = p }) t queued n a
    → Handled s t queued n a
Handled-parser s p h = record {
  phase = h.phase;
  no_input = h.no_input;
  has_application = h.has_application;
  events = h.events;
  message_count = h.message_count;
  bytes_in = h.bytes_in;
}

module _ (max : ℕ) (input : List ℕ) where
  -- From the call of `parse` that has returned `out`.
  Reports-Answered :
      (f : ℕ) (s : Socket) (out : Outcome) (es : List WsEvent) (n : ℕ) (q : Parser)
      → Reports input out es n q
      → n ≡ length input
      → IsIdle max q
      → length es ≤ suc f
      → s.has_application ≡ true
      → AllTaken es
      → Answered max s es (on_outcome (process_from f input) (length input) s out)
  unfolding on_outcome on_directive with_message after_message process_from
  Reports-Answered f s _ _ _ _ (final a q e j event) over idle enough app (ok, rest) =
      let again = process_from f input in
      let s1 = record s { parser = q } in
      let (s', taken, same, h) = on_message-Acceptable s1 e.message e.type app ok in
      let stop : (ltb 0 j && ltb j (length input)) ≡ false = ground arith in
      record {
        after = s';
        runs =
            ap (with_message again (length input) (record s { parser = a }) j) event
            ∙ (ap (after_message again (length input) j) taken ∙ rw stop refl);
        idle = subst (IsIdle max) (sym same) idle;
        handled = one_more (Handled-parser s q h) nothing_more;
      }
  Reports-Answered zero s _ _ _ _ (another a q r e es j n event from_0 inside reports) over idle
        enough app all =
      absurd (omega (arith, Reports-some reports))
  Reports-Answered (suc f) s _ _ _ _ (another a q r e es j n event from_0 inside reports) over idle
        enough app (ok, rest) =
      let again = process_from (suc f) input in
      let s1 = record s { parser = q } in
      let (s', taken, same, h) = on_message-Acceptable s1 e.message e.type app ok in
      let more : (ltb 0 j && ltb j (length input)) ≡ true = ground arith in
      let next =
        Reports-Answered f s' (Server.parse input (length input) j s'.parser) es n r
          (subst (λ p. Reports input (Server.parse input (length input) j p) es n r) (sym same)
            reports)
          over idle (omega arith) (h.has_application ∙ app) rest in
      record {
        after = next.after;
        runs =
            ap (with_message again (length input) (record s { parser = a }) j) event
            ∙ (ap (after_message again (length input) j) taken ∙ (rw more refl ∙ next.runs));
        idle = next.idle;
        handled = one_more (Handled-parser s q h) next.handled;
      }

length-events_of : (ps : List Piece) (e : WsEvent) → length (events_of ps e) ≤ suc (length ps)
length-events_of [] e = omega arith
length-events_of (part j piece ∷ ps) e = omega (arith, length-events_of ps e)
length-events_of (control j op piece ∷ ps) e = omega (arith, length-events_of ps e)

-- In the messaging state, with an application and an idle parser, a read of octets that holds
-- the frames of one fragmented message, with pings and pongs between them, is taken to its end: the
-- application's queue gets the pongs that the pings ask for, in their order, and then the whole
-- message, if it is acceptable; the statistics count the messages and their bytes, the connection
-- stays as it is, and the parser is ready again. The message is within the parser's limit, which
-- is less than 2^63.
pub process_input-Answered :
    (max oc : ℕ) (s : Socket) (j : Four) (first : List ℕ) (ps : List Piece) (k : Four)
    (src : List ℕ)
    → IsOctets (fragment oc j first ++ bytes_of ps k src)
    → s.phase ≡ Phase.messaging
    → s.has_application ≡ true
    → IsIdle max s.parser
    → max < 2 ^ 63
    → IsKey j
    → IsOctets first
    → IsKey k
    → IsOctets src
    → IsData oc
    → ArePieces ps
    → length first + length (text_of ps src) ≤ max
    → AllTaken (events_of ps (record { type = oc; message = first ++ text_of ps src }))
    → Answered max s
        (events_of ps (record { type = oc; message = first ++ text_of ps src }))
        (process_input (fragment oc j first ++ bytes_of ps k src) s)
unfolding process_input process_from
process_input-Answered max oc s j first ps k src octets phase app idle word first_key first_plain
      key plain data_frame pieces fits taken =
    let input = fragment oc j first ++ bytes_of ps k src in
    let es = events_of ps (record { type = oc; message = first ++ text_of ps src }) in
    let (q, reports, idle_again) =
      fragmented_message_received input octets max oc word k key src plain [] 0 j first ps s.parser
        first_key first_plain data_frame pieces idle fits
        (ap (λ t. fragment oc j first ++ t) (sym (append-nil (bytes_of ps k src)))) in
    let total : length input ≡ length (fragment oc j first) + length (bytes_of ps k src) =
      omega (arith, length-append (fragment oc j first) (bytes_of ps k src)) in
    subst (Answered max s es) (sym (ap (λ ph. messaging_input ph input s) phase)) (
      Reports-Answered max input (suc (length input)) s
        (Server.parse input (length input) 0 s.parser) es _ q reports (omega arith) idle_again
        (omega (
          arith,
          length-events_of ps (record { type = oc; message = first ++ text_of ps src }),
          pieces_short ps k src,
        ))
        app taken)

-- ===== src/Socket/Session.antt =====
-- `processInput` of include/WebSocket.h on a read that holds whole messages.
use lapp_s.Common.{
  ℕ, zero, suc, ◌+◌, ◌-◌, ◌≤◌, ◌<◌, true, false, List, [], ◌∷◌, ◌++◌, ◌≡◌, refl, sym, ap, subst,
  ◌∙◌, arith, length, length-append, drop, drop-length, drop-append_at, append_assoc, append-nil,
  IsOctets, ltb, ◌&&◌,
}
use lapp_s.Protocol.{Four, WsEvent}
use lapp_s.Parser.Copy.Loop.{IsKey}
use lapp_s.Parser.Delivery.{IsIdle}
use lapp_s.Server
use lapp_s.Server.Receive.{masked_frame, masked_frame_received}
use lapp_s.Socket.{
  Socket, Phase, Effect, on_outcome, on_directive, with_message, after_message, process_from,
  process_input, done, messaging_input,
}
use lapp_s.Socket.Handled.{
  Acceptable, reaction, Acceptable-Sendable, Handled, on_message-Acceptable,
}

-- A message of the peer, with the key that it masks the frame with.
pub record Sent : Type 0 where
  pub key : Four
  pub opcode : ℕ
  pub payload : List ℕ

abbrev pub frame_of : Sent → List ℕ
frame_of m = masked_frame m.key m.opcode m.payload

abbrev pub wire : List Sent → List ℕ
wire [] = []
wire (m ∷ ms) = frame_of m ++ wire ms

abbrev pub reactions : List Sent → List WsEvent
reactions [] = []
reactions (m ∷ ms) = reaction m.opcode m.payload ++ reactions ms

abbrev pub payload_bytes : List Sent → ℕ
payload_bytes [] = 0
payload_bytes (m ∷ ms) = length m.payload + payload_bytes ms

-- Every message is acceptable and no larger than the socket allows.
abbrev pub AllAcceptable : ℕ → List Sent → Type 0
AllAcceptable max [] = Unit
AllAcceptable max (m ∷ ms) =
    (IsKey m.key
      × IsOctets m.payload
      × Acceptable m.opcode m.payload
      × (125 < length m.payload → length m.payload ≤ max))
    × AllAcceptable max ms

-- The socket after all of a read, ready for the next one.
pub record Served (max : ℕ) (s : Socket) (ms : List Sent) (e : Effect) : Type 0 where
  pub after : Socket
  pub runs : e ≡ done after true
  pub idle : IsIdle max after.parser
  pub handled : Handled s after (reactions ms) (length ms) (payload_bytes ms)

Handled-then :
    {s t u : Socket} {xs ys : List WsEvent} {m n a b : ℕ}
    → Handled s t xs m a
    → Handled t u ys n b
    → Handled s u (xs ++ ys) (m + n) (a + b)
Handled-then {s} {xs} {ys} h k = record {
  phase = k.phase ∙ h.phase;
  no_input = k.no_input ∙ h.no_input;
  has_application = k.has_application ∙ h.has_application;
  events = k.events ∙ (ap (λ t. t ++ ys) h.events ∙ append_assoc s.events xs ys);
  message_count = omega (arith, k.message_count, h.message_count);
  bytes_in = omega (arith, k.bytes_in, h.bytes_in);
}

-- A frame is a byte at least.
length-wire : (ms : List Sent) → length ms ≤ length (wire ms)
length-wire [] = omega arith
length-wire (m ∷ ms) = omega (arith, length-append (frame_of m) (wire ms), length-wire ms)

pub nothing_more : {s : Socket} → Handled s s [] 0 0
nothing_more {s} = record {
  phase = refl;
  no_input = refl;
  has_application = refl;
  events = sym (append-nil s.events);
  message_count = omega arith;
  bytes_in = omega arith;
}

pub one_more :
    {s t u : Socket} {xs ys : List WsEvent} {n a b : ℕ}
    → Handled s t xs 1 a
    → Handled t u ys n b
    → Handled s u (xs ++ ys) (suc n) (a + b)
one_more {s} {u} {xs} {ys} {n} {a} {b} h k =
    subst (λ c. Handled s u (xs ++ ys) c (a + b)) (omega arith) (Handled-then h k)

module _ (max : ℕ) (input : List ℕ) (octets : IsOctets input) where
  -- One round of the loop, on a frame at the cursor.
  record Round (again : ℕ → Socket → Effect) (i : ℕ) (s : Socket) (m : Sent) : Type 0 where
    after : Socket
    runs :
        on_outcome again (length input) s (Server.parse input (length input) i s.parser)
        ≡ after_message again (length input) (i + length (frame_of m)) (done after true)
    idle : IsIdle max after.parser
    handled : Handled s after (reaction m.opcode m.payload) 1 (length m.payload)

  one-Round :
      (again : ℕ → Socket → Effect) (i : ℕ) (s : Socket) (m : Sent) (ms : List Sent)
      → s.has_application ≡ true
      → IsIdle max s.parser
      → AllAcceptable max (m ∷ ms)
      → drop i input ≡ wire (m ∷ ms)
      → Round again i s m
  unfolding on_outcome on_directive with_message
  one-Round again i s m ms app idle ((key, src, ok, fits), rest) here =
      let d =
        masked_frame_received (suc (length input - i)) input i m.opcode max m.key m.payload
          (wire ms) s.parser octets src key idle (Acceptable-Sendable m.opcode m.payload ok) fits
          here in
      let s1 = record s { parser = d.next } in
      let (s', e, same, h) = on_message-Acceptable s1 m.payload m.opcode app ok in
      let size = length input in
      let cursor = i + length (frame_of m) in
      record {
        after = s';
        runs =
            ap (on_outcome again size s) d.runs
            ∙ (ap (with_message again size (record s { parser = d.after }) cursor) d.event
                ∙ ap (after_message again size cursor) e);
        idle = subst (IsIdle max) (sym same) d.idle;
        handled = record {
          phase = h.phase;
          no_input = h.no_input;
          has_application = h.has_application;
          events = h.events;
          message_count = h.message_count;
          bytes_in = h.bytes_in;
        };
      }

  pub process_from-Served :
      (f i : ℕ) (s : Socket) (m : Sent) (ms : List Sent)
      → length ms ≤ f
      → s.has_application ≡ true
      → IsIdle max s.parser
      → AllAcceptable max (m ∷ ms)
      → drop i input ≡ wire (m ∷ ms)
      → Served max s (m ∷ ms) (process_from (suc f) input i s)
  unfolding process_from after_message
  process_from-Served f i s m [] enough app idle all here =
      let r = one-Round (process_from f input) i s m [] app idle all here in
      let cursor = i + length (frame_of m) in
      let stop : (ltb 0 cursor && ltb cursor (length input)) ≡ false =
        ground (arith, drop-length input i _ here, length-append (frame_of m) []) in
      record {
        after = r.after;
        runs = r.runs ∙ rw stop refl;
        idle = r.idle;
        handled = one_more r.handled nothing_more;
      }
  process_from-Served zero i s m (m' ∷ ms) enough app idle all here = absurd (omega arith)
  process_from-Served (suc f) i s m (m' ∷ ms) enough app idle all here =
      let r = one-Round (process_from (suc f) input) i s m (m' ∷ ms) app idle all here in
      let cursor = i + length (frame_of m) in
      let there = drop-append_at input i (frame_of m) (wire (m' ∷ ms)) here in
      let next =
        process_from-Served f cursor r.after m' ms (omega arith) (r.handled.has_application ∙ app)
          r.idle all.1 there in
      let more : (ltb 0 cursor && ltb cursor (length input)) ≡ true =
        ground (arith, drop-length input cursor _ there) in
      record {
        after = next.after;
        runs = r.runs ∙ (rw more refl ∙ next.runs);
        idle = next.idle;
        handled = one_more r.handled next.handled;
      }

-- In the messaging state, with an application and an idle parser, a read of octets that holds
-- whole frames of acceptable messages, one at least, is taken to its end: the application's queue
-- gets what the messages ask for, in their order, the statistics count all messages and their
-- bytes, the connection stays as it is, and the parser is ready again.
pub process_input-Served :
    (max : ℕ) (s : Socket) (m : Sent) (ms : List Sent)
    → IsOctets (wire (m ∷ ms))
    → s.phase ≡ Phase.messaging
    → s.has_application ≡ true
    → IsIdle max s.parser
    → AllAcceptable max (m ∷ ms)
    → Served max s (m ∷ ms) (process_input (wire (m ∷ ms)) s)
unfolding process_input
process_input-Served max s m ms octets phase app idle all =
    subst (Served max s (m ∷ ms)) (sym (ap (λ ph. messaging_input ph (wire (m ∷ ms)) s) phase)) (
      process_from-Served max (wire (m ∷ ms)) octets (suc (length (wire (m ∷ ms)))) 0 s m ms
        (omega (arith, length-wire (m ∷ ms))) app idle all refl)

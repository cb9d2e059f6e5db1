-- ===== src/Socket/Progress.antt =====
-- `processInput` of include/WebSocket.h ends: each round that goes on to another one has read a
-- whole message, or it is the first.
use lapp_s.Common.{
  ℕ, zero, suc, ◌+◌, ◌-◌, ◌<◌, ◌≤◌, Bool, true, false, Bool-cases, inl, inr, Option, some, none,
  List, ◌≡◌, ◌≢◌, arith, ltb, ◌==◌, ◌&&◌, if◌then◌else◌, length, drop,
}
use lapp_s.Protocol.{State, FrameSeq, Directive, Result, WsEvent}
use lapp_s.Protocol.OpCode
use lapp_s.Parser.{Parser}
use lapp_s.Parser.Buffers.{get_buffer-SameState}
use lapp_s.Parser.Utf8.{is_valid_utf8}
use lapp_s.Parser.Machine.{Outcome, returned, thrown, starved}
use lapp_s.Parser.Progress.Machine.{Says, Ends}
use lapp_s.Server
use lapp_s.Server.{ready_message, take_message}
use lapp_s.Server.Progress.{server_parse-Ends, server_parse-Ends_init}
use lapp_s.Socket.{
  Phase, Socket, Effect, done, throws, unsafe, out_of_fuel, update_in_stats, on_reason, on_text,
  on_type, on_close_message, on_message, after_message, with_message, on_directive, on_outcome,
  process_from, messaging_input, process_input,
}

-- An effect that goes on leaves the parser between two messages.
abbrev Ready : Effect → Type 0
Ready (done s true) = s.parser.state ≡ State.init
Ready (done s false) = Unit
Ready throws = Unit
Ready unsafe = Unit
Ready out_of_fuel = ⊥

if-Ready : (b : Bool) (x y : Effect) → Ready x → Ready y → Ready (if b then x else y)
if-Ready true x y then_ready else_ready = then_ready
if-Ready false x y then_ready else_ready = else_ready

take_message-state : (fs : FrameSeq) (p : Parser) → (take_message fs p).0.state ≡ p.state
unfolding take_message
take_message-state FrameSeq.single p = (get_buffer-SameState p).state
take_message-state FrameSeq.first p = (get_buffer-SameState p).state
take_message-state FrameSeq.middle p = (get_buffer-SameState p).state
take_message-state FrameSeq.last p = (get_buffer-SameState p).state

module _ (s : Socket) (fresh : s.parser.state ≡ State.init) where
  on_text-Ready : (message : List ℕ) (valid : Option Bool) → Ready (on_text s message valid)
  on_text-Ready message none = tt
  on_text-Ready message (some false) = tt
  on_text-Ready message (some true) = fresh

  on_reason-Ready : (message : List ℕ) (valid : Option Bool) → Ready (on_reason s message valid)
  on_reason-Ready message none = tt
  on_reason-Ready message (some false) = tt
  on_reason-Ready message (some true) = tt

  on_close_message-Ready : (message : List ℕ) → Ready (on_close_message s message)
  unfolding on_close_message
  on_close_message-Ready message = if-Ready (ltb (length message) 2) _ _ tt (
      on_reason-Ready message (
        if ltb 2 (length message)
        then is_valid_utf8 (drop 2 message) (length message)
        else some true))

  on_type-Ready : (event : WsEvent) → Ready (on_type s event)
  on_type-Ready event =
      let m = event.message in
      let t = event.type in
      if-Ready (t == OpCode.text) _ _ (on_text-Ready m (is_valid_utf8 m (length m))) (
        if-Ready (t == OpCode.binary) _ _ fresh (
          if-Ready (t == OpCode.close) _ _ (on_close_message-Ready m)
            (if-Ready (t == OpCode.ping) _ _ fresh (if-Ready (t == OpCode.pong) _ _ fresh tt))))

on_message-Ready :
    (s : Socket) (event : WsEvent) → s.parser.state ≡ State.init → Ready (on_message s event)
unfolding on_message update_in_stats
on_message-Ready s event fresh =
    if-Ready s.has_application _ _
      (on_type-Ready (update_in_stats s (length event.message)) fresh event) tt

-- From `c` on, the rounds that start between two messages end.
module _ (again : ℕ → Socket → Effect) (size c : ℕ)
    (later : (j : ℕ) (s : Socket)
      → c ≤ j
      → j < size
      → s.parser.state ≡ State.init
      → again j s ≢ out_of_fuel) where
  after_message-ne :
      (j : ℕ) (e : Effect) → c ≤ j → Ready e → after_message again size j e ≢ out_of_fuel
  unfolding after_message
  after_message-ne j (done s true) at ready = elim (Bool-cases (ltb 0 j && ltb j size)) [
    | inl on ↦ rw on (later j s at (ground arith) ready)
    | inr off ↦ rw off (λ h. absurd (ground arith))
  ]
  after_message-ne j (done s false) at ready = λ h. absurd (ground arith)
  after_message-ne j throws at ready = λ h. absurd (ground arith)
  after_message-ne j unsafe at ready = λ h. absurd (ground arith)
  after_message-ne j out_of_fuel at ready = absurd ready

  with_message-ne :
      (j : ℕ) (s : Socket) (st : State)
      → c ≤ j
      → with_message again size s j (ready_message st s.parser) ≢ out_of_fuel
  unfolding with_message ready_message
  with_message-ne j s State.message_ready at =
      let (p, event) =
        take_message s.parser.header.fseq (record (s.parser) { state = State.init }) in
      after_message-ne j (on_message (record s { parser = p }) event) at (
        on_message-Ready (record s { parser = p }) event
          (take_message-state s.parser.header.fseq (record (s.parser) { state = State.init })))
  with_message-ne j s _ at = λ h. absurd (ground arith)

  on_directive-ne :
      (s : Socket) (r : Result) (d : Directive)
      → Says c d r.cursor
      → on_directive again size s r d ≢ out_of_fuel
  unfolding on_directive Server.get_message
  on_directive-ne s r Directive.continue says = absurd says
  on_directive-ne s r Directive.more says = λ h. absurd (ground arith)
  on_directive-ne s r Directive.take_ready_message says =
      with_message-ne r.cursor s s.parser.state says
  on_directive-ne s r Directive.close_with_code says = λ h. absurd (ground arith)

  on_outcome-ne :
      (s : Socket) (out : Outcome) → Ends c out → on_outcome again size s out ≢ out_of_fuel
  unfolding on_outcome
  on_outcome-ne s (returned p r) ends = on_directive-ne (record s { parser = p }) r r.directive ends
  on_outcome-ne s (thrown p) ends = λ h. absurd (ground arith)
  on_outcome-ne s starved ends = absurd ends

module _ (input : List ℕ) where
  process_from_ends :
      (f i : ℕ) (s : Socket)
      → s.parser.state ≡ State.init
      → length input - i < f
      → process_from f input i s ≢ out_of_fuel
  unfolding process_from
  process_from_ends zero i s fresh enough = absurd (omega arith)
  process_from_ends (suc f) i s fresh enough =
      on_outcome-ne (process_from f input) (length input) (i + 1)
        (λ j t at inside ready. process_from_ends f j t ready (omega arith)) s
        (Server.parse input (length input) i s.parser)
        (server_parse-Ends_init input (length input) i s.parser fresh)

  messaging_input_ends : (phase : Phase) (s : Socket) → messaging_input phase input s ≢ out_of_fuel
  unfolding process_from
  messaging_input_ends Phase.accept s = λ h. absurd (ground arith)
  messaging_input_ends Phase.handshake s = λ h. absurd (ground arith)
  messaging_input_ends Phase.closed s = λ h. absurd (ground arith)
  messaging_input_ends Phase.messaging s =
      on_outcome-ne (process_from (suc (length input)) input) (length input) 0
        (λ j t at inside ready. process_from_ends (suc (length input)) j t ready (omega arith)) s
        (Server.parse input (length input) 0 s.parser)
        (server_parse-Ends input (length input) 0 s.parser)

-- A call of `processInput` ends within its fuel, whatever the input and the state of the socket
-- and of its parser.
pub process_input_ends : (input : List ℕ) (s : Socket) → process_input input s ≢ out_of_fuel
unfolding process_input
process_input_ends input s = messaging_input_ends input s.phase s

-- ===== src/Socket.antt =====
-- include/WebSocket.h: what the server's socket does with its input while it is messaging. The
-- application is the list of the events that it was handed, first event first; `enqueue` does
-- not fail here. The members that only call the socket, the TLS library or epoll are left out.
pub mod Handled
pub mod Session
pub mod Close
pub mod Progress
pub mod Fragmented
pub mod Text
use lapp_s.Common.{
  ℕ, zero, suc, ◌+◌, ◌&&◌, ◌||◌, Bool, true, false, Option, some, none, List, [], ◌∷◌, ◌++◌, ltb,
  ◌==◌, if◌then◌else◌, length, drop, byte_at, of_le_bytes, swap_bytes,
}
use lapp_s.Protocol.{Result, Directive, WsEvent}
use lapp_s.Protocol.OpCode
use lapp_s.Protocol.CloseCode
use lapp_s.Parser.{Parser, new_parser}
use lapp_s.Parser.Utf8.{is_valid_utf8}
use lapp_s.Parser.Machine.{Outcome, returned, thrown, starved}
use lapp_s.Server
use lapp_s.ServerMessage.{server_close_message, server_pong_message}

-- `State` of abstract::WebSocket, in the order of the enumerators
pub data Phase : Type 0 where
  accept handshake messaging closed : Phase

pub record Socket : Type 0 where
  pub phase : Phase
  pub no_input : Bool
  pub has_application : Bool
  pub parser : Parser
  pub events : List WsEvent
  pub message_count : ℕ
  pub bytes_in : ℕ

-- the constructor, without TLS
abbrev pub new_socket : Socket
new_socket = record {
  phase = Phase.handshake;
  no_input = false;
  has_application = false;
  parser = new_parser 512;
  events = [];
  message_count = 0;
  bytes_in = 0;
}

abbrev rank : Phase → ℕ
rank accept = 0
rank handshake = 1
rank messaging = 2
rank closed = 3

-- `setState`; `none` is the `std::logic_error`
unfoldable pub set_state : Socket → Phase → Option Socket
set_state s phase =
    if ltb (rank s.phase) (rank phase) || rank phase == rank s.phase
    then some (record s { phase = phase })
    else none

-- `setApplication`, with the greatest message size of a service
unfoldable pub set_application : Socket → Option ℕ → Socket
set_application s none = record s { has_application = false }
set_application s (some max) = record s {
  has_application = true;
  parser = record (s.parser) { max_msg_size = max };
}

abbrev pub enqueue : Socket → ℕ → List ℕ → Socket
enqueue s opcode message = record s {
  events = s.events ++ (record { type = opcode; message = message } ∷ []);
}

-- `updateInStats`, with statistics enabled
unfoldable pub update_in_stats : Socket → ℕ → Socket
update_in_stats s sz = record s {
  message_count = s.message_count + 1;
  bytes_in = if sz == 0 then s.bytes_in else s.bytes_in + sz;
}

unfoldable pub close_socket : Socket → ℕ → Socket
close_socket s ccode = record (enqueue s OpCode.close (server_close_message ccode)) {
  no_input = true;
}

-- `unsafe`: memory is read past the end of the message, which C++ does not define.
pub data Effect : Type 0 where
  done : Socket → Bool → Effect
  throws : Effect
  unsafe : Effect
  out_of_fuel : Effect

-- the codes that the switch lists
abbrev pub listed_code : ℕ → Bool
listed_code c =
    c == 1000
    || c == 1001
    || c == 1002
    || c == 1003
    || c == 1007
    || c == 1008
    || c == 1009
    || c == 1010
    || c == 1011

abbrev pub reply_code : ℕ → ℕ
reply_code c =
    if listed_code c
    then CloseCode.normal
    else if ltb 2999 c && ltb c 5000
    then c
    else CloseCode.protocol_violation

abbrev pub on_reason : Socket → List ℕ → Option Bool → Effect
on_reason s message none = unsafe
on_reason s message (some false) = done (close_socket s CloseCode.bad_data) false
on_reason s message (some true) =
    done
      (close_socket s
        (reply_code (swap_bytes 2 (of_le_bytes (byte_at message 0 ∷ byte_at message 1 ∷ [])))))
      false

-- The reason starts at the third byte, and the length that is passed is that of the message.
unfoldable pub on_close_message : Socket → List ℕ → Effect
on_close_message s message =
    if ltb (length message) 2
    then done (close_socket s CloseCode.protocol_violation) false
    else on_reason s message (
        if ltb 2 (length message)
        then is_valid_utf8 (drop 2 message) (length message)
        else some true)

abbrev on_text : Socket → List ℕ → Option Bool → Effect
on_text s message none = unsafe
on_text s message (some false) = done (close_socket s CloseCode.bad_data) false
on_text s message (some true) = done (enqueue s OpCode.text message) true

abbrev on_type : Socket → WsEvent → Effect
on_type s event =
    let message = event.message in
    if event.type == OpCode.text
    then on_text s message (is_valid_utf8 message (length message))
    else if event.type == OpCode.binary
    then done (enqueue s OpCode.binary message) true
    else if event.type == OpCode.close
    then on_close_message s message
    else if event.type == OpCode.ping
    then done (enqueue s OpCode.pong (server_pong_message message)) true
    else if event.type == OpCode.pong
    then done s true
    else done (close_socket s CloseCode.protocol_violation) false

unfoldable pub on_message : Socket → WsEvent → Effect
unfolding update_in_stats
on_message s event =
    if s.has_application then on_type (update_in_stats s (length event.message)) event else throws

-- The loop of `processInput` from the label `again` on; `again` is the next round.
module _ (again : ℕ → Socket → Effect) (size : ℕ) where
  unfoldable pub after_message : ℕ → Effect → Effect
  after_message cursor (done s true) =
      let next = again cursor s in if ltb 0 cursor && ltb cursor size then next else done s true
  after_message cursor e = e

  unfoldable pub with_message : Socket → ℕ → Option (Parser × WsEvent) → Effect
  with_message s cursor none = throws
  with_message s cursor (some (p, event)) =
      after_message cursor (on_message (record s { parser = p }) event)

  unfoldable pub on_directive : Socket → Result → Directive → Effect
  on_directive s r Directive.more = done s true
  on_directive s r Directive.take_ready_message =
      with_message s r.cursor (Server.get_message s.parser)
  on_directive s r Directive.close_with_code = done (close_socket s r.c_code) false
  on_directive s r Directive.continue = again r.cursor s

  unfoldable pub on_outcome : Socket → Outcome → Effect
  on_outcome s (returned p r) = on_directive (record s { parser = p }) r r.directive
  on_outcome s (thrown p) = throws
  on_outcome s starved = out_of_fuel

unfoldable pub process_from : ℕ → List ℕ → ℕ → Socket → Effect
process_from zero input cursor s = out_of_fuel
process_from (suc f) input cursor s =
    on_outcome (process_from f input) (length input) s
      (Server.parse input (length input) cursor s.parser)

-- Each round but the first that goes on to another one has read a byte at least.
abbrev pub messaging_input : Phase → List ℕ → Socket → Effect
messaging_input messaging input s = process_from (suc (suc (length input))) input 0 s
messaging_input _ input s = done s false

-- `processInput`; outside the messaging state it logs an error and returns.
unfoldable pub process_input : List ℕ → Socket → Effect
unfolding process_from
process_input input s = messaging_input s.phase input s

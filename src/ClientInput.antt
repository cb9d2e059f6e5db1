-- ===== src/ClientInput.antt =====
-- `handleInput` of include/ClientWebSocket.h. What the calls of `recv` and of `send` of the system
-- give to `force_recv` and `force_send` are arguments.
pub mod Rest
pub mod Ends
use lapp_s.Common.{
  ℕ, zero, suc, Bool, true, false, Option, some, none, List, [], ◌∷◌, ◌==◌, if◌then◌else◌, length,
  mem_copy,
}
use lapp_s.Protocol.{Directive, Result}
use lapp_s.Parser.{Parser, set_max_msg_size}
use lapp_s.Parser.Machine.{Outcome, returned, thrown, starved}
use lapp_s.Client
use lapp_s.ClientSocket.{client_close_frame}
use lapp_s.ClientSocket.Transfer.{RecvAnswer, SendAnswer, force_recv, force_send}
use lapp_s.ClientHandshake.{
  ClientWebSocket, ClientState, Reply, answered, unanswered, server_response_ok,
}

-- `WSClient::InputStatus`
pub data InputStatus : Type 0 where
  force_close error must_connect must_upgrade need_more_data : InputStatus
  message_ready_buffer_is_empty message_ready_buffer_is_not_empty : InputStatus
  call_once_more upgraded upgraded_buff_not_empty : InputStatus

-- `gave` is a call that returns, with the bytes it has sent; `raised` is the exception of `parse`;
-- `never_ends` is a call with a loop that still runs.
pub data Handled : Type 0 where
  gave : InputStatus → ClientWebSocket → (sent : List ℕ) → Handled
  raised : Handled
  never_ends : Handled

abbrev pub on_reply : ClientWebSocket → Reply → Handled
on_reply c (answered true cursor) =
    gave (if cursor == 0 then InputStatus.upgraded else InputStatus.upgraded_buff_not_empty)
      (record c {
        state = ClientState.messaging;
        stream_processor = set_max_msg_size c.stream_processor 16777216;
        cursor = cursor;
      })
      []
on_reply c (answered false cursor) =
    gave InputStatus.error (record c { state = ClientState.handshake_failed; cursor = cursor }) []
on_reply c unanswered = never_ends

-- What follows the close frame in `closeSocket` and in `handleInput`, whether it went out or not.
abbrev pub closed_after : ClientWebSocket → Option (Bool × List ℕ) → Handled
closed_after c none = never_ends
closed_after c (some (all, sent)) =
    gave InputStatus.force_close (record c { cursor = 0; state = ClientState.closed }) sent

-- The switch on the directive of `parse`.
abbrev pub on_result : ClientWebSocket → ℕ → List SendAnswer → Result → Directive → Handled
on_result c received sends r Directive.more =
    gave (if c.cursor == 0 then InputStatus.need_more_data else InputStatus.call_once_more) c []
on_result c received sends r Directive.take_ready_message =
    if r.cursor == received
    then gave InputStatus.message_ready_buffer_is_empty (record c { cursor = 0 }) []
    else gave InputStatus.message_ready_buffer_is_not_empty c []
on_result c received sends r Directive.close_with_code =
    closed_after c (force_send sends (client_close_frame r.c_code))
on_result c received sends r Directive.continue =
    gave InputStatus.call_once_more (record c { cursor = r.cursor }) []

abbrev pub on_outcome : ClientWebSocket → ℕ → List SendAnswer → Outcome → Handled
on_outcome c received sends (returned p r) =
    on_result (record c { stream_processor = p }) received sends r r.directive
on_outcome c received sends (thrown p) = raised
on_outcome c received sends starved = never_ends

abbrev pub parse_input : ClientWebSocket → ℕ → List SendAnswer → Handled
parse_input c zero sends = gave InputStatus.error c []
parse_input c (suc n) sends =
    on_outcome c (suc n) sends (Client.parse c.recv_buffer (suc n) c.cursor c.stream_processor)

-- What `force_recv` gave, in the buffer.
abbrev pub store : ClientWebSocket → Option (Option (List ℕ)) → ClientWebSocket
store c (some (some bytes)) = record c { recv_buffer = mem_copy c.recv_buffer 0 bytes }
store c _ = c

-- With nothing left over, more is read.
abbrev pub read_more : ClientWebSocket → List SendAnswer → Option (Option (List ℕ)) → Handled
read_more c sends none = never_ends
read_more c sends (some none) = gave InputStatus.error c []
read_more c sends (some (some bytes)) =
    parse_input (store c (some (some bytes))) (length bytes) sends

-- Else the whole buffer counts as received.
abbrev pub on_messaging : ClientWebSocket → List RecvAnswer → List SendAnswer → Handled
on_messaging c recvs sends =
    if c.cursor == 0
    then read_more c sends (force_recv (length c.recv_buffer) recvs)
    else parse_input c (length c.recv_buffer) sends

module _ (to_upper : List ℕ → List ℕ) (sha1_digest base64_encode : List ℕ → List ℕ) where
  abbrev pub on_state : ClientWebSocket → List RecvAnswer → List SendAnswer → ClientState → Handled
  on_state c recvs sends ClientState.connect = gave InputStatus.must_connect c []
  on_state c recvs sends ClientState.upgrade = gave InputStatus.must_upgrade c []
  on_state c recvs sends ClientState.handshake =
      on_reply (store c (force_recv (length c.recv_buffer) recvs))
        (server_response_ok to_upper sha1_digest base64_encode c recvs)
  on_state c recvs sends ClientState.messaging = on_messaging c recvs sends
  on_state c recvs sends _ = gave InputStatus.error c []

  unfoldable pub handle_input : ClientWebSocket → List RecvAnswer → List SendAnswer → Handled
  handle_input c recvs sends = on_state c recvs sends c.state

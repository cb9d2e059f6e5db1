-- ===== src/Tests/Meeting.antt =====
-- A client and a server.
use lapp_s.Common.{
  ℕ, true, false, some, none, List, [], ◌∷◌, ◌≡◌, ◌≢◌, inl, inr, refl, arith, lookup, assign,
  strings,
}
use lapp_s.Http.{new_parser, in_target}
use lapp_s.Http.Collect.{all-All}
use lapp_s.Http.Request.{NonEmpty}
use lapp_s.Registry.{find_by_target}
use lapp_s.Registry
use lapp_s.Socket.{set_application, Phase}
use lapp_s.Handshake.{Peer, finished, handshake}
use lapp_s.ClientSocket.Transfer.{
  RecvAnswer, recv_again, recv_some, SendAnswer, send_again, send_error, send_some,
}
use lapp_s.ClientHandshake.{
  ClientWebSocket, ClientState, ws_upgrade, upgrade_request, server_response_ok, answered,
}
use lapp_s.ClientHandshake.Meeting.{upgrade-handshake}
use lapp_s.ClientHandshake.Lines.{Token}
use lapp_s.ServerMessage.{server_message}
use lapp_s.Protocol.{put_length}
use lapp_s.ClientInput.{handle_input, never_ends}
use lapp_s.ClientInput.Rest.{Repeats, handle_input-Repeats}
use lapp_s.ClientInput.Ends.{handle_input_ends}
use lapp_s.Tests.{idle, idle-IsIdle, hi}
use lapp_s.Tests.Opening.{upper, zeros, target, config, socket, echo, services}

abbrev letters : List ℕ → List ℕ
letters [] = []
letters (b ∷ bytes) = b'A' ∷ letters bytes

letters-single : (bytes : List ℕ) → Token (b'A' ∷ letters bytes)
letters-single [] = (omega arith, (refl, tt), refl)
letters-single (b ∷ bytes) = (omega arith, (refl, (letters-single bytes).1), refl)

letters-Token : (bytes : List ℕ) → NonEmpty bytes → Token (letters bytes)
letters-Token [] some_left = absurd (omega arith)
letters-Token (b ∷ bytes) some_left = letters-single bytes

abbrev two_bytes : List ℕ → List ℕ
two_bytes bytes = 1 ∷ 2 ∷ []

two_bytes-NonEmpty : (bytes : List ℕ) → NonEmpty (two_bytes bytes)
two_bytes-NonEmpty bytes = omega arith

abbrev client : ClientWebSocket
client = record {
  state = ClientState.upgrade;
  secure = false;
  sec_web_socket_key = [];
  request_target = target;
  hostname = b'h' ∷ [];
  cursor = 0;
  stream_processor = idle;
  recv_buffer = zeros 8192;
}

abbrev sent : List ℕ
sent = (ws_upgrade upper two_bytes letters client (3 ∷ 4 ∷ []) true).1

abbrev peer : Peer
peer = record { received = some sent; response_sent = true; address = none }

upgrade-handshake_example :
    (response : List ℕ) × (handshake upper two_bytes letters config socket peer services new_parser
        (zeros 300)
      ≡ finished
          (set_application (record socket { phase = Phase.messaging }) (some 1000))
          services
          (response ∷ [])
          false)
    × (server_response_ok upper two_bytes letters
          (ws_upgrade upper two_bytes letters client (3 ∷ 4 ∷ []) true).2
          (recv_again ∷ recv_again ∷ recv_some response ∷ [])
        ≡ answered true 0)
unfolding ws_upgrade upgrade_request find_by_target Registry.next Registry.has_next lookup assign
    strings
upgrade-handshake_example =
    upgrade-handshake upper two_bytes letters config refl refl letters-Token two_bytes-NonEmpty
      client (3 ∷ 4 ∷ []) socket peer services services new_parser (zeros 300) echo 2 []
      (omega arith) (all-All in_target target refl) (refl, tt) refl (tt, tt, refl) tt tt refl
      (omega arith) (omega arith) refl refl refl refl (omega arith)

-- The message `hi` behind one byte, with another byte behind it
abbrev behind_response : ClientWebSocket
behind_response = record client {
  state = ClientState.messaging;
  cursor = 1;
  recv_buffer = 10 ∷ 129 ∷ 2 ∷ 72 ∷ 105 ∷ 9 ∷ [];
}

abbrev waiting : List (List RecvAnswer × List SendAnswer)
waiting = ([], []) ∷ (recv_some hi ∷ [], []) ∷ ([], send_error ∷ []) ∷ []

handle_input-Repeats_example : Repeats upper two_bytes letters 1 hi waiting behind_response
unfolding server_message put_length
handle_input-Repeats_example =
    handle_input-Repeats upper two_bytes letters 1 hi 72 (105 ∷ 9 ∷ []) 1000
      (omega arith, inl (inl refl)) (λ h. absurd (omega arith)) waiting behind_response (9 ∷ [])
      refl idle-IsIdle (omega arith) refl refl (omega arith)

-- A frame of a reserved opcode, which the client closes the connection for
abbrev at_reserved : ClientWebSocket
at_reserved = record behind_response { cursor = 0 }

handle_input_ends_example :
    handle_input upper two_bytes letters at_reserved
      (recv_again ∷ recv_some (131 ∷ 0 ∷ []) ∷ [])
      (send_some 3 ∷ send_again ∷ send_some 5 ∷ [])
    ≢ never_ends
handle_input_ends_example =
    handle_input_ends upper two_bytes letters at_reserved
      (recv_again ∷ recv_some (131 ∷ 0 ∷ []) ∷ []) (send_some 3 ∷ send_again ∷ send_some 5 ∷ []) tt
      (inr (inl (omega arith)))

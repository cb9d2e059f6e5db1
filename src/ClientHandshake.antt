-- ===== src/ClientHandshake.antt =====
-- include/ClientWebSocket.h: the request that the client sends to open a connection, and what it
-- makes of the response. The random bytes of `PRNG::xoshiro256pp` are an argument, and so are the
-- calls of wolfSSL and of itc::utils. What `wsUpgrade` sends goes out whole, or it fails, which is
-- an argument too.
pub mod Response
pub mod Lines
pub mod Replied
pub mod Meeting
use lapp_s.Common.{
  ℕ, zero, suc, ◌+◌, ◌-◌, Bool, true, false, not, ◌&&◌, Option, some, none, List, [], ◌∷◌, ◌++◌,
  ltb, ◌==◌, if◌then◌else◌, length, Dict, strings, emplace, lookup, same_bytes,
}
use lapp_s.Parser.{Parser}
use lapp_s.Http.{collect, is_crlf_byte, in_separator, in_line}
use lapp_s.ClientSocket.Transfer.{RecvAnswer, force_recv}
use lapp_s.Handshake.{
  starts_with, connection_name, upgrade_name, version_name, key_name, upgrade_token,
  websocket_token, version_13, uid, accept_key, websocket_value, http_1_1, status_line, host_name,
  agent_name, agent, origin_name, http_prefix, https_prefix,
}

-- `WSClient::State`
pub data ClientState : Type 0 where
  init handshake_failed comm_error closed connect upgrade handshake messaging : ClientState

-- The members of the class, and `recvBuffer`, which the clients of a thread share.
pub record ClientWebSocket : Type 0 where
  pub state : ClientState
  pub secure : Bool
  pub sec_web_socket_key : List ℕ
  pub request_target : List ℕ
  pub hostname : List ℕ
  pub cursor : ℕ
  pub stream_processor : Parser
  pub recv_buffer : List ℕ

abbrev pub value_or_empty : Option (List ℕ) → List ℕ
value_or_empty none = []
value_or_empty (some value) = value

abbrev pub before_colon : ℕ → Bool
before_colon c = not (c == b':')

abbrev pub kept : List ℕ → List ℕ → Dict (List ℕ) (List ℕ) → Dict (List ℕ) (List ℕ)
kept [] value headers = headers
kept (c ∷ cs) [] headers = headers
kept (c ∷ cs) (v ∷ vs) headers = emplace strings (c ∷ cs) (v ∷ vs) headers

-- Behind the line end, in one round of the loop of `responseOK`: a header, and where it ends.
unfoldable pub response_header : List ℕ → ℕ → ℕ → (List ℕ × List ℕ) × ℕ
response_header buff sz index =
    let (key, i2) = collect before_colon buff (sz - index) index in
    let i3 = (collect in_separator buff (sz - i2) i2).1 in
    let (value, i4) = collect in_line buff (sz - i3) i3 in ((key, value), i4)

-- The loop of `responseOK`: the headers and `cursor`; `none` is the model's own, for fuel run
-- out.
unfoldable pub response_headers :
    ℕ → List ℕ → ℕ → ℕ → ℕ → Dict (List ℕ) (List ℕ) → Option (Dict (List ℕ) (List ℕ) × ℕ)
response_headers zero buff sz index cursor headers =
    if ltb index sz then none else some (headers, cursor)
response_headers (suc f) buff sz index cursor headers =
    let i1 = (collect is_crlf_byte buff (sz - index) index).1 in
    let ((key, value), next) = response_header buff sz i1 in
    let rest = response_headers f buff sz next cursor (kept key value headers) in
    if ltb index sz
    then (if i1 - index == 4 then some (headers, if i1 == sz then 0 else i1) else rest)
    else some (headers, cursor)

-- What `responseOK` returns, and the member `cursor`; `unanswered` is the model's own, for a loop
-- that does not end.
pub data Reply : Type 0 where
  answered : Bool → (cursor : ℕ) → Reply
  unanswered : Reply

abbrev pub is_empty_map : Dict (List ℕ) (List ℕ) → Bool
is_empty_map [] = true
is_empty_map (h ∷ hs) = false

-- `OnConnectDirective`
pub data OnConnect : Type 0 where
  fail poll : OnConnect

-- A header of the request, and what follows it.
abbrev pub with_header : List ℕ → List ℕ → List ℕ → List ℕ
with_header key value rest = key ++ (b':' ∷ b' ' ∷ (value ++ (13 ∷ 10 ∷ rest)))

-- The request of `wsUpgrade`.
unfoldable pub upgrade_request : ClientWebSocket → List ℕ
upgrade_request c =
    let origin = (if c.secure then https_prefix else http_prefix) ++ c.hostname in
    let headers = with_header host_name c.hostname (
      with_header upgrade_name websocket_value (
        with_header connection_name upgrade_name (
          with_header agent_name agent (
            with_header key_name c.sec_web_socket_key (
              with_header origin_name origin
                (with_header version_name version_13 (13 ∷ 10 ∷ []))))))) in
    b'G' ∷ b'E' ∷ b'T' ∷ b' ' ∷ (c.request_target ++ (b' ' ∷ (http_1_1 ++ (13 ∷ 10 ∷ headers))))

module _ (to_upper : List ℕ → List ℕ) (sha1_digest base64_encode : List ℕ → List ℕ) where
  abbrev pub is_upgraded : List ℕ → Dict (List ℕ) (List ℕ) → Bool
  is_upgraded required headers =
      not (is_empty_map headers)
      && same_bytes (to_upper (value_or_empty (lookup strings connection_name headers)))
          upgrade_token
      && same_bytes (to_upper (value_or_empty (lookup strings upgrade_name headers)))
          websocket_token
      && same_bytes (value_or_empty (lookup strings accept_key headers)) required

  abbrev pub on_headers : List ℕ → Option (Dict (List ℕ) (List ℕ) × ℕ) → Reply
  on_headers required none = unanswered
  on_headers required (some (headers, cursor)) = answered (is_upgraded required headers) cursor

  unfoldable pub response_ok : List ℕ → ℕ → List ℕ → ℕ → Reply
  response_ok buff sz required cursor =
      if ltb sz 113
      then answered false cursor
      else if starts_with status_line buff
      then on_headers required (response_headers sz buff sz 34 cursor [])
      else answered false cursor

  -- What `force_recv` gave; only the bytes received are looked at.
  unfoldable pub on_response : ClientWebSocket → Option (Option (List ℕ)) → Reply
  on_response c none = unanswered
  on_response c (some none) = answered false c.cursor
  on_response c (some (some [])) = answered false c.cursor
  on_response c (some (some (b ∷ bytes))) =
      response_ok (b ∷ bytes) (length (b ∷ bytes))
        (base64_encode (sha1_digest (c.sec_web_socket_key ++ uid))) c.cursor

  -- `serverResponseOk`: no more is read than `recvBuffer` holds.
  unfoldable pub server_response_ok : ClientWebSocket → List RecvAnswer → Reply
  server_response_ok c recvs = on_response c (force_recv (length c.recv_buffer) recvs)

  -- `wsUpgrade`: what it sends, and the client after it.
  unfoldable pub ws_upgrade :
      ClientWebSocket → (random : List ℕ) → (went : Bool) → OnConnect × List ℕ × ClientWebSocket
  ws_upgrade c random went =
      let q = record c { sec_web_socket_key = base64_encode random } in
      if went
      then (poll, upgrade_request q, record q { state = handshake })
      else (fail, upgrade_request q, q)

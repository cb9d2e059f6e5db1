-- ===== src/ClientHandshake/Meeting.antt =====
-- The client of include/ClientWebSocket.h and the server of include/Shakespeer.h: the request of
-- the one is taken by the other, and the response is taken by the client.
use lapp_s.Common.{
  ℕ, ◌≤◌, Bool, true, false, not, List, [], ◌∷◌, ◌++◌, ◌≡◌, refl, arith, ap, ◌∙◌, length,
  if◌then◌else◌, some, take-all, strings, emplace, lookup,
}
use lapp_s.Http.{HttpRequestParser, clear, header, in_key, in_line, in_target, in_version}
use lapp_s.Http.Collect.{All, all-All}
use lapp_s.Http.Request.{Header, WellFormed, NonEmpty, Trimmed, collected, lines}
use lapp_s.Http.RoundTrip.{get_request}
use lapp_s.Registry.{Service, Registry, find_by_target}
use lapp_s.Socket.{Socket, Phase, set_application}
use lapp_s.Handshake.{
  Config, Peer, finished, handshake, prepare_ok_response, extra_lines, protocol_line,
  allow_protocols, starts_with, asks_upgrade, filtered, connection_name, upgrade_name, version_name,
  key_name, upgrade_token, websocket_token, version_13, uid, accept_key, websocket_value, http_1_1,
  status_line, host_name, agent_name, agent, origin_name, http_prefix, https_prefix, accept_name,
  protocol_name,
}
use lapp_s.Handshake
use lapp_s.Handshake.Outcomes.{handshake-opens}
use lapp_s.ClientSocket.Transfer.{RecvAnswer, recv_some, force_recv, waits, force_recv-waits}
use lapp_s.ClientHandshake.{
  ClientWebSocket, ClientState, response_ok, on_response, server_response_ok, upgrade_request,
  ws_upgrade, answered,
}
use lapp_s.ClientHandshake.Response.{Filled}
use lapp_s.ClientHandshake.Lines.{Token, Extra, protocol_header}
use lapp_s.ClientHandshake.Replied.{replied, response_text, response_ok-replied}

abbrev asked_for : ClientWebSocket → List Header
asked_for c =
    (upgrade_name, websocket_value)
    ∷ (connection_name, upgrade_name)
    ∷ (agent_name, agent)
    ∷ (key_name, c.sec_web_socket_key)
    ∷ (origin_name, (if c.secure then https_prefix else http_prefix) ++ c.hostname)
    ∷ (version_name, version_13)
    ∷ []

request_text :
    (c : ClientWebSocket)
    → upgrade_request c
      ≡ get_request c.request_target http_1_1 ((host_name, c.hostname) ∷ asked_for c)
unfolding upgrade_request
request_text c = refl

origin_Token :
    (b : Bool) (hostname : List ℕ)
    → All in_line hostname
    → All in_line ((if b then https_prefix else http_prefix) ++ hostname)
      × Trimmed ((if b then https_prefix else http_prefix) ++ hostname)
origin_Token true hostname single =
    ((refl, (refl, (refl, (refl, (refl, (refl, (refl, (refl, single)))))))), refl)
origin_Token false hostname single =
    ((refl, (refl, (refl, (refl, (refl, (refl, (refl, single))))))), refl)

asked_for-WellFormed :
    (c : ClientWebSocket)
    → All in_line c.hostname
    → Trimmed c.hostname
    → Token c.sec_web_socket_key
    → WellFormed ((host_name, c.hostname) ∷ asked_for c)
asked_for-WellFormed c single trimmed (some_key, key_single, key_trimmed) =
    let origin = origin_Token c.secure c.hostname single in
    (
      (omega arith, all-All in_key host_name refl, single, trimmed),
      (
        (omega arith, all-All in_key upgrade_name refl, all-All in_line websocket_value refl, refl),
        (
          (
            omega arith,
            all-All in_key connection_name refl,
            all-All in_line upgrade_name refl,
            refl,
          ),
          (
            (omega arith, all-All in_key agent_name refl, all-All in_line agent refl, refl),
            (
              (omega arith, all-All in_key key_name refl, key_single, key_trimmed),
              (
                (omega arith, all-All in_key origin_name refl, origin.0, origin.1),
                (
                  (
                    omega arith,
                    all-All in_key version_name refl,
                    all-All in_line version_13 refl,
                    refl,
                  ),
                  tt,
                ),
              ),
            ),
          ),
        ),
      ),
    )

-- The request asks for the upgrade.
asks_upgrade-asked_for :
    (to_upper : List ℕ → List ℕ) (c : ClientWebSocket) (p : HttpRequestParser)
    → to_upper upgrade_name ≡ upgrade_token
    → to_upper websocket_value ≡ websocket_token
    → NonEmpty c.sec_web_socket_key
    → asks_upgrade to_upper
        (record p { headers = collected [] ((host_name, c.hostname) ∷ asked_for c) })
      ≡ true
unfolding header lookup emplace strings
asks_upgrade-asked_for to_upper c p up socket some_key =
    rw (up, socket) (by_key c.sec_web_socket_key some_key)
  where
    by_key : (key : List ℕ) → NonEmpty key → not (Handshake.is_empty key) ≡ true
    by_key [] some_left = absurd (omega arith)
    by_key (k ∷ ks) some_left = refl

module _ (to_upper : List ℕ → List ℕ) (sha1_digest base64_encode : List ℕ → List ℕ)
    (config : Config) (up : to_upper upgrade_name ≡ upgrade_token)
    (socket_up : to_upper websocket_value ≡ websocket_token)
    (encodes : (bytes : List ℕ) → NonEmpty bytes → Token (base64_encode bytes))
    (digests : (bytes : List ℕ) → NonEmpty (sha1_digest bytes)) where
  -- The response that the client waits for.
  abbrev pub reply_to : (random : List ℕ) → Service → List ℕ
  reply_to random app =
      status_line
      ++ lines (
          replied to_upper sha1_digest base64_encode config app
            (base64_encode (sha1_digest (base64_encode random ++ uid))))

  -- The response comes whole, in one piece.
  received-reply :
      (c : ClientWebSocket) (random : List ℕ) (app : Service) (k : ℕ) (later : List RecvAnswer)
      → NonEmpty random
      → Extra (config.extra_headers app.name)
      → WellFormed (protocol_header (config.proto_alias app.name))
      → Filled (protocol_header (config.proto_alias app.name))
      → c.sec_web_socket_key ≡ base64_encode random
      → length (reply_to random app) ≤ length c.recv_buffer
      → server_response_ok to_upper sha1_digest base64_encode c
          (waits k (recv_some (reply_to random app) ∷ later))
        ≡ answered true 0
  unfolding server_response_ok on_response force_recv
  received-reply c random app k later some_random extra alias_wf alias_filled key fits =
      ap (on_response to_upper sha1_digest base64_encode c) (
        force_recv-waits (length c.recv_buffer) k (recv_some (reply_to random app) ∷ later)
        ∙ ap (λ (t : List ℕ). some (some t))
            (take-all (length c.recv_buffer) (reply_to random app) fits))
      ∙ (ap
            (λ t.
              response_ok to_upper sha1_digest base64_encode (reply_to random app)
                (length (reply_to random app)) (base64_encode (sha1_digest (t ++ uid))) c.cursor)
            key
          ∙ response_ok-replied to_upper sha1_digest base64_encode config app
              (base64_encode (sha1_digest (base64_encode random ++ uid))) c.cursor up socket_up
              extra alias_wf alias_filled
              (encodes (sha1_digest (base64_encode random ++ uid))
                (digests (base64_encode random ++ uid))))

  -- Between a client and a server whose socket is in the handshake phase: the request of the
  -- client, for a target without blanks and a host name of one line, opens the connection on the
  -- server, where the request fits a buffer of 168 bytes at least, the target leads to a service
  -- that does not filter the peer, and the response is sent; and the client takes that response,
  -- with nothing left over of what it received, where it is no longer than the client's buffer and
  -- one call of recv gets all of it, after any number of calls that get nothing yet. The extra
  -- headers and the alias of the service are well formed and filled, and none is an accept header;
  -- the upper-case function gives the two tokens; a digest is not empty, the random bytes are not,
  -- and what is encoded is one line that does not begin with a separator.
  pub upgrade-handshake :
      (c : ClientWebSocket) (random : List ℕ) (s : Socket) (peer : Peer) (r r' : Registry)
      (p : HttpRequestParser) (buffer : List ℕ) (app : Service) (k : ℕ) (later : List RecvAnswer)
      → NonEmpty random
      → All in_target c.request_target
      → All in_line c.hostname
      → Trimmed c.hostname
      → Extra (config.extra_headers app.name)
      → WellFormed (protocol_header (config.proto_alias app.name))
      → Filled (protocol_header (config.proto_alias app.name))
      → s.phase ≡ Phase.handshake
      → 168 ≤ length buffer
      → length (ws_upgrade to_upper sha1_digest base64_encode c random true).1 ≤ length buffer
      → peer.received ≡ some (ws_upgrade to_upper sha1_digest base64_encode c random true).1
      → peer.response_sent ≡ true
      → find_by_target r c.request_target ≡ some (app, r')
      → filtered app peer.address ≡ false
      → length (reply_to random app) ≤ length c.recv_buffer
      → (response : List ℕ) × (handshake to_upper sha1_digest base64_encode config s peer r p buffer
          ≡ finished
              (set_application (record s { phase = Phase.messaging }) (some app.max_msg_size))
              r'
              (response ∷ [])
              false)
        × (server_response_ok to_upper sha1_digest base64_encode
              (ws_upgrade to_upper sha1_digest base64_encode c random true).2
              (waits k (recv_some response ∷ later))
            ≡ answered true 0)
  unfolding ws_upgrade upgrade_request header lookup emplace strings
  upgrade-handshake c random s peer r r' p buffer app k later some_random targeted single trimmed
        extra alias_wf alias_filled fresh least fits came went found free small =
      let q = record c { sec_web_socket_key = base64_encode random } in
      let token = encodes random some_random in
      let read = record (clear p) {
        request_target = c.request_target;
        http_version = http_1_1;
        headers = collected [] ((host_name, c.hostname) ∷ asked_for q);
      } in
      let text = response_text to_upper sha1_digest base64_encode config read app in
      (
        prepare_ok_response to_upper sha1_digest base64_encode config read app,
        handshake-opens to_upper sha1_digest base64_encode config s peer fresh c.request_target
            http_1_1 (host_name, c.hostname) (asked_for q) targeted
            (all-All in_version http_1_1 refl) (asked_for-WellFormed q single trimmed token)
            (λ e. absurd (omega (arith, e))) buffer least fits came r p app r'
            (asks_upgrade-asked_for to_upper q (clear p) up socket_up token.0) found went free,
        ap
              (λ t.
                server_response_ok to_upper sha1_digest base64_encode
                  (record q { state = ClientState.handshake }) (waits k (recv_some t ∷ later)))
              text
            ∙ received-reply (record q { state = ClientState.handshake }) random app k later
                some_random extra alias_wf alias_filled refl small,
      )

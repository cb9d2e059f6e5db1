-- ===== src/ClientHandshake/Replied.antt =====
-- The response of include/Shakespeer.h, and `responseOK` of include/ClientWebSocket.h on it.
use lapp_s.Common.{
  ℕ, ◌≤◌, true, false, List, [], ◌∷◌, ◌++◌, ◌≡◌, refl, arith, ap, ◌∙◌, length, length-append, ltb,
  Option, some, none, strings, emplace, same_bytes_reflexive, lookup, first_of,
}
use lapp_s.Http.{HttpRequestParser, header, in_key, in_line}
use lapp_s.Http.Collect.{all-All}
use lapp_s.Http.Request.{Header, lines, WellFormed, NonEmpty, collected}
use lapp_s.Http.RoundTrip.{length-lines}
use lapp_s.Registry.{Service}
use lapp_s.Handshake.{
  Config, prepare_ok_response, extra_lines, allow_protocols, connection_name, upgrade_name,
  key_name, upgrade_token, websocket_token, uid, accept_key, websocket_value, status_line, agent,
}
use lapp_s.ClientHandshake.{response_ok, answered, is_upgraded}
use lapp_s.ClientHandshake.Response.{Filled, response_headers-lines}
use lapp_s.ClientHandshake.Lines.{
  lookup-collected, lookup-append, extra_lines-lines, lines_of, Token, Extra, protocol_header,
  protocol_line-lines, WellFormed-append, Filled-append, length-lines_append, collected-filled,
  append_nil,
}

-- What stands before the lines that depend on the service.
abbrev pub fixed : List Header
fixed =
    (upgrade_name, websocket_value)
    ∷ (connection_name, upgrade_name)
    ∷ (b'S' ∷ b'e' ∷ b'r' ∷ b'v' ∷ b'e' ∷ b'r' ∷ [], agent)
    ∷ []

module _ (to_upper : List ℕ → List ℕ) (sha1_digest base64_encode : List ℕ → List ℕ)
    (config : Config) where
  -- The headers of the response.
  module _ (app : Service) (accept : List ℕ) where
    abbrev pub last_headers : List Header
    last_headers =
        config.extra_headers app.name
        ++ (protocol_header (config.proto_alias app.name) ++ ((accept_key, accept) ∷ []))

    abbrev pub replied : List Header
    replied = fixed ++ last_headers

    lookup-accept :
        lookup strings accept_key (config.extra_headers app.name) ≡ none
        → lookup strings accept_key replied ≡ some accept
    unfolding lookup strings
    lookup-accept absent =
        lookup-append accept_key (config.extra_headers app.name)
          (protocol_header (config.proto_alias app.name) ++ ((accept_key, accept) ∷ []))
        ∙ (ap
              (λ o. first_of o (
                lookup strings accept_key
                  (protocol_header (config.proto_alias app.name) ++ ((accept_key, accept) ∷ []))))
              absent
            ∙ behind_alias (config.proto_alias app.name))
      where
        behind_alias :
            (o : Option (List ℕ))
            → lookup strings accept_key (protocol_header o ++ ((accept_key, accept) ∷ []))
              ≡ some accept
        behind_alias none = refl
        behind_alias (some alias) = refl

    is_upgraded-replied :
        to_upper upgrade_name ≡ upgrade_token
        → to_upper websocket_value ≡ websocket_token
        → lookup strings accept_key (config.extra_headers app.name) ≡ none
        → is_upgraded to_upper sha1_digest base64_encode accept (collected [] replied) ≡ true
    unfolding lookup strings emplace
    is_upgraded-replied up socket absent =
        let filled =
          collected-filled (upgrade_name, websocket_value) []
            ((connection_name, upgrade_name)
              ∷ (b'S' ∷ b'e' ∷ b'r' ∷ b'v' ∷ b'e' ∷ b'r' ∷ [], agent)
              ∷ last_headers) in
        let connection = lookup-collected connection_name [] replied in
        let upgrade = lookup-collected upgrade_name [] replied in
        let accepts = lookup-collected accept_key [] replied ∙ lookup-accept absent in
        rw (filled, connection, upgrade, accepts, up, socket) (same_bytes_reflexive accept)

    replied-WellFormed :
        WellFormed (config.extra_headers app.name)
        → WellFormed (protocol_header (config.proto_alias app.name))
        → Token accept
        → WellFormed replied
    replied-WellFormed extra alias (some_value, single, trimmed) =
        let last : WellFormed ((accept_key, accept) ∷ []) =
          ((omega arith, all-All in_key accept_key refl, single, trimmed), tt) in
        let rest =
          WellFormed-append (config.extra_headers app.name)
            (protocol_header (config.proto_alias app.name) ++ ((accept_key, accept) ∷ [])) extra
            (WellFormed-append (protocol_header (config.proto_alias app.name))
              ((accept_key, accept) ∷ []) alias last) in
        (
          (
            omega arith,
            all-All in_key upgrade_name refl,
            all-All in_line websocket_value refl,
            refl,
          ),
          (
            (
              omega arith,
              all-All in_key connection_name refl,
              all-All in_line upgrade_name refl,
              refl,
            ),
            (
              (
                omega arith,
                all-All in_key (b'S' ∷ b'e' ∷ b'r' ∷ b'v' ∷ b'e' ∷ b'r' ∷ []) refl,
                all-All in_line agent refl,
                refl,
              ),
              rest,
            ),
          ),
        )

    replied-Filled :
        Filled (config.extra_headers app.name)
        → Filled (protocol_header (config.proto_alias app.name))
        → NonEmpty accept
        → Filled replied
    replied-Filled extra alias some_value = (
      omega arith,
      (
        omega arith,
        (
          omega arith,
          Filled-append (config.extra_headers app.name)
              (protocol_header (config.proto_alias app.name) ++ ((accept_key, accept) ∷ [])) extra
              (Filled-append (protocol_header (config.proto_alias app.name))
                ((accept_key, accept) ∷ []) alias (some_value, tt)),
        ),
      ),
    )

  -- The response is the status line and the headers.
  pub response_text :
      (p : HttpRequestParser) (app : Service)
      → prepare_ok_response to_upper sha1_digest base64_encode config p app
        ≡ status_line
          ++ lines (replied app (base64_encode (sha1_digest (header p key_name ++ uid))))
  unfolding prepare_ok_response
  response_text p app =
      let accept = base64_encode (sha1_digest (header p key_name ++ uid)) in
      let last = (accept_key, accept) ∷ [] in
      ap (λ t. status_line ++ lines_of fixed t)
        (ap (λ t. extra_lines (config.extra_headers app.name) ++ t)
            (protocol_line-lines (allow_protocols app.protocol) (config.proto_alias app.name) last)
          ∙ extra_lines-lines (config.extra_headers app.name)
              (protocol_header (config.proto_alias app.name) ++ last))

  -- The client takes such a response, with its key.
  pub response_ok-replied :
      (app : Service) (accept : List ℕ) (cursor : ℕ)
      → to_upper upgrade_name ≡ upgrade_token
      → to_upper websocket_value ≡ websocket_token
      → Extra (config.extra_headers app.name)
      → WellFormed (protocol_header (config.proto_alias app.name))
      → Filled (protocol_header (config.proto_alias app.name))
      → Token accept
      → response_ok to_upper sha1_digest base64_encode
          (status_line ++ lines (replied app accept))
          (length (status_line ++ lines (replied app accept)))
          accept
          cursor
        ≡ answered true 0
  unfolding response_ok
  response_ok-replied app accept cursor up socket (wf, filled, absent) alias_wf alias_filled token =
      let buff = status_line ++ lines (replied app accept) in
      let rest = protocol_header (config.proto_alias app.name) ++ ((accept_key, accept) ∷ []) in
      let last_length = length-append accept (13 ∷ 10 ∷ 13 ∷ 10 ∷ []) in
      let long : 113 ≤ length buff = omega (
        arith,
        length-lines_append (config.extra_headers app.name) rest,
        length-lines_append (protocol_header (config.proto_alias app.name))
            ((accept_key, accept) ∷ []),
        last_length,
        token.0,
      ) in
      let read =
        response_headers-lines buff (length buff) [] (length buff) 34 cursor false
          (upgrade_name, websocket_value)
          ((connection_name, upgrade_name)
            ∷ (b'S' ∷ b'e' ∷ b'r' ∷ b'v' ∷ b'e' ∷ b'r' ∷ [], agent)
            ∷ last_headers app accept)
          [] (replied-WellFormed app accept wf alias_wf token)
          (replied-Filled app accept filled alias_filled token.0)
          (omega (arith, length-lines (replied app accept)))
          (append_nil (lines (replied app accept))) (omega arith) in
      rw (not_short (length buff) long, read, is_upgraded-replied app accept up socket absent) refl
    where
      not_short : (n : ℕ) → 113 ≤ n → ltb n 113 ≡ false
      not_short n h = ground arith

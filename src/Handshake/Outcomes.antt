-- ===== src/Handshake/Outcomes.antt =====
-- How a handshake of include/Shakespeer.h can end.
use lapp_s.Common.{
  ℕ, ◌+◌, ◌≤◌, true, false, Option, some, none, List, [], ◌∷◌, ◌++◌, ◌≡◌, ◌≢◌, ◌⊎◌, inl, inr, refl,
  ap, ◌∙◌, arith, length, set, length-append, length-set, length-drop, drop, byte_at, Bool-cases,
}
use lapp_s.Http.{
  HttpRequestParser, Parsing, accepted, malformed, starved, clear, in_target, in_version,
}
use lapp_s.Http
use lapp_s.Http.Collect.{All}
use lapp_s.Http.Request.{Header, WellFormed, collected}
use lapp_s.Http.RoundTrip.{get_request, parse-get_request}
use lapp_s.Http.Progress.{parse_ends}
use lapp_s.Registry.{Service, Registry, find_by_target}
use lapp_s.Socket.{Socket, Phase, set_state, set_application}
use lapp_s.Handshake.{
  Config, Peer, Handshake, finished, throws, runs_on, close, asks_upgrade, prepare_ok_response,
  filtered, admit, with_service, on_request, buffered, on_received, handshake, forbidden,
}

set-append_at : (xs ys : List ℕ) (v : ℕ) → set (xs ++ ys) (length xs) v ≡ xs ++ set ys 0 v
set-append_at [] ys v = refl
set-append_at (x ∷ xs) ys v = ap (λ t. x ∷ t) (set-append_at xs ys v)

module _ (to_upper : List ℕ → List ℕ) (sha1_digest base64_encode : List ℕ → List ℕ)
    (config : Config) (s : Socket) (peer : Peer) (fresh : s.phase ≡ Phase.handshake) where
  -- The connection is closed and the worker told of it; or it takes messages, for a service that
  -- the target of an accepted request leads to, that asks for the upgrade, and that does not
  -- filter the peer's address.
  abbrev pub Settled : Registry → Parsing → Handshake → Type 0
  Settled r parsed throws = Unit
  Settled r parsed runs_on = ⊥
  Settled r parsed (finished s' r' sent disconnects) =
      ((s'.phase ≡ Phase.closed) × (disconnects ≡ true))
      ⊎ ((q : HttpRequestParser) × (app : Service) × (parsed ≡ accepted q)
          × (asks_upgrade to_upper q ≡ true)
          × (find_by_target r q.request_target ≡ some (app, r'))
          × (filtered app peer.address ≡ false)
          × (s' ≡ set_application (record s { phase = Phase.messaging }) (some app.max_msg_size))
          × (disconnects ≡ false))

  close-Settled :
      (r₀ r : Registry) (parsed : Parsing) (sent : List (List ℕ))
      → Settled r₀ parsed (close s r sent)
  unfolding set_state
  close-Settled r₀ r parsed sent = rw fresh (inl (refl, refl))

  moved : set_state s Phase.messaging ≡ some (record s { phase = Phase.messaging })
  unfolding set_state
  moved = rw fresh refl

  admit-Settled :
      (r r' : Registry) (q : HttpRequestParser) (app : Service) (sent : List (List ℕ))
      → asks_upgrade to_upper q ≡ true
      → find_by_target r q.request_target ≡ some (app, r')
      → Settled r (accepted q) (admit s peer app r' sent)
  admit-Settled r r' q app sent asked found = elim (Bool-cases peer.response_sent) [
    | inl went ↦ elim (Bool-cases (filtered app peer.address)) [
      | inl barred ↦
          rw went (rw barred (close-Settled r r' (accepted q) (sent ++ (forbidden ∷ []))))
      | inr free ↦ rw went (rw free (rw moved (inr (q, app, refl, asked, found, free, refl, refl))))
    ]
    | inr lost ↦ rw lost (close-Settled r r' (accepted q) sent)
  ]

  with_service-Settled :
      (r : Registry) (q : HttpRequestParser) (o : Option (Service × Registry))
      → asks_upgrade to_upper q ≡ true
      → find_by_target r q.request_target ≡ o
      → Settled r (accepted q) (with_service to_upper sha1_digest base64_encode config s peer q o)
  with_service-Settled r q none asked found = tt
  with_service-Settled r q (some (app, r')) asked found =
      admit-Settled r r' q app
        (prepare_ok_response to_upper sha1_digest base64_encode config q app ∷ []) asked found

  on_request-Settled :
      (r : Registry) (parsed : Parsing)
      → parsed ≢ starved
      → Settled r parsed (on_request to_upper sha1_digest base64_encode config s peer r parsed)
  unfolding on_request
  on_request-Settled r (accepted q) ends = elim (Bool-cases (asks_upgrade to_upper q)) [
    | inl asked ↦ rw asked (with_service-Settled r q (find_by_target r q.request_target) asked refl)
    | inr other ↦ rw other (close-Settled r r (accepted q) (forbidden ∷ []))
  ]
  on_request-Settled r malformed ends = close-Settled r r malformed (forbidden ∷ [])
  on_request-Settled r starved ends = absurd (ends refl)

  -- What the parser makes of the bytes that came, if any did.
  abbrev pub attempt : HttpRequestParser → List ℕ → Option (List ℕ) → Parsing
  attempt p buffer none = malformed
  attempt p buffer (some bytes) = Http.parse (buffered buffer bytes) (length bytes) (clear p)

  -- A handshake on a socket in that phase ends, whatever the peer sends: an exception leaves it;
  -- or the connection is closed and the worker told of it; or it takes messages, and then only
  -- for a service that the target of an accepted request leads to, where the request asks for
  -- the upgrade and the service does not filter the peer's address.
  pub handshake-Settled :
      (r : Registry) (p : HttpRequestParser) (buffer : List ℕ)
      → Settled r
          (attempt p buffer peer.received)
          (handshake to_upper sha1_digest base64_encode config s peer r p buffer)
  unfolding handshake on_received
  handshake-Settled r p buffer = by_bytes peer.received
    where
      by_bytes :
          (o : Option (List ℕ))
          → Settled r
              (attempt p buffer o)
              (on_received to_upper sha1_digest base64_encode config s peer r p buffer o)
      by_bytes none = close-Settled r r malformed []
      by_bytes (some bytes) =
          on_request-Settled r (Http.parse (buffered buffer bytes) (length bytes) (clear p))
            (parse_ends (buffered buffer bytes) (length bytes) (clear p))

  -- A well-formed request that fits the buffer.
  module _ (target version : List ℕ) (h : Header) (hs : List Header)
      (targeted : All in_target target) (versioned : All in_version version)
      (wf : WellFormed (h ∷ hs)) (no_tab : byte_at h.0 0 ≢ b'\t') (buffer : List ℕ)
      (least : 168 ≤ length buffer)
      (fits : length (get_request target version (h ∷ hs)) ≤ length buffer)
      (came : peer.received ≡ some (get_request target version (h ∷ hs))) (r : Registry)
      (p : HttpRequestParser) where
    abbrev request_text : List ℕ
    request_text = get_request target version (h ∷ hs)

    abbrev read : HttpRequestParser
    read = record (clear p) {
      request_target = target;
      http_version = version;
      headers = collected [] (h ∷ hs);
    }

    buffered-request_text :
        buffered buffer request_text
        ≡ request_text ++ set (drop (0 + length request_text) buffer) 0 0
    buffered-request_text = set-append_at request_text (drop (0 + length request_text) buffer) 0

    parsed :
        Http.parse (buffered buffer request_text) (length request_text) (clear p) ≡ accepted read
    parsed =
        ap (λ b. Http.parse b (length request_text) (clear p)) buffered-request_text
        ∙ parse-get_request target version h hs (set (drop (0 + length request_text) buffer) 0 0) p
            targeted versioned wf no_tab
            (omega (
              arith,
              length-append request_text (set (drop (0 + length request_text) buffer) 0 0),
              length-set (drop (0 + length request_text) buffer) 0 0,
              length-drop (0 + length request_text) buffer,
            ))

    answered :
        asks_upgrade to_upper read ≡ true
        → handshake to_upper sha1_digest base64_encode config s peer r p buffer
          ≡ with_service to_upper sha1_digest base64_encode config s peer read
              (find_by_target r target)
    unfolding handshake on_received on_request clear
    answered asked = rw came (rw parsed (rw asked refl))

    -- On a socket in the handshake phase, a well-formed request, with its first header not
    -- beginning with a tab, that fits a buffer of 168 bytes at least and asks for the upgrade
    -- opens the connection for the service that its target leads to, once the response is sent
    -- and where the service does not filter the peer: what is sent is the response alone.
    pub handshake-opens :
        (app : Service) (r' : Registry)
        → asks_upgrade to_upper read ≡ true
        → find_by_target r target ≡ some (app, r')
        → peer.response_sent ≡ true
        → filtered app peer.address ≡ false
        → handshake to_upper sha1_digest base64_encode config s peer r p buffer
          ≡ finished
              (set_application (record s { phase = Phase.messaging }) (some app.max_msg_size))
              r'
              (prepare_ok_response to_upper sha1_digest base64_encode config read app ∷ [])
              false
    handshake-opens app r' asked found went free =
        answered asked ∙ rw found (rw went (rw free (rw moved refl)))

    -- Where the target of such a request is not registered, an exception leaves the function.
    pub handshake-unknown_target :
        asks_upgrade to_upper read ≡ true
        → find_by_target r target ≡ none
        → handshake to_upper sha1_digest base64_encode config s peer r p buffer ≡ throws
    handshake-unknown_target asked absent = answered asked ∙ rw absent refl

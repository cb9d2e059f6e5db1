-- ===== src/Handshake.antt =====
-- include/Shakespeer.h: the answer to the request that opens a connection, for a socket without
-- TLS. The upper-case function of itc::utils and the digest and encoding of wolfSSL are arguments.
mod Text
pub mod Outcomes
unfoldable pub use Text.*
use lapp_s.Common.{
  ℕ, zero, suc, ◌+◌, Bool, true, false, not, ◌&&◌, Option, some, none, List, [], ◌∷◌, ◌++◌, ◌||◌,
  ltb, ◌==◌, if◌then◌else◌, length, set, same_bytes, mem_copy,
}
use lapp_s.Http.{HttpRequestParser, Parsing, accepted, malformed, starved, clear, header}
use lapp_s.Http
use lapp_s.Registry.{Service, Protocol, Registry, raw, lapps, internal, find_by_target}
use lapp_s.Socket.{Socket, Phase, set_state, set_application}

abbrev pub starts_with : List ℕ → List ℕ → Bool
starts_with [] cs = true
starts_with (p ∷ ps) [] = false
starts_with (p ∷ ps) (c ∷ cs) = p == c && starts_with ps cs

-- `find(pattern) != npos`
abbrev pub contains : List ℕ → List ℕ → Bool
contains pattern [] = starts_with pattern []
contains pattern (c ∷ cs) = starts_with pattern (c ∷ cs) || contains pattern cs

abbrev pub is_empty : List ℕ → Bool
is_empty [] = true
is_empty (c ∷ cs) = false

-- The configuration of a service by its name: `extra_headers` and `proto_alias`.
pub record Config : Type 0 where
  pub extra_headers : List ℕ → List (List ℕ × List ℕ)
  pub proto_alias : List ℕ → Option (List ℕ)

-- What the peer and the network do: the bytes that `recv` gives, or its failure; whether `send`
-- of the response succeeds; and the address of an IPv4 peer.
pub record Peer : Type 0 where
  pub received : Option (List ℕ)
  pub response_sent : Bool
  pub address : Option ℕ

-- What `handshake` leaves: `sent` is all that `send` was given, in order, and `disconnects` says
-- whether `close` told the worker. `throws` is an exception that leaves the function.
pub data Handshake : Type 0 where
  finished : Socket → Registry → (sent : List (List ℕ)) → (disconnects : Bool) → Handshake
  throws : Handshake
  runs_on : Handshake

-- `close` of include/WebSocket.h; from an open socket it never fails.
abbrev pub closed_state : Socket → Option Socket → Registry → List (List ℕ) → Handshake
closed_state s none r sent = throws
closed_state s (some s') r sent = finished s' r sent true

abbrev pub close : Socket → Registry → List (List ℕ) → Handshake
close s r sent = elim s.phase [
  | Phase.closed ↦ finished s r sent false
  | _ ↦ closed_state s (set_state s Phase.closed) r sent
]

abbrev pub extra_lines : List (List ℕ × List ℕ) → List ℕ
extra_lines [] = []
extra_lines ((key, value) ∷ hs) = key ++ (b':' ∷ b' ' ∷ (value ++ (13 ∷ 10 ∷ extra_lines hs)))

-- `allow_protocols` as the switch leaves it
abbrev pub allow_protocols : Protocol → List ℕ
allow_protocols raw = protocol_name ++ raw_name
allow_protocols lapps = protocol_name ++ lapps_name
allow_protocols internal = protocol_name

-- What of it goes into the response: only an alias does.
abbrev pub protocol_line : List ℕ → Option (List ℕ) → List ℕ
protocol_line allowed none = []
protocol_line allowed (some alias) = protocol_name ++ (alias ++ (13 ∷ 10 ∷ []))

abbrev pub asks_upgrade : (List ℕ → List ℕ) → HttpRequestParser → Bool
asks_upgrade to_upper p =
    contains upgrade_token (to_upper (header p connection_name))
    && same_bytes (to_upper (header p upgrade_name)) websocket_token
    && same_bytes (header p version_name) version_13
    && not (is_empty (header p key_name))

abbrev pub filtered : Service → Option ℕ → Bool
filtered app none = false
filtered app (some address) = app.filter_ip address

-- `setState(MESSAGING)` may throw, which is caught.
abbrev pub start_messaging : Socket → Service → Registry → List (List ℕ) → Option Socket → Handshake
start_messaging s app r sent none = close s r sent
start_messaging s app r sent (some s') =
    finished (set_application s' (some app.max_msg_size)) r sent false

abbrev pub admit : Socket → Peer → Service → Registry → List (List ℕ) → Handshake
admit s peer app r sent =
    if peer.response_sent
    then (if filtered app peer.address
        then close s r (sent ++ (forbidden ∷ []))
        else start_messaging s app r sent (set_state s Phase.messaging))
    else close s r sent

-- The bytes are written into the buffer of the handshake, and a zero behind them.
abbrev pub buffered : List ℕ → List ℕ → List ℕ
buffered buffer bytes = set (mem_copy buffer 0 bytes) (length bytes) 0

module _ (to_upper : List ℕ → List ℕ) (sha1_digest base64_encode : List ℕ → List ℕ)
    (config : Config) where
  unfoldable pub prepare_ok_response : HttpRequestParser → Service → List ℕ
  prepare_ok_response p app =
      switching
      ++ (extra_lines (config.extra_headers app.name)
          ++ (protocol_line (allow_protocols app.protocol) (config.proto_alias app.name)
              ++ (accept_name
                  ++ (base64_encode (sha1_digest (header p key_name ++ uid))
                      ++ (13 ∷ 10 ∷ 13 ∷ 10 ∷ [])))))

  abbrev pub with_service :
      Socket → Peer → HttpRequestParser → Option (Service × Registry) → Handshake
  with_service s peer p none = throws
  with_service s peer p (some (app, r)) = admit s peer app r (prepare_ok_response p app ∷ [])

  -- `parseHeader`, and what follows it
  unfoldable pub on_request : Socket → Peer → Registry → Parsing → Handshake
  on_request s peer r (accepted p) =
      if asks_upgrade to_upper p
      then with_service s peer p (find_by_target r p.request_target)
      else close s r (forbidden ∷ [])
  on_request s peer r malformed = close s r (forbidden ∷ [])
  on_request s peer r starved = runs_on

  unfoldable pub on_received :
      Socket → Peer → Registry → HttpRequestParser → List ℕ → Option (List ℕ) → Handshake
  on_received s peer r p buffer none = close s r []
  on_received s peer r p buffer (some bytes) =
      on_request s peer r (Http.parse (buffered buffer bytes) (length bytes) (clear p))

  unfoldable pub handshake : Socket → Peer → Registry → HttpRequestParser → List ℕ → Handshake
  handshake s peer r p buffer = on_received s peer r p buffer peer.received

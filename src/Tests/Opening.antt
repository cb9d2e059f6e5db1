-- ===== src/Tests/Opening.antt =====
-- A request that opens a connection, and the parser, the handshake and the worker that get it.
use lapp_s.Common.{
  Option, ℕ, zero, suc, ◌-◌, true, false, ◌&&◌, some, none, List, [], ◌∷◌, ◌++◌, ◌≡◌, ◌≢◌, refl,
  arith, leb, if◌then◌else◌, length, byte_at, emplace, assign, strings, lookup, numbers,
}
use lapp_s.Http.{
  HttpRequestParser, new_parser, clear, accepted, starved, in_key, in_line, in_target, in_version,
}
use lapp_s.Http
use lapp_s.Http.Collect.{all-All}
use lapp_s.Http.Request.{Header, WellFormed, collected}
use lapp_s.Http.RoundTrip.{get_request, parse-get_request}
use lapp_s.Http.Progress.{parse_ends, parse-leading_crlf}
use lapp_s.Registry.{Service, Registry, Protocol, find_by_target}
use lapp_s.Registry
use lapp_s.Socket.{Socket, Phase, set_application}
use lapp_s.Handshake.{
  Config, Peer, Handshake, finished, handshake, asks_upgrade, prepare_ok_response, connection_name,
  upgrade_name, version_name, key_name, websocket_token, version_13, buffered,
}
use lapp_s.Handshake.Outcomes.{
  Settled, attempt, handshake-Settled, handshake-opens, handshake-unknown_target,
}
use lapp_s.Worker.{Worker, Event, turned, process_events}
use lapp_s.Worker.Counts.{IsCounted}
use lapp_s.Worker.Counts.Events.{Leaves}
use lapp_s.Worker.Execute.{execute}
use lapp_s.Worker.Execute.Passes.{execute-IsCounted}
use lapp_s.Worker.Stops.{process_events-unknown_target}
use lapp_s.Tests.{idle}

abbrev pub zeros : ℕ → List ℕ
zeros zero = []
zeros (suc n) = 0 ∷ zeros n

abbrev pub upper : List ℕ → List ℕ
upper [] = []
upper (c ∷ cs) = (if leb b'a' c && leb c b'z' then c - 32 else c) ∷ upper cs

abbrev pub same : List ℕ → List ℕ
same bytes = bytes

abbrev pub target : List ℕ
target = b'/' ∷ b'e' ∷ []

abbrev version : List ℕ
version = b'H' ∷ b'T' ∷ b'T' ∷ b'P' ∷ b'/' ∷ b'1' ∷ b'.' ∷ b'1' ∷ []

abbrev first : Header
first = (connection_name, upgrade_name)

abbrev others : List Header
others = (upgrade_name, websocket_token) ∷ (version_name, version_13) ∷ (key_name, b'k' ∷ []) ∷ []

request-WellFormed : WellFormed (first ∷ others)
request-WellFormed = (
  (omega arith, all-All in_key connection_name refl, all-All in_line upgrade_name refl, refl),
  (
    (omega arith, all-All in_key upgrade_name refl, all-All in_line websocket_token refl, refl),
    (
      (omega arith, all-All in_key version_name refl, all-All in_line version_13 refl, refl),
      ((omega arith, all-All in_key key_name refl, all-All in_line (b'k' ∷ []) refl, refl), tt),
    ),
  ),
)

abbrev request_text : List ℕ
request_text = get_request target version (first ∷ others)

abbrev read : HttpRequestParser
read = record (clear new_parser) {
  request_target = target;
  http_version = version;
  headers = collected [] (first ∷ others);
}

no_tab : byte_at connection_name 0 ≢ b'\t'
no_tab e = absurd (omega arith)

parse-get_request_example :
    Http.parse (request_text ++ zeros 200) (length request_text) (clear new_parser) ≡ accepted read
parse-get_request_example =
    parse-get_request target version first others (zeros 200) new_parser
      (all-All in_target target refl) (all-All in_version version refl) request-WellFormed no_tab
      (omega arith)

parse_ends_example : Http.parse (request_text ++ zeros 200) 30 new_parser ≢ starved
parse_ends_example = parse_ends (request_text ++ zeros 200) 30 new_parser

-- `/e HTTP/1.1`, a header `a: b`, and zeros
abbrev behind : List ℕ
behind =
    target
    ++ (b' ' ∷ (version ++ (13 ∷ 10 ∷ b'a' ∷ b':' ∷ b' ' ∷ b'b' ∷ 13 ∷ 10 ∷ 13 ∷ 10 ∷ zeros 168)))

abbrev misread : HttpRequestParser
misread = record new_parser {
  request_target = b'T' ∷ [];
  http_version = target;
  headers = (version, []) ∷ (b'a' ∷ [], b'b' ∷ []) ∷ [];
}

parse-leading_crlf_example : misread.request_target ≡ new_parser.request_target ++ (b'T' ∷ [])
unfolding Http.parse Http.parse_request Http.collect_headers Http.collect Http.one_header emplace
    strings
parse-leading_crlf_example = parse-leading_crlf behind 27 new_parser misread (omega arith) refl

-- The header names that the handshake asks for.
abbrev pub config : Config
config = record { extra_headers = λ name. []; proto_alias = λ name. none }

abbrev peer : Peer
peer = record { received = some request_text; response_sent = true; address = some 1 }

abbrev pub socket : Socket
socket = record {
  phase = Phase.handshake;
  no_input = false;
  has_application = false;
  parser = idle;
  events = [];
  message_count = 0;
  bytes_in = 0;
}

abbrev pub echo : Service
echo = record {
  id = 1;
  name = b'e' ∷ [];
  target = target;
  is_reactive = true;
  protocol = Protocol.raw;
  max_msg_size = 1000;
  filter_ip = λ address. false;
}

abbrev pub services : Registry
services = record {
  services = (echo.name, record { current = 0; instances = echo ∷ [] }) ∷ [];
  targets = (target, echo.name) ∷ [];
}

handshake-Settled_example :
    Settled upper same same config socket peer refl services
      (attempt upper same same config socket peer refl new_parser (zeros 300) (some request_text))
      (handshake upper same same config socket peer services new_parser (zeros 300))
handshake-Settled_example =
    handshake-Settled upper same same config socket peer refl services new_parser (zeros 300)

read-asks_upgrade : asks_upgrade upper read ≡ true
unfolding Http.header lookup emplace strings
read-asks_upgrade = refl

handshake-opens_example :
    handshake upper same same config socket peer services new_parser (zeros 300)
    ≡ finished
        (set_application (record socket { phase = Phase.messaging }) (some 1000))
        services
        (prepare_ok_response upper same same config read echo ∷ [])
        false
unfolding find_by_target Registry.next Registry.has_next lookup assign strings
handshake-opens_example =
    handshake-opens upper same same config socket peer refl target version first others
      (all-All in_target target refl) (all-All in_version version refl) request-WellFormed no_tab
      (zeros 300) (omega arith) (omega arith) refl services new_parser echo services
      read-asks_upgrade refl refl refl

handshake-unknown_target_example :
    handshake upper same same config socket peer Registry.empty new_parser (zeros 300)
    ≡ Handshake.throws
unfolding find_by_target lookup
handshake-unknown_target_example =
    handshake-unknown_target upper same same config socket peer refl target version first others
      (all-All in_target target refl) (all-All in_version version refl) request-WellFormed no_tab
      (zeros 300) (omega arith) (omega arith) refl Registry.empty new_parser read-asks_upgrade refl

abbrev worker : Worker
worker = record {
  max_connections = 2;
  connections = (5, socket) ∷ [];
  connection_count = 1;
  message_count = 0;
  have_connections = true;
  disconnect_queue = 5 ∷ [];
  dc_send = λ q fd. q ++ (fd ∷ []);
  have_disconnects = true;
  may_run = true;
  in_queue = 6 ∷ 7 ∷ [];
  in_send = λ q fd. q ++ (fd ∷ []);
  counter = 0;
  max_inbounds_skip = 3;
  registry = Registry.empty;
  request_parser = new_parser;
  header_buffer = zeros 300;
}

worker-IsCounted : IsCounted worker
unfolding lookup
worker-IsCounted = record { unique = (refl, tt); count = refl; flag = refl; room = omega arith }

abbrev arrives : Event
arrives = record { fd = 5; is_error = false; busy = false; peer = peer }

abbrev passes : List (List ℕ × Option (List Event))
passes = (8 ∷ [], some (arrives ∷ [])) ∷ ([], none) ∷ []

execute-IsCounted_example :
    Leaves IsCounted (execute (λ fd. true) upper same same config passes worker)
execute-IsCounted_example =
    execute-IsCounted (λ fd. true) upper same same config passes worker worker-IsCounted

process_events-unknown_target_example :
    process_events upper same same config (arrives ∷ []) worker
    ≡ turned (record worker { header_buffer = buffered (zeros 300) request_text; may_run = false })
unfolding find_by_target lookup numbers
process_events-unknown_target_example =
    process_events-unknown_target upper same same config worker arrives socket refl refl refl []
      target version first others (all-All in_target target refl) (all-All in_version version refl)
      request-WellFormed no_tab (omega arith) (omega arith) refl read-asks_upgrade refl

-- ===== src/Socket/Handled.antt =====
-- `onMessage` of include/WebSocket.h on a message that keeps the connection open.
use lapp_s.Common.{
  ℕ, ◌+◌, ◌≤◌, ◌<◌, true, List, [], ◌∷◌, ◌++◌, ◌≡◌, refl, sym, subst, ◌⊎◌, inl, inr, arith, some,
  length, append-nil, ◌^◌, ◌==◌, if◌then◌else◌,
}
use lapp_s.Protocol.{WsEvent}
use lapp_s.Protocol.OpCode
use lapp_s.Parser.Utf8.{is_valid_utf8}
use lapp_s.Parser.Delivery.{Sendable}
use lapp_s.ServerMessage.{server_pong_message}
use lapp_s.Socket.{Socket, on_message, update_in_stats, done, enqueue}

-- A message that a peer may send as one frame and that keeps the connection open.
abbrev pub Acceptable : ℕ → List ℕ → Type 0
Acceptable oc src =
    ((oc ≡ OpCode.text) × (is_valid_utf8 src (length src) ≡ some true) × (length src < 2 ^ 63))
    ⊎ ((oc ≡ OpCode.binary) × (length src < 2 ^ 63))
    ⊎ ((oc ≡ OpCode.ping) × (length src ≤ 125))
    ⊎ ((oc ≡ OpCode.pong) × (length src ≤ 125))

-- What the application's queue gets: a message, or the pong that a ping asks for.
abbrev pub reaction : ℕ → List ℕ → List WsEvent
reaction oc src =
    if oc == OpCode.pong
    then []
    else if oc == OpCode.ping
    then record { type = OpCode.pong; message = server_pong_message src } ∷ []
    else record { type = oc; message = src } ∷ []

pub Acceptable-Sendable : (oc : ℕ) (src : List ℕ) → Acceptable oc src → Sendable oc src
Acceptable-Sendable oc src h = (ground arith, ground arith)

-- What a message leaves of a socket.
pub record Handled (s s' : Socket) (queued : List WsEvent) (messages bytes : ℕ) : Type 0 where
  pub phase : s'.phase ≡ s.phase
  pub no_input : s'.no_input ≡ s.no_input
  pub has_application : s'.has_application ≡ s.has_application
  pub events : s'.events ≡ s.events ++ queued
  pub message_count : s'.message_count ≡ s.message_count + messages
  pub bytes_in : s'.bytes_in ≡ s.bytes_in + bytes

counted : (n sz : ℕ) → (if sz == 0 then n else n + sz) ≡ n + sz
counted n sz = ground arith

module _ (s : Socket) (src : List ℕ) where
  abbrev seen : Socket
  seen = update_in_stats s (length src)

  queues :
      (oc : ℕ) (out : List ℕ)
      → Handled s (enqueue seen oc out) (record { type = oc; message = out } ∷ []) 1 (length src)
  unfolding update_in_stats
  queues oc out = record {
    phase = refl;
    no_input = refl;
    has_application = refl;
    events = refl;
    message_count = refl;
    bytes_in = counted s.bytes_in (length src);
  }

  ignores : Handled s seen [] 1 (length src)
  unfolding update_in_stats
  ignores = record {
    phase = refl;
    no_input = refl;
    has_application = refl;
    events = sym (append-nil s.events);
    message_count = refl;
    bytes_in = counted s.bytes_in (length src);
  }

  abbrev Takes : ℕ → Type 0
  Takes oc =
      (s' : Socket) × (on_message s (record { type = oc; message = src }) ≡ done s' true)
      × (s'.parser ≡ s.parser)
      × Handled s s' (reaction oc src) 1 (length src)

  pub on_message-Acceptable : (oc : ℕ) → s.has_application ≡ true → Acceptable oc src → Takes oc
  unfolding on_message update_in_stats
  on_message-Acceptable oc app (inl (t, utf8, _)) =
      subst Takes (sym t) (enqueue seen 1 src, rw (app, utf8) refl, refl, queues 1 src)
  on_message-Acceptable oc app (inr (inl (b, _))) =
      subst Takes (sym b) (enqueue seen 2 src, rw app refl, refl, queues 2 src)
  on_message-Acceptable oc app (inr (inr (inl (p, _)))) = subst Takes (sym p) (
    enqueue seen 10 (server_pong_message src),
    rw app refl,
    refl,
    queues 10 (server_pong_message src),
  )
  on_message-Acceptable oc app (inr (inr (inr (p, _)))) =
      subst Takes (sym p) (seen, rw app refl, refl, ignores)

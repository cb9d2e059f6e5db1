-- ===== src/Worker.antt =====
-- include/IOWorker.h: one worker's table of connections and what it does with the events of epoll,
-- for sockets without TLS. A socket stands in the table by its descriptor; the calls of epoll
-- itself are left out.
pub mod Counts
pub mod Stops
pub mod Execute
use lapp_s.Common.{
  ℕ, ◌+◌, ◌<◌, Bool, true, false, not, Option, some, none, List, [], ◌∷◌, ◌++◌, ltb, if◌then◌else◌,
  length, Dict, numbers, lookup, emplace, assign, erase,
}
use lapp_s.Http.{HttpRequestParser}
use lapp_s.Registry.{Registry}
use lapp_s.Socket.{
  Socket, Phase, Effect, done, throws, unsafe, out_of_fuel, set_state, process_input, new_socket,
}
use lapp_s.Handshake.{Config, Peer, Handshake, finished, runs_on, buffered, handshake}
use lapp_s.Handshake

-- `disconnect_queue` is what the calls of `recv` on `mDCQueue` give until it is empty. The queue is
-- an `itc::cfifo` for 20 descriptors: what its `send` makes of it, also when it is full, is `dc_send`.
-- In the same way, `in_queue` and `in_send` are `mInQueue`, which is an `itc::tsbqueue`.
pub record Worker : Type 0 where
  pub max_connections : ℕ
  pub connections : Dict ℕ Socket
  pub connection_count : ℕ
  pub message_count : ℕ
  pub have_connections : Bool
  pub disconnect_queue : List ℕ
  pub dc_send : List ℕ → ℕ → List ℕ
  pub have_disconnects : Bool
  pub may_run : Bool
  pub in_queue : List ℕ
  pub in_send : List ℕ → ℕ → List ℕ
  pub counter : ℕ
  pub max_inbounds_skip : ℕ
  pub registry : Registry
  pub request_parser : HttpRequestParser
  pub header_buffer : List ℕ

abbrev pub is_filled {ℓ} : {A : Type ℓ} → List A → Bool
is_filled [] = false
is_filled (a ∷ xs) = true

-- `mStats.mConnections=mConnections.size();`
abbrev pub counted : Worker → Worker
counted w = record w { connection_count = length w.connections }

-- `disconnect`, for a `send` that returns
unfoldable pub disconnect : Worker → ℕ → Worker
disconnect w fd = record w {
  disconnect_queue = w.dc_send w.disconnect_queue fd;
  have_disconnects = true;
}

-- `addNewConnection`; a connection too many is answered and closed.
unfoldable pub add_new_connection : Worker → ℕ → Socket → Worker
unfolding disconnect
add_new_connection w fd s =
    let q =
      if ltb (length w.connections) w.max_connections
      then record w { connections = emplace numbers fd s w.connections }
      else disconnect w fd in
    record (counted q) { have_connections = is_filled q.connections }

unfoldable pub delete_connection : Worker → ℕ → Worker
delete_connection w fd =
    let q = counted (record w { connections = erase numbers fd w.connections }) in
    if is_filled q.connections then q else record q { have_connections = false }

-- `execute` drains the queue of the disconnected first.
abbrev pub delete_all : Worker → List ℕ → Worker
delete_all w [] = w
delete_all w (fd ∷ fds) = delete_all (delete_connection w fd) fds

unfoldable pub process_disconnects : Worker → Worker
process_disconnects w =
    if w.have_disconnects
    then record (delete_all w w.disconnect_queue) {
      disconnect_queue = [];
      have_disconnects = false;
    }
    else w

-- One event: an error, or input; `busy` is what `mMutex.busy()` says.
pub record Event : Type 0 where
  pub fd : ℕ
  pub is_error : Bool
  pub busy : Bool
  pub peer : Peer

-- `raised` is an exception that leaves the function.
pub data Turn : Type 0 where
  turned : Worker → Turn
  raised : Worker → Turn
  undefined_read : Turn
  never_ends : Turn

-- `handleInput` of include/WebSocket.h; `lost` is a result of -1.
pub data Input : Type 0 where
  handled : Socket → Input
  lost : Input
  failed : Input
  overread : Input
  endless : Input

abbrev pub input_of : Effect → Input
input_of (done s more) = handled s
input_of throws = failed
input_of unsafe = overread
input_of out_of_fuel = endless

abbrev pub read_input : Socket → Option (List ℕ) → Input
read_input s none = lost
read_input s (some []) = handled s
read_input s (some (b ∷ bytes)) = input_of (process_input (b ∷ bytes) s)

abbrev pub handle_input : Socket → Event → Input
handle_input s e = elim s.phase [
  | Phase.closed ↦ lost
  | _ ↦ if e.busy then handled s else if s.no_input then handled s else read_input s e.peer.received
]

abbrev pub put : Worker → ℕ → Socket → Worker
put w fd s = record w { connections = assign numbers fd s w.connections }

abbrev pub on_input : Worker → ℕ → Input → Turn
on_input w fd (handled s) = turned (put w fd s)
on_input w fd lost = turned (delete_connection w fd)
on_input w fd failed = turned (delete_connection w fd)
on_input w fd overread = undefined_read
on_input w fd endless = never_ends

abbrev pub is_messaging : Phase → Bool
is_messaging Phase.messaging = true
is_messaging _ = false

abbrev pub read_buffer : List ℕ → Option (List ℕ) → List ℕ
read_buffer buffer none = buffer
read_buffer buffer (some bytes) = buffered buffer bytes

-- After the handshake: `close` has told the worker, and no other state than MESSAGING is kept.
abbrev pub on_handshake : Worker → ℕ → Handshake → Turn
on_handshake w fd (finished s r sent disconnects) =
    let q = put (record w { registry = r }) fd s in
    let q' = if disconnects then disconnect q fd else q in
    turned (if is_messaging s.phase then q' else delete_connection q' fd)
on_handshake w fd Handshake.throws = raised w
on_handshake w fd runs_on = never_ends

-- `accept` without TLS
abbrev pub on_accept : Worker → ℕ → Option Socket → Turn
on_accept w fd none = raised w
on_accept w fd (some s) = turned (put w fd s)

abbrev pub count_message : Turn → Turn
count_message (turned w) = turned (record w { message_count = w.message_count + 1 })
count_message t = t

-- An exception ends the loop of `execute` over the events, and with it the worker.
abbrev pub after_event : (Worker → Turn) → Turn → Turn
after_event rest (turned w) = rest w
after_event rest (raised w) = turned (record w { may_run = false })
after_event rest t = t

module _ (to_upper : List ℕ → List ℕ) (sha1_digest base64_encode : List ℕ → List ℕ)
    (config : Config) where
  abbrev pub on_phase : Worker → Event → Socket → Phase → Turn
  on_phase w e s Phase.messaging = on_input w e.fd (handle_input s e)
  on_phase w e s Phase.accept = on_accept w e.fd (set_state s Phase.handshake)
  on_phase w e s Phase.handshake =
      on_handshake (record w { header_buffer = read_buffer w.header_buffer e.peer.received }) e.fd
        (handshake to_upper sha1_digest base64_encode config s e.peer w.registry w.request_parser
          w.header_buffer)
  on_phase w e s Phase.closed = turned (delete_connection w e.fd)

  abbrev pub on_connection : Worker → Event → Option Socket → Turn
  on_connection w e none = turned w
  on_connection w e (some s) = on_phase w e s s.phase

  unfoldable pub process_io : Worker → Event → Turn
  process_io w e = on_connection w e (lookup numbers e.fd w.connections)

  unfoldable pub process_event : Worker → Event → Turn
  process_event w e =
      if e.is_error then turned (delete_connection w e.fd) else count_message (process_io w e)

  -- The loop of `execute` over the events of one call of `poll`.
  unfoldable pub process_events : List Event → Worker → Turn
  process_events [] w = turned w
  process_events (e ∷ es) w = after_event (process_events es) (process_event w e)

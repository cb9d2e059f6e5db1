-- ===== src/Worker/Counts/Events.antt =====
-- The table of connections of include/IOWorker.h over the events of a call of `poll`.
use lapp_s.Common.{
  ℕ, Bool, true, false, Option, some, none, List, [], ◌∷◌, ◌≡◌, refl, if◌then◌else◌, Bool-cases,
  inl, inr, numbers, lookup,
}
use lapp_s.Socket.{Socket, Phase, set_state}
use lapp_s.Handshake.{Config, Handshake, finished, throws, runs_on, handshake}
use lapp_s.Worker.{
  Worker, Event, Turn, turned, raised, undefined_read, never_ends, Input, handled, lost, failed,
  overread, endless, disconnect, delete_connection, put, on_input, on_handshake, on_accept,
  on_phase, on_connection, process_io, count_message, process_event, after_event, process_events,
  handle_input, is_messaging, read_buffer,
}
use lapp_s.Worker.Counts.{IsCounted, delete_connection-IsCounted, put-IsCounted}

-- What holds of the worker that a call leaves.
abbrev pub Leaves : (Worker → Type 0) → Turn → Type 0
Leaves P (turned w) = P w
Leaves P (raised w) = P w
Leaves P undefined_read = Unit
Leaves P never_ends = Unit

on_input-IsCounted :
    (w : Worker) (fd : ℕ) (i : Input) (s' : Socket)
    → IsCounted w
    → lookup numbers fd w.connections ≡ some s'
    → Leaves IsCounted (on_input w fd i)
on_input-IsCounted w fd (handled s) s' ok found = put-IsCounted w fd s s' ok found
on_input-IsCounted w fd lost s' ok found = delete_connection-IsCounted w fd ok
on_input-IsCounted w fd failed s' ok found = delete_connection-IsCounted w fd ok
on_input-IsCounted w fd overread s' ok found = tt
on_input-IsCounted w fd endless s' ok found = tt

on_accept-IsCounted :
    (w : Worker) (fd : ℕ) (o : Option Socket) (s' : Socket)
    → IsCounted w
    → lookup numbers fd w.connections ≡ some s'
    → Leaves IsCounted (on_accept w fd o)
on_accept-IsCounted w fd none s' ok found = ok
on_accept-IsCounted w fd (some s) s' ok found = put-IsCounted w fd s s' ok found

-- A connection that does not take messages after the handshake is dropped.
kept_or_dropped :
    (w : Worker) (fd : ℕ) (messaging : Bool)
    → IsCounted w
    → Leaves IsCounted (turned (if messaging then w else delete_connection w fd))
kept_or_dropped w fd true ok = ok
kept_or_dropped w fd false ok = delete_connection-IsCounted w fd ok

told :
    (w : Worker) (fd : ℕ) (disconnects : Bool)
    → IsCounted w
    → IsCounted (if disconnects then disconnect w fd else w)
unfolding disconnect
told w fd true ok = ok
told w fd false ok = ok

on_handshake-IsCounted :
    (w : Worker) (fd : ℕ) (h : Handshake) (s' : Socket)
    → IsCounted w
    → lookup numbers fd w.connections ≡ some s'
    → Leaves IsCounted (on_handshake w fd h)
on_handshake-IsCounted w fd (finished s r sent disconnects) s' ok found =
    let q = put (record w { registry = r }) fd s in
    kept_or_dropped (if disconnects then disconnect q fd else q) fd (is_messaging s.phase)
      (told q fd disconnects (put-IsCounted (record w { registry = r }) fd s s' ok found))
on_handshake-IsCounted w fd throws s' ok found = ok
on_handshake-IsCounted w fd runs_on s' ok found = tt

count_message-IsCounted : (t : Turn) → Leaves IsCounted t → Leaves IsCounted (count_message t)
count_message-IsCounted (turned w) ok = ok
count_message-IsCounted (raised w) ok = ok
count_message-IsCounted undefined_read ok = ok
count_message-IsCounted never_ends ok = ok

onward-IsCounted :
    (rest : Worker → Turn) (t : Turn)
    → ((w : Worker) → IsCounted w → Leaves IsCounted (rest w))
    → Leaves IsCounted t
    → Leaves IsCounted (after_event rest t)
onward-IsCounted rest (turned w) keeps ok = keeps w ok
onward-IsCounted rest (raised w) keeps ok = ok
onward-IsCounted rest undefined_read keeps ok = tt
onward-IsCounted rest never_ends keeps ok = tt

module _ (to_upper : List ℕ → List ℕ) (sha1_digest base64_encode : List ℕ → List ℕ)
    (config : Config) where
  on_phase-IsCounted :
      (w : Worker) (e : Event) (s : Socket) (phase : Phase)
      → IsCounted w
      → lookup numbers e.fd w.connections ≡ some s
      → Leaves IsCounted (on_phase to_upper sha1_digest base64_encode config w e s phase)
  on_phase-IsCounted w e s Phase.messaging ok found =
      on_input-IsCounted w e.fd (handle_input s e) s ok found
  on_phase-IsCounted w e s Phase.accept ok found =
      on_accept-IsCounted w e.fd (set_state s Phase.handshake) s ok found
  on_phase-IsCounted w e s Phase.handshake ok found =
      on_handshake-IsCounted
        (record w { header_buffer = read_buffer w.header_buffer e.peer.received }) e.fd
        (handshake to_upper sha1_digest base64_encode config s e.peer w.registry w.request_parser
          w.header_buffer)
        s ok found
  on_phase-IsCounted w e s Phase.closed ok found = delete_connection-IsCounted w e.fd ok

  on_connection-IsCounted :
      (w : Worker) (e : Event) (o : Option Socket)
      → IsCounted w
      → lookup numbers e.fd w.connections ≡ o
      → Leaves IsCounted (on_connection to_upper sha1_digest base64_encode config w e o)
  on_connection-IsCounted w e none ok found = ok
  on_connection-IsCounted w e (some s) ok found = on_phase-IsCounted w e s s.phase ok found

  process_event-IsCounted :
      (w : Worker) (e : Event)
      → IsCounted w
      → Leaves IsCounted (process_event to_upper sha1_digest base64_encode config w e)
  unfolding process_event process_io
  process_event-IsCounted w e ok = elim (Bool-cases e.is_error) [
    | inl broken ↦ rw broken (delete_connection-IsCounted w e.fd ok)
    | inr fine ↦ rw fine (
        count_message-IsCounted
          (on_connection to_upper sha1_digest base64_encode config w e
            (lookup numbers e.fd w.connections))
          (on_connection-IsCounted w e (lookup numbers e.fd w.connections) ok refl))
  ]

  -- Where the worker's count of connections and its flag are those of the table, the table has no
  -- descriptor twice, and it is within the limit, the same holds after the events of a call of
  -- poll, whatever they are.
  pub process_events-IsCounted :
      (es : List Event) (w : Worker)
      → IsCounted w
      → Leaves IsCounted (process_events to_upper sha1_digest base64_encode config es w)
  unfolding process_events
  process_events-IsCounted [] w ok = ok
  process_events-IsCounted (e ∷ es) w ok =
      onward-IsCounted (process_events to_upper sha1_digest base64_encode config es)
        (process_event to_upper sha1_digest base64_encode config w e) (process_events-IsCounted es)
        (process_event-IsCounted w e ok)

-- ===== src/Worker/Execute.antt =====
-- `processInbound` and the loop of `execute` of include/IOWorker.h. The inbound queue holds the
-- descriptors of accepted sockets. Other threads add to it at any time: what they add while a pass
-- runs is part of the pass. `valid` says of a descriptor that a `WebSocket` can be made of it.
pub mod Passes
use lapp_s.Common.{
  ℕ, zero, suc, ◌+◌, Bool, true, false, not, ◌&&◌, Option, some, none, List, [], ◌∷◌, ◌++◌, ltb,
  if◌then◌else◌,
}
use lapp_s.Socket.{new_socket}
use lapp_s.Handshake.{Config}
use lapp_s.Worker.{
  Worker, Event, Turn, turned, raised, undefined_read, never_ends, is_filled, add_new_connection,
  process_disconnects, process_events,
}

abbrev pub enqueue_each : (List ℕ → ℕ → List ℕ) → List ℕ → List ℕ → List ℕ
enqueue_each send queue [] = queue
enqueue_each send queue (fd ∷ fds) = enqueue_each send (send queue fd) fds

-- The calls of `enqueue` for some sockets
unfoldable pub enqueue : Worker → List ℕ → Worker
enqueue w fds = record w { in_queue = enqueue_each w.in_send w.in_queue fds }

module _ (valid : ℕ → Bool) where
  -- The loop over the queue taken as a whole; an exception leaves it, and what is left of the
  -- queue is lost.
  abbrev pub add_all : List ℕ → Worker → Worker
  add_all [] w = w
  add_all (fd ∷ fds) w =
      let rest = add_all fds (add_new_connection w fd new_socket) in if valid fd then rest else w

  -- The second test: a queue that was found empty more often than `max_inbounds_skip`, and is not
  -- any more.
  abbrev pub take_all : Worker → Worker
  take_all w =
      if ltb w.max_inbounds_skip w.counter && is_filled w.in_queue
      then add_all w.in_queue (record w { counter = 0; in_queue = [] })
      else w

  abbrev pub take_one : List ℕ → List ℕ → Worker → Worker
  take_one [] late w = take_all (enqueue (record w { counter = w.counter + 1 }) late)
  take_one (fd ∷ fds) late w =
      if valid fd
      then take_all (
          enqueue
            (record (add_new_connection (record w { in_queue = fds }) fd new_socket) {
              counter = 0;
            })
            late)
      else enqueue (record w { in_queue = fds }) late

  -- `late` arrives after `try_recv`.
  unfoldable pub process_inbound : List ℕ → Worker → Worker
  process_inbound late w = take_one w.in_queue late w

  module _ (to_upper : List ℕ → List ℕ) (sha1_digest base64_encode : List ℕ → List ℕ)
      (config : Config) where
    -- What one pass of the loop meets: the arrivals during its calls of `processInbound`, and the
    -- events of `poll`, or its exception.
    abbrev pub poll_events : Option (List Event) → Worker → Turn
    poll_events none w = turned (record w { may_run = false })
    poll_events (some es) w = process_events to_upper sha1_digest base64_encode config es w

    unfoldable pub pass : List ℕ → Option (List Event) → Worker → Turn
    pass late events w =
        let w1 = process_inbound late (process_disconnects w) in
        if w1.have_connections then poll_events events w1 else turned (process_inbound [] w1)

    -- A pass follows while the worker may run.
    abbrev pub then_pass : (Worker → Turn) → Turn → Turn
    then_pass rest (turned w) = rest w
    then_pass rest t = t

    unfoldable pub execute : List (List ℕ × Option (List Event)) → Worker → Turn
    execute [] w = turned w
    execute ((late, events) ∷ passes) w =
        let rest = then_pass (execute passes) (pass late events w) in
        if w.may_run then rest else turned w

-- ===== src/Worker/Execute/Passes.antt =====
-- The table of connections over the passes of `execute` of include/IOWorker.h.
use lapp_s.Common.{
  ℕ, ◌+◌, Bool, true, false, ◌&&◌, Option, some, none, List, [], ◌∷◌, ltb, if◌then◌else◌,
}
use lapp_s.Socket.{new_socket}
use lapp_s.Handshake.{Config}
use lapp_s.Worker.{
  Worker, Event, Turn, turned, raised, undefined_read, never_ends, is_filled, add_new_connection,
  process_disconnects,
}
use lapp_s.Worker.Counts.{IsCounted, add_new_connection-IsCounted, process_disconnects-IsCounted}
use lapp_s.Worker.Counts.Events.{Leaves, process_events-IsCounted}
use lapp_s.Worker.Execute.{
  enqueue, add_all, take_all, take_one, process_inbound, poll_events, pass, then_pass, execute,
}

chosen : (b : Bool) (v w : Worker) → IsCounted v → IsCounted w → IsCounted (if b then v else w)
chosen true v w ok ok' = ok
chosen false v w ok ok' = ok'

module _ (valid : ℕ → Bool) where
  add_all-IsCounted : (fds : List ℕ) (w : Worker) → IsCounted w → IsCounted (add_all valid fds w)
  add_all-IsCounted [] w ok = ok
  add_all-IsCounted (fd ∷ fds) w ok =
      let v = add_new_connection w fd new_socket in
      chosen (valid fd) (add_all valid fds v) w
        (add_all-IsCounted fds v (add_new_connection-IsCounted w fd new_socket ok)) ok

  take_all-IsCounted : (w : Worker) → IsCounted w → IsCounted (take_all valid w)
  take_all-IsCounted w ok =
      let v = record w { counter = 0; in_queue = [] } in
      chosen (ltb w.max_inbounds_skip w.counter && is_filled w.in_queue)
        (add_all valid w.in_queue v) w (add_all-IsCounted w.in_queue v ok) ok

  take_one-IsCounted :
      (fds late : List ℕ) (w : Worker) → IsCounted w → IsCounted (take_one valid fds late w)
  unfolding enqueue
  take_one-IsCounted [] late w ok =
      take_all-IsCounted (enqueue (record w { counter = w.counter + 1 }) late) ok
  take_one-IsCounted (fd ∷ fds) late w ok =
      let v = record w { in_queue = fds } in
      let q = enqueue (record (add_new_connection v fd new_socket) { counter = 0 }) late in
      chosen (valid fd) (take_all valid q) (enqueue v late)
        (take_all-IsCounted q (add_new_connection-IsCounted v fd new_socket ok)) ok

  process_inbound-IsCounted :
      (late : List ℕ) (w : Worker) → IsCounted w → IsCounted (process_inbound valid late w)
  unfolding process_inbound
  process_inbound-IsCounted late w ok = take_one-IsCounted w.in_queue late w ok

  module _ (to_upper : List ℕ → List ℕ) (sha1_digest base64_encode : List ℕ → List ℕ)
      (config : Config) where
    poll_events-IsCounted :
        (events : Option (List Event)) (w : Worker)
        → IsCounted w
        → Leaves IsCounted (poll_events valid to_upper sha1_digest base64_encode config events w)
    poll_events-IsCounted none w ok = ok
    poll_events-IsCounted (some es) w ok =
        process_events-IsCounted to_upper sha1_digest base64_encode config es w ok

    either :
        (b : Bool) (t u : Turn)
        → Leaves IsCounted t
        → Leaves IsCounted u
        → Leaves IsCounted (if b then t else u)
    either true t u ok ok' = ok
    either false t u ok ok' = ok'

    pass-IsCounted :
        (late : List ℕ) (events : Option (List Event)) (w : Worker)
        → IsCounted w
        → Leaves IsCounted (pass valid to_upper sha1_digest base64_encode config late events w)
    unfolding pass
    pass-IsCounted late events w ok =
        let w1 = process_inbound valid late (process_disconnects w) in
        let ok1 =
          process_inbound-IsCounted late (process_disconnects w)
            (process_disconnects-IsCounted w ok) in
        either w1.have_connections
          (poll_events valid to_upper sha1_digest base64_encode config events w1)
          (turned (process_inbound valid [] w1)) (poll_events-IsCounted events w1 ok1)
          (process_inbound-IsCounted [] w1 ok1)

    then_pass-IsCounted :
        (rest : Worker → Turn) (t : Turn)
        → ((w : Worker) → IsCounted w → Leaves IsCounted (rest w))
        → Leaves IsCounted t
        → Leaves IsCounted (then_pass valid to_upper sha1_digest base64_encode config rest t)
    then_pass-IsCounted rest (turned w) keeps ok = keeps w ok
    then_pass-IsCounted rest (raised w) keeps ok = ok
    then_pass-IsCounted rest undefined_read keeps ok = tt
    then_pass-IsCounted rest never_ends keeps ok = tt

    -- Whatever arrives, and whatever the events of the passes are, a worker whose count and
    -- flag are those of its table leaves each pass so, and with no more connections than it may
    -- have.
    pub execute-IsCounted :
        (passes : List (List ℕ × Option (List Event))) (w : Worker)
        → IsCounted w
        → Leaves IsCounted (execute valid to_upper sha1_digest base64_encode config passes w)
    unfolding execute
    execute-IsCounted [] w ok = ok
    execute-IsCounted ((late, events) ∷ passes) w ok =
        let t = pass valid to_upper sha1_digest base64_encode config late events w in
        let go = execute valid to_upper sha1_digest base64_encode config passes in
        either w.may_run (then_pass valid to_upper sha1_digest base64_encode config go t) (turned w)
          (then_pass-IsCounted go t (execute-IsCounted passes) (pass-IsCounted late events w ok)) ok

-- ===== src/Worker/Counts.antt =====
-- The table of connections of include/IOWorker.h and what the worker knows of it.
pub mod Events
use lapp_s.Common.{
  ℕ, ◌≤◌, Bool, true, false, Option, some, none, List, [], ◌∷◌, ◌≡◌, refl, sym, ◌∙◌, arith, ltb,
  if◌then◌else◌, length, Bool-cases, inl, inr, ltb→lt, numbers, lookup, assign, erase, Dict, Unique,
  emplace-Unique, erase-Unique, assign-Unique, length-emplace, length-erase, length-assign,
}
use lapp_s.Socket.{Socket, Phase, set_state}
use lapp_s.Handshake.{Config, Handshake, finished, throws, runs_on, handshake}
use lapp_s.Worker.{
  Worker, Event, Turn, turned, raised, undefined_read, never_ends, Input, handled, lost, failed,
  overread, endless, is_filled, disconnect, add_new_connection, delete_connection, delete_all,
  process_disconnects, put, on_input, on_handshake, on_accept, on_phase, on_connection, process_io,
  count_message, process_event, after_event, process_events, handle_input, is_messaging,
  read_buffer,
}

-- The count and the flag are those of the table, which has no descriptor twice and no more
-- connections than the worker may have.
pub record Counts (table : Dict ℕ Socket) (limit total : ℕ) (some_there : Bool) : Type 0 where
  pub unique : Unique numbers table
  pub count : total ≡ length table
  pub flag : some_there ≡ is_filled table
  pub room : length table ≤ limit

abbrev pub IsCounted : Worker → Type 0
IsCounted w = Counts w.connections w.max_connections w.connection_count w.have_connections

-- A new connection keeps the count and the flag those of the table, and none is taken beyond the
-- limit.
pub add_new_connection-IsCounted :
    (w : Worker) (fd : ℕ) (s : Socket) → IsCounted w → IsCounted (add_new_connection w fd s)
unfolding add_new_connection disconnect
add_new_connection-IsCounted w fd s ok =
    elim (Bool-cases (ltb (length w.connections) w.max_connections)) [
      | inl room ↦
          let less = ltb→lt (length w.connections) w.max_connections room in
          rw room (record {
            unique = emplace-Unique numbers fd s w.connections ok.unique;
            count = refl;
            flag = refl;
            room = omega (arith, length-emplace numbers fd s w.connections);
          })
      | inr full ↦
          rw full (record { unique = ok.unique; count = refl; flag = refl; room = ok.room })
    ]

is_filled-erase :
    (fd : ℕ) (d : Dict ℕ Socket) → is_filled (erase numbers fd d) ≡ true → is_filled d ≡ true
unfolding erase
is_filled-erase fd [] h = h
is_filled-erase fd (e ∷ d) h = refl

pub delete_connection-IsCounted :
    (w : Worker) (fd : ℕ) → IsCounted w → IsCounted (delete_connection w fd)
unfolding delete_connection
delete_connection-IsCounted w fd ok =
    let left = erase numbers fd w.connections in
    let unique = erase-Unique numbers fd w.connections ok.unique in
    let room : length left ≤ w.max_connections =
      omega (arith, length-erase numbers fd w.connections, ok.room) in
    elim (Bool-cases (is_filled left)) [
      | inl some_left ↦ rw some_left (record {
        unique = unique;
        count = refl;
        flag = ok.flag ∙ (is_filled-erase fd w.connections some_left ∙ sym some_left);
        room = room;
      })
      | inr none_left ↦
          rw none_left (record { unique = unique; count = refl; flag = sym none_left; room = room })
    ]

delete_all-IsCounted : (fds : List ℕ) (w : Worker) → IsCounted w → IsCounted (delete_all w fds)
delete_all-IsCounted [] w ok = ok
delete_all-IsCounted (fd ∷ fds) w ok =
    delete_all-IsCounted fds (delete_connection w fd) (delete_connection-IsCounted w fd ok)

emptied-IsCounted :
    (w : Worker) (b : Bool)
    → IsCounted w
    → IsCounted (
        if b
        then record (delete_all w w.disconnect_queue) {
          disconnect_queue = [];
          have_disconnects = false;
        }
        else w)
emptied-IsCounted w true ok = delete_all-IsCounted w.disconnect_queue w ok
emptied-IsCounted w false ok = ok

pub process_disconnects-IsCounted : (w : Worker) → IsCounted w → IsCounted (process_disconnects w)
unfolding process_disconnects
process_disconnects-IsCounted w ok = emptied-IsCounted w w.have_disconnects ok

is_filled-assign :
    (fd : ℕ) (s s' : Socket) (d : Dict ℕ Socket)
    → lookup numbers fd d ≡ some s'
    → is_filled (assign numbers fd s d) ≡ is_filled d
unfolding lookup assign
is_filled-assign fd s s' [] found = absurd (ground arith)
is_filled-assign fd s s' ((j, x) ∷ d) found = elim (Bool-cases (numbers.same fd j)) [
  | inl here ↦ rw here refl
  | inr there ↦ rw there refl
]

-- A connection that is there takes another state.
pub put-IsCounted :
    (w : Worker) (fd : ℕ) (s s' : Socket)
    → IsCounted w
    → lookup numbers fd w.connections ≡ some s'
    → IsCounted (put w fd s)
put-IsCounted w fd s s' ok found =
    let same = length-assign numbers fd s s' w.connections found in
    record {
      unique = assign-Unique numbers fd s w.connections ok.unique;
      count = ok.count ∙ sym same;
      flag = ok.flag ∙ sym (is_filled-assign fd s s' w.connections found);
      room = omega (arith, same, ok.room);
    }

-- ===== src/Stats.antt =====
-- include/WorkerStats.h: the statistics of the workers, and the threads that share them. A thread
-- is where its call stands; a step is one atomic operation, or one access to the table. A loop
-- that tries an exchange again is a thread that has no step yet.
pub mod Threads
pub mod Exclusion
pub mod Endings
pub mod Bytes
use lapp_s.Common.{
  ℕ, zero, suc, ◌+◌, ◌-◌, ◌%◌, ◌^◌, Bool, true, false, Option, some, none, List, [], ◌∷◌, ◌==◌,
  if◌then◌else◌, Dict, lookup, emplace, assign, erase, numbers,
}

-- `IOStats` with the base `WorkerMinStats`
pub record IoStats : Type 0 where
  pub connections : ℕ
  pub event_q_size : ℕ
  pub in_message_count : ℕ
  pub out_message_count : ℕ
  pub in_message_max_size : ℕ
  pub out_message_max_size : ℕ
  pub bytes_in : ℕ
  pub bytes_out : ℕ
  pub in_queue_depth : ℕ

abbrev pub no_stats : IoStats
no_stats = record {
  connections = 0;
  event_q_size = 0;
  in_message_count = 0;
  out_message_count = 0;
  in_message_max_size = 0;
  out_message_max_size = 0;
  bytes_in = 0;
  bytes_out = 0;
  in_queue_depth = 0;
}

-- `operator=`; it leaves the bytes as they were.
abbrev pub assigned : IoStats → IoStats → IoStats
assigned old value = record value { bytes_in = old.bytes_in; bytes_out = old.bytes_out }

abbrev pub Table : Type 0
Table = Dict ℕ IoStats

pub data Edit : Type 0 where
  add_slot del_slot : ℕ → Edit

pub data Call : Type 0 where
  try_update : ℕ → IoStats → Call
  edit : Edit → Call
  get_stats : Call

-- The threads of `try_update` pass from `counted` to `returned`, those that take the flag from
-- `waiting` or `reading` to `finished`, `get_stats` with its copy of the table. The map that a caller
-- of `getStats` passes is empty.
pub data Thread : Type 0 where
  calling : Call → Thread
  counted writing : ℕ → IoStats → Thread
  leaving returned : Bool → Thread
  waiting editing : Edit → Thread
  reading : Thread
  opening finished : Option Table → Thread

pub record Shared : Type 0 where
  pub can_update : Bool
  pub updaters : ℕ
  pub table : Table

abbrev pub start : Table → Shared
start table = record { can_update = true; updaters = 0; table = table }

unfoldable pub edited : Edit → Table → Table
edited (add_slot wid) table = emplace numbers wid no_stats table
edited (del_slot wid) table = erase numbers wid table

-- the loop of `getStats`
unfoldable pub copy_all : Table → Table → Table
copy_all [] statmap = statmap
copy_all ((wid, stats) ∷ table) statmap = copy_all table (emplace numbers wid stats statmap)

unfoldable pub write : ℕ → IoStats → Option IoStats → Shared → Thread × Shared
write wid stats none sh = (leaving false, sh)
write wid stats (some old) sh =
    (leaving true, record sh { table = assign numbers wid (assigned old stats) sh.table })

-- The next operation of a thread. `none`: it spins, or it has returned.
unfoldable pub advance : Thread → Shared → Option (Thread × Shared)
advance (calling (try_update wid stats)) sh =
    some (counted wid stats, record sh { updaters = (sh.updaters + 1) % 2 ^ 64 })
advance (counted wid stats) sh =
    if sh.can_update then some (writing wid stats, sh) else some (leaving false, sh)
advance (writing wid stats) sh = some (write wid stats (lookup numbers wid sh.table) sh)
advance (leaving done) sh =
    some (returned done, record sh { updaters = (sh.updaters + (2 ^ 64 - 1)) % 2 ^ 64 })
advance (returned done) sh = none
advance (calling (edit e)) sh =
    if sh.can_update then some (waiting e, record sh { can_update = false }) else none
advance (waiting e) sh = if sh.updaters == 0 then some (editing e, sh) else none
advance (editing e) sh = some (opening none, record sh { table = edited e sh.table })
advance (calling get_stats) sh =
    if sh.can_update then some (reading, record sh { can_update = false }) else none
advance reading sh = some (opening (some (copy_all sh.table [])), sh)
advance (opening result) sh = some (finished result, record sh { can_update = true })
advance (finished result) sh = none

-- A step of the thread with an index.
unfoldable pub moved :
    Thread → List Thread → Option (Thread × Shared) → Option (List Thread × Shared)
moved t ts none = none
moved t ts (some (u, sh)) = some (u ∷ ts, sh)

unfoldable pub behind : Thread → Option (List Thread × Shared) → Option (List Thread × Shared)
behind t none = none
behind t (some (ts, sh)) = some (t ∷ ts, sh)

unfoldable pub step : ℕ → List Thread → Shared → Option (List Thread × Shared)
step i [] sh = none
step zero (t ∷ ts) sh = moved t ts (advance t sh)
step (suc i) (t ∷ ts) sh = behind t (step i ts sh)

-- The scheduler's choices, one after the other; a thread that is chosen and has no step spins.
abbrev pub or_spin : Option (List Thread × Shared) → List Thread × Shared → List Thread × Shared
or_spin none before = before
or_spin (some after) before = after

unfoldable pub run : List ℕ → List Thread × Shared → List Thread × Shared
run [] (ts, sh) = (ts, sh)
run (i ∷ choices) (ts, sh) = run choices (or_spin (step i ts sh) (ts, sh))

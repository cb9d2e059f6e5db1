-- ===== src/Stats/Endings.antt =====
-- The spinning loops of include/WorkerStats.h end.
use lapp_s.Common.{
  ℕ, zero, suc, ◌^◌, ◌≤◌, ◌<◌, true, false, Option, some, none, List, [], ◌∷◌, ◌++◌, ◌≡◌, refl,
  arith, ltb, Bool-cases, inl, inr, length, lookup, numbers,
}
use lapp_s.Stats.{
  IoStats, Call, edit, try_update, get_stats, Thread, calling, counted, writing, leaving, returned,
  waiting, editing, reading, opening, finished, Shared, Table, start, write, advance, moved, behind,
  step, or_spin, run,
}
use lapp_s.Stats.Threads.{total, total-le, step-Moved}
use lapp_s.Stats.Exclusion.{
  IsSound, updates, closes, callers, start-IsSound, step-IsSound, run-IsSound,
}

-- How many operations a thread has left.
abbrev pub left : Thread → ℕ
left (calling (try_update wid stats)) = 4
left (calling (edit e)) = 4
left (calling get_stats) = 3
left (counted wid stats) = 3
left (writing wid stats) = 2
left (leaving done) = 1
left (returned done) = 0
left (waiting e) = 3
left (editing e) = 2
left reading = 2
left (opening result) = 1
left (finished result) = 0

write-left :
    (wid : ℕ) (stats : IoStats) (old : Option IoStats) (sh : Shared)
    → left (write wid stats old sh).0 ≡ 1
unfolding write
write-left wid stats none sh = refl
write-left wid stats (some old) sh = refl

advance-left : (t u : Thread) (sh th : Shared) → advance t sh ≡ some (u, th) → left u < left t
unfolding advance
advance-left (calling (try_update wid stats)) u sh th h = ground arith
advance-left (calling (edit e)) u sh th h = ground arith
advance-left (calling get_stats) u sh th h = ground arith
advance-left (counted wid stats) u sh th h = ground arith
advance-left (writing wid stats) u sh th h =
    ground (arith, write-left wid stats (lookup numbers wid sh.table) sh)
advance-left (leaving done) u sh th h = ground arith
advance-left (returned done) u sh th h = absurd (ground arith)
advance-left (waiting e) u sh th h = ground arith
advance-left (editing e) u sh th h = ground arith
advance-left reading u sh th h = ground arith
advance-left (opening result) u sh th h = ground arith
advance-left (finished result) u sh th h = absurd (ground arith)

step-left :
    (i : ℕ) (ts us : List Thread) (sh th : Shared)
    → step i ts sh ≡ some (us, th)
    → total left us < total left ts
step-left i ts us sh th h =
    let m = step-Moved i ts us sh th h in
    omega (arith, m.was left, m.is left, advance-left m.before m.after sh th m.stepped)

abbrev CanStep : Thread → Shared → Type 0
CanStep t sh = (x : Thread × Shared) × (advance t sh ≡ some x)

abbrev Goes : List Thread → Shared → Type 0
Goes ts sh = (i : ℕ) × (x : List Thread × Shared) × (step i ts sh ≡ some x)

-- A thread of a kind that can step is found.
found :
    (w : Thread → ℕ) (sh : Shared)
    → ((t : Thread) → 0 < w t → CanStep t sh)
    → (ts : List Thread) → 0 < total w ts
    → Goes ts sh
unfolding step moved behind
found w sh can [] some_one = absurd (omega arith)
found w sh can (t ∷ ts) some_one = elim (Bool-cases (ltb 0 (w t))) [
  | inl this ↦ let ((u, th), e) = can t (ground arith) in (0, (u ∷ ts, th), rw e refl)
  | inr other ↦
      let (i, (us, th), e) = found w sh can ts (ground arith) in (suc i, (t ∷ us, th), rw e refl)
]

updates-CanStep : (sh : Shared) (t : Thread) → 0 < updates t → CanStep t sh
unfolding advance
updates-CanStep sh (counted wid stats) busy = elim (Bool-cases sh.can_update) [
  | inl open_now ↦ ((writing wid stats, sh), rw open_now refl)
  | inr closed ↦ ((leaving false, sh), rw closed refl)
]
updates-CanStep sh (writing wid stats) busy = (_, refl)
updates-CanStep sh (leaving done) busy = (_, refl)
updates-CanStep sh _ busy = absurd (omega arith)

closes-CanStep : (sh : Shared) → sh.updaters ≡ 0 → (t : Thread) → 0 < closes t → CanStep t sh
unfolding advance
closes-CanStep sh quiet (waiting e) busy = ((editing e, sh), rw quiet refl)
closes-CanStep sh quiet (editing e) busy = (_, refl)
closes-CanStep sh quiet reading busy = (_, refl)
closes-CanStep sh quiet (opening result) busy = (_, refl)
closes-CanStep sh quiet _ busy = absurd (omega arith)

left-CanStep :
    (sh : Shared)
    → sh.updaters ≡ 0
    → sh.can_update ≡ true
    → (t : Thread) → 0 < left t
    → CanStep t sh
unfolding advance
left-CanStep sh quiet opened (calling (try_update wid stats)) busy = (_, refl)
left-CanStep sh quiet opened (calling (edit e)) busy =
    ((waiting e, record sh { can_update = false }), rw opened refl)
left-CanStep sh quiet opened (calling get_stats) busy =
    ((reading, record sh { can_update = false }), rw opened refl)
left-CanStep sh quiet opened (returned done) busy = absurd (omega arith)
left-CanStep sh quiet opened (finished result) busy = absurd (omega arith)
left-CanStep sh quiet opened (counted wid stats) busy =
    updates-CanStep sh (counted wid stats) (omega arith)
left-CanStep sh quiet opened (writing wid stats) busy = (_, refl)
left-CanStep sh quiet opened (leaving done) busy = (_, refl)
left-CanStep sh quiet opened (waiting e) busy = closes-CanStep sh quiet (waiting e) (omega arith)
left-CanStep sh quiet opened (editing e) busy = (_, refl)
left-CanStep sh quiet opened reading busy = (_, refl)
left-CanStep sh quiet opened (opening result) busy = (_, refl)

-- Not all threads spin.
IsSound-Goes : (ts : List Thread) (sh : Shared) → IsSound ts sh → 0 < total left ts → Goes ts sh
IsSound-Goes ts sh s busy = elim (Bool-cases (ltb 0 (total updates ts))) [
  | inl some_update ↦ found updates sh (updates-CanStep sh) ts (ground arith)
  | inr no_update ↦
      let quiet : sh.updaters ≡ 0 = ground (arith, s.counts) in
      elim (Bool-cases sh.can_update) [
        | inl opened ↦ found left sh (left-CanStep sh quiet opened) ts busy
        | inr closed ↦ found closes sh (closes-CanStep sh quiet) ts (ground (arith, s.holds))
      ]
]

-- Every thread is back, and the flag and the counter are as in the beginning.
pub record AllBack (state : List Thread × Shared) : Type 0 where
  pub returned : total left state.0 ≡ 0
  pub opened : state.1.can_update ≡ true
  pub quiet : state.1.updaters ≡ 0

updates-le_left : (t : Thread) → updates t ≤ left t
updates-le_left t = ground arith

closes-le_left : (t : Thread) → closes t ≤ left t
closes-le_left t = ground arith

IsSound-AllBack :
    (ts : List Thread) (sh : Shared) → IsSound ts sh → total left ts ≡ 0 → AllBack (ts, sh)
IsSound-AllBack ts sh s none_left = record {
  returned = none_left;
  opened = ground (arith, s.holds, total-le closes left closes-le_left ts);
  quiet = ground (arith, s.counts, total-le updates left updates-le_left ts);
}

finishes :
    (n : ℕ) (ts : List Thread) (sh : Shared)
    → IsSound ts sh
    → total left ts < n
    → (more : List ℕ) × AllBack (run more (ts, sh))
unfolding run
finishes zero ts sh s enough = absurd (omega arith)
finishes (suc n) ts sh s enough = elim (Bool-cases (ltb 0 (total left ts))) [
  | inr back ↦ ([], IsSound-AllBack ts sh s (ground arith))
  | inl busy ↦
      let (i, (us, th), e) = IsSound-Goes ts sh s (ground arith) in
      let (more, done) =
        finishes n us th (step-IsSound i ts us sh th e s)
          (omega (arith, step-left i ts us sh th e)) in
      (i ∷ more, rw e done)
]

run-append :
    (xs ys : List ℕ) (state : List Thread × Shared) → run (xs ++ ys) state ≡ run ys (run xs state)
unfolding run
run-append [] ys (ts, sh) = refl
run-append (i ∷ xs) ys (ts, sh) = run-append xs ys (or_spin (step i ts sh) (ts, sh))

-- However the calls of the threads have been interleaved so far, they have not locked each other
-- out: the scheduler can go on so that every call returns, and then the table is open to updates
-- again and no updater is counted.
pub run-finishes :
    (cs : List Call) (table : Table) (choices : List ℕ)
    → length cs < 2 ^ 64
    → (more : List ℕ) × AllBack (run (choices ++ more) (callers cs, start table))
run-finishes cs table choices few =
    let (ts, sh) = run choices (callers cs, start table) in
    let s = run-IsSound choices (callers cs) (start table) (start-IsSound cs table few) in
    let (more, done) = finishes (suc (total left ts)) ts sh s (omega arith) in
    (more, rw (run-append choices more (callers cs, start table)) done)

-- ===== src/Stats/Exclusion.antt =====
-- Two threads of include/WorkerStats.h at the table.
use lapp_s.Common.{
  ℕ, ◌+◌, ◌^◌, length, ◌≤◌, ◌<◌, Bool, true, false, Option, some, none, List, [], ◌∷◌, ◌≡◌, refl,
  subst, arith, lookup, numbers,
}
use lapp_s.Stats.{
  IoStats, Call, try_update, edit, get_stats, Thread, calling, counted, writing, leaving, returned,
  waiting, editing, reading, opening, finished, Shared, Table, start, write, advance, step, or_spin,
  run,
}
use lapp_s.Stats.Threads.{total, total-le, total-sum, step-Moved}

abbrev pub one : Thread → ℕ
one t = 1

-- between the two changes of `updaters`
abbrev pub updates : Thread → ℕ
updates (counted wid stats) = 1
updates (writing wid stats) = 1
updates (leaving done) = 1
updates _ = 0

-- holds the flag
abbrev pub closes : Thread → ℕ
closes (waiting e) = 1
closes (editing e) = 1
closes reading = 1
closes (opening result) = 1
closes _ = 0

abbrev pub writes : Thread → ℕ
writes (writing wid stats) = 1
writes _ = 0

abbrev pub edits : Thread → ℕ
edits (editing e) = 1
edits _ = 0

-- A slot is added or deleted, and another thread looks at the table.
abbrev pub copies : Thread → ℕ
copies reading = 1
copies _ = 0

abbrev pub flag : Bool → ℕ
flag true = 1
flag false = 0

pub record IsSound (ts : List Thread) (sh : Shared) : Type 0 where
  pub few : total one ts < 2 ^ 64
  pub counts : sh.updaters ≡ total updates ts
  pub holds : total closes ts + flag sh.can_update ≡ 1
  pub apart : 0 < total edits ts → total writes ts ≡ 0

writes-le : (t : Thread) → writes t ≤ updates t
writes-le t = ground arith

updates-le : (t : Thread) → updates t ≤ one t
updates-le t = ground arith

edits-le : (t : Thread) → edits t ≤ closes t
edits-le t = ground arith

-- What the others are: their number, and those that update, hold the flag, write and edit.
record Rest : Type 0 where
  n : ℕ
  u : ℕ
  c : ℕ
  w : ℕ
  e : ℕ

record Sound (r : Rest) (t : Thread) (sh : Shared) : Type 0 where
  few : r.n + 1 < 2 ^ 64
  among : (r.u ≤ r.n) × (r.w ≤ r.u) × (r.e ≤ r.c)
  counts : sh.updaters ≡ updates t + r.u
  holds : closes t + r.c + flag sh.can_update ≡ 1
  apart : 0 < edits t + r.e → writes t + r.w ≡ 0

write-Sound :
    (r : Rest) (wid : ℕ) (stats : IoStats) (sh : Shared) (old : Option IoStats)
    → Sound r (writing wid stats) sh
    → Sound r (write wid stats old sh).0 (write wid stats old sh).1
unfolding write
write-Sound r wid stats sh none s = ground (arith, s.apart)
write-Sound r wid stats sh (some old) s = ground (arith, s.apart)

advance-Sound :
    (r : Rest) (t u : Thread) (sh th : Shared)
    → advance t sh ≡ some (u, th)
    → Sound r t sh
    → Sound r u th
unfolding advance
advance-Sound r (calling (try_update wid stats)) u sh th h s = ground (arith, s.apart)
advance-Sound r (calling (edit e)) u sh th h s = ground (arith, s.apart)
advance-Sound r (calling get_stats) u sh th h s = ground (arith, s.apart)
advance-Sound r (counted wid stats) u sh th h s = ground (arith, s.apart)
advance-Sound r (writing wid stats) u sh th h s =
    let e : write wid stats (lookup numbers wid sh.table) sh ≡ (u, th) = ground arith in
    subst (λ x. Sound r x.0 x.1) e (write-Sound r wid stats sh (lookup numbers wid sh.table) s)
advance-Sound r (leaving done) u sh th h s = ground (arith, s.apart)
advance-Sound r (returned done) u sh th h s = absurd (ground arith)
advance-Sound r (waiting e) u sh th h s = ground (arith, s.apart)
advance-Sound r (editing e) u sh th h s = ground (arith, s.apart)
advance-Sound r reading u sh th h s = ground (arith, s.apart)
advance-Sound r (opening result) u sh th h s = ground (arith, s.apart)
advance-Sound r (finished result) u sh th h s = absurd (ground arith)

pub step-IsSound :
    (i : ℕ) (ts us : List Thread) (sh th : Shared)
    → step i ts sh ≡ some (us, th)
    → IsSound ts sh
    → IsSound us th
step-IsSound i ts us sh th h s =
    let m = step-Moved i ts us sh th h in
    let os = m.others in
    let r : Rest = record {
      n = total one os;
      u = total updates os;
      c = total closes os;
      w = total writes os;
      e = total edits os;
    } in
    let sound = advance-Sound r m.before m.after sh th m.stepped (record {
      few = omega (arith, s.few, m.was one);
      among = (
        total-le updates one updates-le os,
        total-le writes updates writes-le os,
        total-le edits closes edits-le os,
      );
      counts = omega (arith, s.counts, m.was updates);
      holds = omega (arith, s.holds, m.was closes);
      apart = λ some_edit. omega (arith, s.apart (omega (arith, m.was edits)), m.was writes);
    }) in
    record {
      few = omega (arith, sound.few, m.is one);
      counts = omega (arith, sound.counts, m.is updates);
      holds = omega (arith, sound.holds, m.is closes);
      apart = λ some_edit. omega (arith, sound.apart (omega (arith, m.is edits)), m.is writes);
    }

abbrev pub Stands : List Thread × Shared → Type 0
Stands (ts, sh) = IsSound ts sh

or_spin-IsSound :
    (o : Option (List Thread × Shared)) (ts : List Thread) (sh : Shared)
    → ((us : List Thread) (th : Shared) → o ≡ some (us, th) → IsSound us th)
    → IsSound ts sh
    → Stands (or_spin o (ts, sh))
or_spin-IsSound none ts sh next s = s
or_spin-IsSound (some (us, th)) ts sh next s = next us th refl

pub run-IsSound :
    (choices : List ℕ) (ts : List Thread) (sh : Shared)
    → IsSound ts sh
    → Stands (run choices (ts, sh))
unfolding run
run-IsSound [] ts sh s = s
run-IsSound (i ∷ choices) ts sh s =
    let next = or_spin (step i ts sh) (ts, sh) in
    run-IsSound choices next.0 next.1
      (or_spin-IsSound (step i ts sh) ts sh (λ us th e. step-IsSound i ts us sh th e s) s)

abbrev pub callers : List Call → List Thread
callers [] = []
callers (c ∷ cs) = calling c ∷ callers cs

callers-none :
    (w : Thread → ℕ)
    → ((c : Call) → w (calling c) ≡ 0)
    → (cs : List Call) → total w (callers cs) ≡ 0
callers-none w none_calls [] = refl
callers-none w none_calls (c ∷ cs) = omega (arith, none_calls c, callers-none w none_calls cs)

callers-length : (cs : List Call) → total one (callers cs) ≡ length cs
callers-length [] = refl
callers-length (c ∷ cs) = omega (arith, callers-length cs)

pub start-IsSound :
    (cs : List Call) (table : Table) → length cs < 2 ^ 64 → IsSound (callers cs) (start table)
start-IsSound cs table few = record {
  few = omega (arith, callers-length cs);
  counts = omega (arith, callers-none updates (λ c. refl) cs);
  holds = omega (arith, callers-none closes (λ c. refl) cs);
  apart = λ h. absurd (omega (arith, callers-none edits (λ c. refl) cs));
}

closes-both : (t : Thread) → copies t + edits t ≤ closes t
closes-both t = ground arith

-- However the calls of the threads are interleaved: while a slot is added or deleted, no other
-- thread is at the table, neither one that writes its statistics, nor one that copies the table,
-- nor one that adds or deletes another slot.
pub run-excludes :
    (cs : List Call) (table : Table) (choices : List ℕ)
    → length cs < 2 ^ 64
    → 0 < total edits (run choices (callers cs, start table)).0
    → (total writes (run choices (callers cs, start table)).0 ≡ 0)
      × (total copies (run choices (callers cs, start table)).0 ≡ 0)
      × (total edits (run choices (callers cs, start table)).0 ≡ 1)
run-excludes cs table choices few some_edit =
    let (ts, sh) = run choices (callers cs, start table) in
    let s = run-IsSound choices (callers cs) (start table) (start-IsSound cs table few) in
    let alone = total-le (λ t. copies t + edits t) closes closes-both ts in
    (
      s.apart some_edit,
      omega (arith, s.holds, alone, total-sum copies edits ts),
      omega (arith, s.holds, alone, total-sum copies edits ts),
    )

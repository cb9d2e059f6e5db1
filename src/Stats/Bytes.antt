-- ===== src/Stats/Bytes.antt =====
-- The bytes that the assignment of include/WorkerStats.h leaves out.
use lapp_s.Common.{
  ℕ, zero, suc, Option, some, none, List, [], ◌∷◌, ◌≡◌, refl, subst, arith, ◌==◌, if◌then◌else◌,
  Bool, true, false, Bool-cases, inl, inr, lookup, emplace, assign, erase, numbers,
}
use lapp_s.Stats.{
  IoStats, Edit, add_slot, del_slot, Call, edit, try_update, get_stats, Thread, calling, counted,
  writing, leaving, returned, waiting, editing, reading, opening, finished, Shared, Table, no_stats,
  assigned, start, edited, write, advance, moved, behind, step, or_spin, run,
}
use lapp_s.Stats.Exclusion.{callers}

abbrev pub WithoutBytes : IoStats → Type 0
WithoutBytes stats = (stats.bytes_in ≡ 0) × (stats.bytes_out ≡ 0)

abbrev pub NoBytes : Table → Type 0
NoBytes [] = Unit
NoBytes ((wid, stats) ∷ table) = WithoutBytes stats × NoBytes table

emplace-NoBytes :
    (wid : ℕ) (table : Table) → NoBytes table → NoBytes (emplace numbers wid no_stats table)
unfolding emplace numbers
emplace-NoBytes wid [] h = ((refl, refl), tt)
emplace-NoBytes wid ((j, stats) ∷ table) (h, hs) = elim (Bool-cases (wid == j)) [
  | inl here ↦ rw here (h, hs)
  | inr there ↦ rw there (h, emplace-NoBytes wid table hs)
]

erase-NoBytes : (wid : ℕ) (table : Table) → NoBytes table → NoBytes (erase numbers wid table)
unfolding erase numbers
erase-NoBytes wid [] h = tt
erase-NoBytes wid ((j, stats) ∷ table) (h, hs) = elim (Bool-cases (wid == j)) [
  | inl here ↦ rw here hs
  | inr there ↦ rw there (h, erase-NoBytes wid table hs)
]

assign-NoBytes :
    (wid : ℕ) (stats : IoStats) (table : Table)
    → WithoutBytes stats
    → NoBytes table
    → NoBytes (assign numbers wid stats table)
unfolding assign numbers
assign-NoBytes wid stats [] new h = (new, tt)
assign-NoBytes wid stats ((j, old) ∷ table) new (h, hs) = elim (Bool-cases (wid == j)) [
  | inl here ↦ rw here (new, hs)
  | inr there ↦ rw there (h, assign-NoBytes wid stats table new hs)
]

pub lookup-WithoutBytes :
    (wid : ℕ) (stats : IoStats) (table : Table)
    → NoBytes table
    → lookup numbers wid table ≡ some stats
    → WithoutBytes stats
unfolding lookup numbers
lookup-WithoutBytes wid stats [] h e = absurd (ground arith)
lookup-WithoutBytes wid stats ((j, first) ∷ table) (h, hs) e = elim (Bool-cases (wid == j)) [
  | inl here ↦ subst WithoutBytes {x = first} {y = stats} (ground arith) h
  | inr there ↦ lookup-WithoutBytes wid stats table hs (rw there at e)
]

write-NoBytes :
    (wid : ℕ) (stats : IoStats) (sh : Shared) (old : Option IoStats)
    → lookup numbers wid sh.table ≡ old
    → NoBytes sh.table
    → NoBytes (write wid stats old sh).1.table
unfolding write
write-NoBytes wid stats sh none e h = h
write-NoBytes wid stats sh (some old) e h =
    assign-NoBytes wid (assigned old stats) sh.table (lookup-WithoutBytes wid old sh.table h e) h

edited-NoBytes : (e : Edit) (table : Table) → NoBytes table → NoBytes (edited e table)
unfolding edited
edited-NoBytes (add_slot wid) table h = emplace-NoBytes wid table h
edited-NoBytes (del_slot wid) table h = erase-NoBytes wid table h

abbrev Clean {ℓ} : {A : Type ℓ} → Option (A × Shared) → Type 0
Clean none = Unit
Clean (some (a, sh)) = NoBytes sh.table

if-Clean :
    (b : Bool) (x y : Option (Thread × Shared)) → Clean x → Clean y → Clean (if b then x else y)
if-Clean true x y hx hy = hx
if-Clean false x y hx hy = hy

advance-Clean : (t : Thread) (sh : Shared) → NoBytes sh.table → Clean (advance t sh)
unfolding advance
advance-Clean (calling (try_update wid stats)) sh h = h
advance-Clean (calling (edit e)) sh h = if-Clean sh.can_update _ _ h tt
advance-Clean (calling get_stats) sh h = if-Clean sh.can_update _ _ h tt
advance-Clean (counted wid stats) sh h = if-Clean sh.can_update _ _ h h
advance-Clean (writing wid stats) sh h =
    write-NoBytes wid stats sh (lookup numbers wid sh.table) refl h
advance-Clean (leaving done) sh h = h
advance-Clean (returned done) sh h = tt
advance-Clean (waiting e) sh h = if-Clean (sh.updaters == 0) _ _ h tt
advance-Clean (editing e) sh h = edited-NoBytes e sh.table h
advance-Clean reading sh h = h
advance-Clean (opening result) sh h = h
advance-Clean (finished result) sh h = tt

moved-Clean :
    (t : Thread) (ts : List Thread) (o : Option (Thread × Shared)) → Clean o → Clean (moved t ts o)
unfolding moved
moved-Clean t ts none h = tt
moved-Clean t ts (some (u, sh)) h = h

behind-Clean : (t : Thread) (o : Option (List Thread × Shared)) → Clean o → Clean (behind t o)
unfolding behind
behind-Clean t none h = tt
behind-Clean t (some (ts, sh)) h = h

step-Clean : (i : ℕ) (ts : List Thread) (sh : Shared) → NoBytes sh.table → Clean (step i ts sh)
unfolding step
step-Clean i [] sh h = tt
step-Clean zero (t ∷ ts) sh h = moved-Clean t ts (advance t sh) (advance-Clean t sh h)
step-Clean (suc i) (t ∷ ts) sh h = behind-Clean t (step i ts sh) (step-Clean i ts sh h)

or_spin-NoBytes :
    (o : Option (List Thread × Shared)) (ts : List Thread) (sh : Shared)
    → Clean o
    → NoBytes sh.table
    → NoBytes (or_spin o (ts, sh)).1.table
or_spin-NoBytes none ts sh clean h = h
or_spin-NoBytes (some (us, th)) ts sh clean h = clean

run-NoBytes :
    (choices : List ℕ) (ts : List Thread) (sh : Shared)
    → NoBytes sh.table
    → NoBytes (run choices (ts, sh)).1.table
unfolding run
run-NoBytes [] ts sh h = h
run-NoBytes (i ∷ choices) ts sh h =
    let next = or_spin (step i ts sh) (ts, sh) in
    run-NoBytes choices next.0 next.1
      (or_spin-NoBytes (step i ts sh) ts sh (step-Clean i ts sh h) h)

-- Whatever the workers report, and in whatever order: a slot that is found in the table, which is
-- empty in the beginning, has no bytes in and no bytes out.
pub run-WithoutBytes :
    (cs : List Call) (choices : List ℕ) (wid : ℕ) (stats : IoStats)
    → lookup numbers wid (run choices (callers cs, start [])).1.table ≡ some stats
    → WithoutBytes stats
run-WithoutBytes cs choices wid stats at =
    lookup-WithoutBytes wid stats (run choices (callers cs, start [])).1.table
      (run-NoBytes choices (callers cs) (start []) tt) at

-- ===== src/Tests/Statistics.antt =====
-- Two workers, and a reader of the statistics.
use lapp_s.Common.{ℕ, List, [], ◌∷◌, ◌++◌, ◌≡◌, refl, arith, lookup, numbers, emplace, assign}
use lapp_s.Stats.{
  IoStats, Call, edit, try_update, get_stats, add_slot, no_stats, start, run, step, moved, behind,
  advance, write, edited,
}
use lapp_s.Stats.Threads.{total}
use lapp_s.Stats.Exclusion.{callers, edits, writes, copies, run-excludes}
use lapp_s.Stats.Endings.{AllBack, run-finishes}
use lapp_s.Stats.Bytes.{WithoutBytes, run-WithoutBytes}

abbrev report : IoStats
report = record no_stats { connections = 3; bytes_in = 70; bytes_out = 80 }

abbrev calls : List Call
calls = edit (add_slot 1) ∷ try_update 1 report ∷ get_stats ∷ edit (add_slot 2) ∷ []

-- The first call up to its change of the table; the second and the third try, and spin.
run-excludes_example :
    (total writes (run (0 ∷ 2 ∷ 0 ∷ 2 ∷ 1 ∷ 1 ∷ []) (callers calls, start [])).0 ≡ 0)
    × (total copies (run (0 ∷ 2 ∷ 0 ∷ 2 ∷ 1 ∷ 1 ∷ []) (callers calls, start [])).0 ≡ 0)
    × (total edits (run (0 ∷ 2 ∷ 0 ∷ 2 ∷ 1 ∷ 1 ∷ []) (callers calls, start [])).0 ≡ 1)
unfolding run step moved behind advance
run-excludes_example =
    run-excludes calls [] (0 ∷ 2 ∷ 0 ∷ 2 ∷ 1 ∷ 1 ∷ []) (omega arith) (omega arith)

run-finishes_example :
    (more : List ℕ) × AllBack (run ((0 ∷ 0 ∷ 1 ∷ 1 ∷ []) ++ more) (callers calls, start []))
run-finishes_example = run-finishes calls [] (0 ∷ 0 ∷ 1 ∷ 1 ∷ []) (omega arith)

-- The first worker adds its slot, and then the second call reports bytes.
run-WithoutBytes_example : WithoutBytes (record report { bytes_in = 0; bytes_out = 0 })
unfolding run lookup step moved advance behind write edited emplace numbers assign
run-WithoutBytes_example =
    run-WithoutBytes calls (0 ∷ 0 ∷ 0 ∷ 0 ∷ 1 ∷ 1 ∷ 1 ∷ 1 ∷ []) 1
      (record report { bytes_in = 0; bytes_out = 0 }) refl

-- `getStats` takes the flag and does not wait for the updaters: it copies while another writes.
copies_while_written :
    (total writes (run (1 ∷ 1 ∷ 2 ∷ []) (callers calls, start ((1, no_stats) ∷ []))).0 ≡ 1)
    × (total copies (run (1 ∷ 1 ∷ 2 ∷ []) (callers calls, start ((1, no_stats) ∷ []))).0 ≡ 1)
unfolding run step moved behind advance
copies_while_written = (refl, refl)

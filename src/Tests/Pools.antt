-- ===== src/Tests/Pools.antt =====
-- A pool of two workers, and the statistics of three.
use lapp_s.Common.{ℕ, ◌+◌, ◌*◌, ◌/◌, List, [], ◌∷◌, ◌++◌, ◌≡◌, refl, false, some, arith}
use lapp_s.Registry
use lapp_s.Worker.Execute.{enqueue}
use lapp_s.Stats.{Table, no_stats}
use lapp_s.Pool.{Pooled, Pool, new_worker, nth, get, on_updates, select_worker}
use lapp_s.Pool.Shares.{on_updates-share}
use lapp_s.Pool.Select.{IsFirstLeast, select_worker-IsFirstLeast}

abbrev queued : List ℕ → ℕ → Pooled
queued fds id =
    let w = new_worker (λ q fd. q) (λ q fd. q ++ (fd ∷ [])) 3 Registry.empty 10 false id in
    record w { worker = enqueue w.worker fds }

-- The first worker has socket 4 in its queue, and the turn is the second one's.
abbrev two_workers : Pool
two_workers = record { workers = queued (4 ∷ []) 0 ∷ queued [] 1 ∷ []; cursor = 1 }

on_updates-share_example :
    get (on_updates (5 ∷ 6 ∷ 7 ∷ []) two_workers) 1 ≡ some (queued (5 ∷ 7 ∷ []) 1)
unfolding new_worker get nth enqueue
on_updates-share_example =
    on_updates-share (5 ∷ 6 ∷ 7 ∷ []) two_workers 1 (queued [] 1) (omega arith) (omega arith) refl

abbrev weighted : ℕ → ℕ → ℕ
weighted n q = n * 7 / 10 + q

abbrev others : Table
others = (4, record no_stats { connections = 2 }) ∷ (5, record no_stats { event_q_size = 1 }) ∷ []

select_worker-IsFirstLeast_example :
    (wid : ℕ) × (select_worker weighted ((3, record no_stats { connections = 9 }) ∷ others)
      ≡ some wid)
    × IsFirstLeast weighted ((3, record no_stats { connections = 9 }) ∷ others) wid
select_worker-IsFirstLeast_example =
    select_worker-IsFirstLeast weighted 3 (record no_stats { connections = 9 }) others

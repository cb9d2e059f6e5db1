-- ===== src/Pool/Shares.antt =====
-- How the balancer shares the accepted sockets out among the workers of include/WSWorkersPool.h.
use native.Mathlib.Nat.{add-mod_left, mod-add-mod, mod_self, mod-eq_of_lt}
use lapp_s.Common.{
  ℕ, zero, suc, ◌+◌, ◌%◌, ◌≤◌, ◌<◌, Bool, true, false, some, List, [], ◌∷◌, ◌≡◌, refl, ap, ◌∙◌, sym,
  arith, ltb, ◌==◌, Bool-cases, inl, inr, length, ltb→lt, if◌then◌else◌,
}
use lapp_s.Worker.{Worker}
use lapp_s.Worker.Execute.{enqueue}
use lapp_s.Pool.{Pooled, Pool, next, nth, get, enqueue_at, to_turn, on_update, on_updates}

-- The sockets of worker `i` of `n`, where the sockets go to the workers in a circle, the first of
-- them to worker `t`.
abbrev pub share : ℕ → ℕ → ℕ → List ℕ → List ℕ
share n t i [] = []
share n t i (fd ∷ fds) = let rest = share n (t + 1) i fds in if t % n == i then fd ∷ rest else rest

share-mod : (n t u i : ℕ) (fds : List ℕ) → t % n ≡ u % n → share n t i fds ≡ share n u i fds
share-mod n t u i [] same = refl
share-mod n t u i (fd ∷ fds) same =
    let again : (t + 1) % n ≡ (u + 1) % n =
      sym (mod-add-mod t n 1) ∙ (ap (λ r. (r + 1) % n) same ∙ mod-add-mod u n 1) in
    let rest = share-mod n (t + 1) (u + 1) i fds again in
    rw same (ap (λ l. if u % n == i then fd ∷ l else l) rest)

-- `enqueue` is called on a worker for each of these sockets.
abbrev pub handed : List ℕ → Worker → Worker
handed [] w = w
handed (fd ∷ fds) w = handed fds (enqueue w (fd ∷ []))

abbrev pub given : List ℕ → Pooled → Pooled
given fds w = record w { worker = handed fds w.worker }

abbrev own : Bool → ℕ → List ℕ
own b fd = if b then fd ∷ [] else []

nth-enqueue_at :
    (c i fd : ℕ) (ws : List Pooled) (w : Pooled)
    → nth ws i ≡ some w
    → nth (enqueue_at c fd ws) i ≡ some (given (own (c == i) fd) w)
unfolding nth enqueue_at
nth-enqueue_at c i fd [] w at = absurd (ground arith)
nth-enqueue_at zero zero fd (v ∷ ws) w at =
    let e : v ≡ w = ground arith in ap (λ u. some (given (fd ∷ []) u)) e
nth-enqueue_at zero (suc i) fd (v ∷ ws) w at =
    let other : (0 == suc i) ≡ false = ground arith in rw other (at)
nth-enqueue_at (suc c) zero fd (v ∷ ws) w at =
    let other : (suc c == 0) ≡ false = ground arith in rw other (at)
nth-enqueue_at (suc c) (suc i) fd (v ∷ ws) w at =
    let both : (suc c == suc i) ≡ (c == i) = ground arith in rw both (nth-enqueue_at c i fd ws w at)

length-enqueue_at : (c fd : ℕ) (ws : List Pooled) → length (enqueue_at c fd ws) ≡ length ws
unfolding enqueue_at
length-enqueue_at c fd [] = refl
length-enqueue_at zero fd (w ∷ ws) = refl
length-enqueue_at (suc c) fd (w ∷ ws) = ground (arith, length-enqueue_at c fd ws)

-- One socket goes to the worker of the cursor, and no other worker changes.
on_update-given :
    (fd : ℕ) (p : Pool) (i : ℕ) (w : Pooled)
    → 0 < length p.workers
    → p.cursor ≤ length p.workers
    → nth p.workers i ≡ some w
    → (nth (on_update fd p).workers i ≡ some (given (own (p.cursor % length p.workers == i) fd) w))
      × ((on_update fd p).cursor ≤ length p.workers)
      × ((on_update fd p).cursor % length p.workers ≡ (p.cursor + 1) % length p.workers)
      × (length (on_update fd p).workers ≡ length p.workers)
unfolding on_update to_turn next
on_update-given fd p i w filled inside at = elim (Bool-cases (length p.workers == 0)) [
  | inl none_left ↦ absurd (ground arith)
  | inr filled_now ↦ elim (Bool-cases (ltb p.cursor (length p.workers))) [
    | inl before ↦
        let same : p.cursor % length p.workers ≡ p.cursor = mod-eq_of_lt (ltb→lt _ _ before) in
        rw filled_now (
          rw before (
            rw same (
              nth-enqueue_at p.cursor i fd p.workers w at,
              omega (arith, ltb→lt _ _ before),
              refl,
              length-enqueue_at p.cursor fd p.workers,
            )))
    | inr round ↦
        let end : p.cursor ≡ length p.workers = ground arith in
        let same : p.cursor % length p.workers ≡ 0 =
          ap (λ c. c % length p.workers) end ∙ mod_self (length p.workers) in
        rw filled_now (
          rw round (
            rw same (
              nth-enqueue_at 0 i fd p.workers w at,
              omega arith,
              sym (ap (λ c. (c + 1) % length p.workers) end ∙ add-mod_left (length p.workers) 1),
              length-enqueue_at 0 fd p.workers,
            )))
  ]
]

nth-on_updates :
    (fds : List ℕ) (p : Pool) (i : ℕ) (w : Pooled)
    → 0 < length p.workers
    → p.cursor ≤ length p.workers
    → nth p.workers i ≡ some w
    → (nth (on_updates fds p).workers i ≡ some (given (share (length p.workers) p.cursor i fds) w))
      × (length (on_updates fds p).workers ≡ length p.workers)
unfolding on_updates
nth-on_updates [] p i w filled inside at = (at, refl)
nth-on_updates (fd ∷ fds) p i w filled inside at =
    let n = length p.workers in
    let q = on_update fd p in
    let mine = own (p.cursor % n == i) fd in
    let (got, cursor, moved, many) = on_update-given fd p i w filled inside at in
    let (rest, all) =
      nth-on_updates fds q i (given mine w) (omega (arith, many)) (omega (arith, cursor, many))
        got in
    let next_share : share (length q.workers) q.cursor i fds ≡ share n (p.cursor + 1) i fds =
      ap (λ m. share m q.cursor i fds) many ∙ share-mod n q.cursor (p.cursor + 1) i fds moved in
    (
      rest
          ∙ ap (λ (u : Pooled). some u)
              (ap (λ l. given l (given mine w)) next_share
                ∙ joined (p.cursor % n == i) (share n (p.cursor + 1) i fds)),
      all ∙ many,
    )
  where
    joined :
        (b : Bool) (rest : List ℕ)
        → given rest (given (own b fd) w) ≡ given (if b then fd ∷ rest else rest) w
    joined true rest = refl
    joined false rest = refl

-- In a pool that has workers and its cursor among or just behind them, after the calls of onUpdate
-- for some accepted sockets: each worker is as it was, but that enqueue has been called on it, in
-- their order, for just those of the sockets whose turn was its own. The turns go round all the
-- workers in a circle, from the cursor on. What the workers do meanwhile is not looked at.
pub on_updates-share :
    (fds : List ℕ) (p : Pool) (i : ℕ) (w : Pooled)
    → 0 < length p.workers
    → p.cursor ≤ length p.workers
    → get p i ≡ some w
    → get (on_updates fds p) i ≡ some (given (share (length p.workers) p.cursor i fds) w)
unfolding get
on_updates-share fds p i w filled inside at = elim (Bool-cases (ltb i (length p.workers))) [
  | inl there ↦
      let at_nth : nth p.workers i ≡ some w = ground (arith, at) in
      let (got, many) = nth-on_updates fds p i w filled inside at_nth in rw many (rw there got)
  | inr behind ↦ absurd (ground arith)
]

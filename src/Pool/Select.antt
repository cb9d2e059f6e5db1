-- ===== src/Pool/Select.antt =====
-- `selectWorker` of include/Balancer.h.
use lapp_s.Common.{
  ℕ, ◌≤◌, ◌<◌, some, [], ◌∷◌, ◌++◌, ◌≡◌, refl, ap, sym, ◌∙◌, arith, ltb, Bool-cases, inl, inr,
  append_assoc, append-nil,
}
use lapp_s.Stats.{IoStats, Table, assigned}
use lapp_s.Pool.{load, choose, select_worker}

module _ (weighted : ℕ → ℕ → ℕ) where
  abbrev pub AllBelow : ℕ → Table → Type 0
  AllBelow n [] = Unit
  AllBelow n ((key, value) ∷ stats) = (n < load weighted value) × AllBelow n stats

  abbrev pub AllFrom : ℕ → Table → Type 0
  AllFrom n [] = Unit
  AllFrom n ((key, value) ∷ stats) = (n ≤ load weighted value) × AllFrom n stats

  -- The entry of a worker: no entry has a smaller load, and those before it have a greater one.
  pub record IsFirstLeast (stats : Table) (wid : ℕ) : Type 0 where
    pub before : Table
    pub behind : Table
    pub detail : IoStats
    pub split : stats ≡ before ++ ((wid, detail) ∷ behind)
    pub greater : AllBelow (load weighted detail) before
    pub least : AllFrom (load weighted detail) behind

  AllBelow-append : (n : ℕ) (xs ys : Table) → AllBelow n xs → AllBelow n ys → AllBelow n (xs ++ ys)
  AllBelow-append n [] ys hx hy = hy
  AllBelow-append n ((key, value) ∷ xs) ys (h, hx) hy = (h, AllBelow-append n xs ys hx hy)

  AllBelow-less : (m n : ℕ) (xs : Table) → m ≤ n → AllBelow n xs → AllBelow m xs
  AllBelow-less m n [] le h = tt
  AllBelow-less m n ((key, value) ∷ xs) le (h, hs) = (omega arith, AllBelow-less m n xs le hs)

  AllFrom-Below : (m n : ℕ) (xs : Table) → m < n → AllFrom n xs → AllBelow m xs
  AllFrom-Below m n [] less h = tt
  AllFrom-Below m n ((key, value) ∷ xs) less (h, hs) = (omega arith, AllFrom-Below m n xs less hs)

  AllFrom-append : (n : ℕ) (xs ys : Table) → AllFrom n xs → AllFrom n ys → AllFrom n (xs ++ ys)
  AllFrom-append n [] ys hx hy = hy
  AllFrom-append n ((key, value) ∷ xs) ys (h, hx) hy = (h, AllFrom-append n xs ys hx hy)

  -- The load does not read what the assignment leaves out.
  load-assigned : (old value : IoStats) → load weighted (assigned old value) ≡ load weighted value
  unfolding load
  load-assigned old value = refl

  -- The loop, behind the entries `before`, the chosen one and `behind`. `copy` is what the loop
  -- keeps of the chosen entry.
  choose-IsFirstLeast :
      (whole stats before behind : Table) (wid : ℕ) (detail copy : IoStats)
      → whole ≡ before ++ ((wid, detail) ∷ (behind ++ stats))
      → load weighted copy ≡ load weighted detail
      → AllBelow (load weighted detail) before
      → AllFrom (load weighted detail) behind
      → IsFirstLeast whole (choose weighted wid copy stats)
  unfolding choose
  choose-IsFirstLeast whole [] before behind wid detail copy e same greater least = record {
    before = before;
    behind = behind;
    detail = detail;
    split = e ∙ ap (λ (l : Table). before ++ ((wid, detail) ∷ l)) (append-nil behind);
    greater = greater;
    least = least;
  }
  choose-IsFirstLeast whole ((key, value) ∷ stats) before behind wid detail copy e same greater
        least =
      elim (Bool-cases (ltb (load weighted value) (load weighted copy))) [
        | inl less ↦ rw less (
            choose-IsFirstLeast whole stats (before ++ ((wid, detail) ∷ behind)) [] key value
              (assigned copy value)
              (e ∙ sym (append_assoc before ((wid, detail) ∷ behind) ((key, value) ∷ stats)))
              (load-assigned copy value)
              (AllBelow-append (load weighted value) before ((wid, detail) ∷ behind)
                (AllBelow-less (load weighted value) (load weighted detail) before (ground arith)
                  greater)
                (
                  ground arith,
                  AllFrom-Below (load weighted value) (load weighted detail) behind (ground arith)
                      least,
                ))
              tt)
        | inr not_less ↦ rw not_less (
            choose-IsFirstLeast whole stats before (behind ++ ((key, value) ∷ [])) wid detail copy
              (e
                ∙ ap (λ (l : Table). before ++ ((wid, detail) ∷ l))
                    (sym (append_assoc behind ((key, value) ∷ []) stats)))
              same greater
              (AllFrom-append (load weighted detail) behind ((key, value) ∷ []) least
                (ground arith, tt)))
      ]

  -- Where there are statistics, `selectWorker` takes a worker with the least load, and of several
  -- such workers the one that stands first in the map.
  pub select_worker-IsFirstLeast :
      (key : ℕ) (value : IoStats) (stats : Table)
      → (wid : ℕ) × (select_worker weighted ((key, value) ∷ stats) ≡ some wid)
        × IsFirstLeast ((key, value) ∷ stats) wid
  unfolding select_worker choose
  select_worker-IsFirstLeast key value stats = (
    choose weighted key value ((key, value) ∷ stats),
    refl,
    elim (Bool-cases (ltb (load weighted value) (load weighted value))) [
      | inl less ↦ absurd (ground arith)
      | inr not_less ↦
          rw not_less
            (choose-IsFirstLeast ((key, value) ∷ stats) stats [] [] key value value refl refl tt tt)
    ],
  )

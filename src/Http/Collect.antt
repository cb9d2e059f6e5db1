-- ===== src/Http/Collect.antt =====
-- The scanning loops of include/HTTPRequestParser.h.
use lapp_s.Common.{
  ℕ, zero, suc, ◌+◌, ◌≤◌, ◌<◌, Bool, true, false, ◌&&◌, List, [], ◌∷◌, ◌++◌, ◌≡◌, arith, ap,
  byte_at, length, drop, drop-byte_at, drop-suc, Bool-cases, inl, inr,
}
use lapp_s.Http.{collect}

abbrev pub All : (ℕ → Bool) → List ℕ → Type 0
All test [] = Unit
All test (c ∷ cs) = (test c ≡ true) × All test cs

-- The same as a test.
abbrev pub all : (ℕ → Bool) → List ℕ → Bool
all test [] = true
all test (c ∷ cs) = test c && all test cs

pub all-All : (test : ℕ → Bool) (cs : List ℕ) → all test cs ≡ true → All test cs
all-All test [] h = tt
all-All test (c ∷ cs) h = elim (Bool-cases (test c)) [
  | inl kept ↦ (kept, all-All test cs (rw kept at h))
  | inr lost ↦ absurd (ground (arith, h))
]

module _ (test : ℕ → Bool) (buff : List ℕ) where
  -- A run that another byte ends.
  pub collect-run :
      (run : List ℕ) (c : ℕ) (rest : List ℕ) (left i : ℕ)
      → All test run
      → test c ≡ false
      → length run < left
      → drop i buff ≡ run ++ (c ∷ rest)
      → collect test buff left i ≡ (run, i + length run)
  unfolding collect
  collect-run [] c rest zero i all ends inside here = absurd (omega arith)
  collect-run [] c rest (suc left) i all ends inside here =
      let at_end : i ≡ i + 0 = omega arith in
      rw (drop-byte_at buff i c rest here, ends) (ap (λ e. ([], e)) at_end)
  collect-run (r ∷ run) c rest zero i all ends inside here = absurd (omega arith)
  collect-run (r ∷ run) c rest (suc left) i (ok, all) ends inside here =
      let next = drop-suc buff i r (run ++ (c ∷ rest)) here in
      let at_end : i + 1 + length run ≡ i + suc (length run) = omega arith in
      rw
        (
          drop-byte_at buff i r (run ++ (c ∷ rest)) here,
          ok,
          collect-run run c rest left (i + 1) all ends (omega arith) next,
        )
        (ap (λ e. (r ∷ run, e)) at_end)

  -- A run that the length ends.
  pub collect-All :
      (run rest : List ℕ) (i : ℕ)
      → All test run
      → drop i buff ≡ run ++ rest
      → collect test buff (length run) i ≡ (run, i + length run)
  unfolding collect
  collect-All [] rest i all here = let at_end : i ≡ i + 0 = omega arith in ap (λ e. ([], e)) at_end
  collect-All (r ∷ run) rest i (ok, all) here =
      let next = drop-suc buff i r (run ++ rest) here in
      let at_end : i + 1 + length run ≡ i + suc (length run) = omega arith in
      rw (drop-byte_at buff i r (run ++ rest) here, ok, collect-All run rest (i + 1) all next)
        (ap (λ e. (r ∷ run, e)) at_end)

  -- The end lies between the start and the length.
  pub collect-bounds :
      (left i : ℕ) → (i ≤ (collect test buff left i).1) × ((collect test buff left i).1 ≤ i + left)
  unfolding collect
  collect-bounds zero i = (omega arith, omega arith)
  collect-bounds (suc left) i = elim (Bool-cases (test (byte_at buff i))) [
    | inl on ↦
        rw on
          (omega (arith, collect-bounds left (i + 1)), omega (arith, collect-bounds left (i + 1)))
    | inr stop ↦ rw stop (omega arith, omega arith)
  ]

  pub collect-first :
      (left i : ℕ) → test (byte_at buff i) ≡ true → 0 < left → i < (collect test buff left i).1
  unfolding collect
  collect-first zero i on some_left = absurd (omega arith)
  collect-first (suc left) i on some_left = rw on (omega (arith, collect-bounds left (i + 1)))

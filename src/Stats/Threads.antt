-- ===== src/Stats/Threads.antt =====
-- A step changes one thread of the list: sums over the threads.
use lapp_s.Common.{ℕ, zero, suc, ◌+◌, ◌≤◌, Option, some, none, List, [], ◌∷◌, ◌≡◌, refl, arith}
use lapp_s.Stats.{Thread, Shared, advance, moved, behind, step}

abbrev pub total : (Thread → ℕ) → List Thread → ℕ
total w [] = 0
total w (t ∷ ts) = w t + total w ts

pub total-le :
    (w v : Thread → ℕ) → ((t : Thread) → w t ≤ v t) → (ts : List Thread) → total w ts ≤ total v ts
total-le w v le [] = omega arith
total-le w v le (t ∷ ts) = omega (arith, le t, total-le w v le ts)

pub total-sum :
    (w v : Thread → ℕ) (ts : List Thread) → total (λ t. w t + v t) ts ≡ total w ts + total v ts
total-sum w v [] = refl
total-sum w v (t ∷ ts) = omega (arith, total-sum w v ts)

-- The thread that moves, what it becomes, and the others.
pub record Moved (ts us : List Thread) (sh th : Shared) : Type 0 where
  pub before : Thread
  pub after : Thread
  pub others : List Thread
  pub stepped : advance before sh ≡ some (after, th)
  pub was : (w : Thread → ℕ) → total w ts ≡ w before + total w others
  pub is : (w : Thread → ℕ) → total w us ≡ w after + total w others

moved-Moved :
    (t : Thread) (ts us : List Thread) (sh th : Shared) (o : Option (Thread × Shared))
    → advance t sh ≡ o
    → moved t ts o ≡ some (us, th)
    → Moved (t ∷ ts) us sh th
unfolding moved
moved-Moved t ts us sh th none e h = absurd (ground arith)
moved-Moved t ts us sh th (some (u, sh2)) e h = record {
  before = t;
  after = u;
  others = ts;
  stepped = ground arith;
  was = λ w. refl;
  is = λ w. ground arith;
}

behind-Moved :
    (t : Thread) (ts us : List Thread) (sh th : Shared) (o : Option (List Thread × Shared))
    → ((vs : List Thread) → o ≡ some (vs, th) → Moved ts vs sh th)
    → behind t o ≡ some (us, th)
    → Moved (t ∷ ts) us sh th
unfolding behind
behind-Moved t ts us sh th none inner h = absurd (ground arith)
behind-Moved t ts us sh th (some (vs, sh2)) inner h =
    let m = inner vs (ground arith) in
    record {
      before = m.before;
      after = m.after;
      others = t ∷ m.others;
      stepped = m.stepped;
      was = λ w. omega (arith, m.was w);
      is = λ w. ground (arith, m.is w);
    }

pub step-Moved :
    (i : ℕ) (ts us : List Thread) (sh th : Shared)
    → step i ts sh ≡ some (us, th)
    → Moved ts us sh th
unfolding step
step-Moved i [] us sh th h = absurd (ground arith)
step-Moved zero (t ∷ ts) us sh th h = moved-Moved t ts us sh th (advance t sh) refl h
step-Moved (suc i) (t ∷ ts) us sh th h =
    behind-Moved t ts us sh th (step i ts sh) (λ vs e. step-Moved i ts vs sh th e) h

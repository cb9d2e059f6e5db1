-- ===== src/Registry/Turns.antt =====
-- The turns that `ServicesInstanceHolder` of include/ServiceRegistry.h gives to its instances.
use mathlib.Core.Option.{bind}
use lapp_s.Common.{
  ℕ, zero, suc, ◌+◌, ◌-◌, ◌≤◌, ◌<◌, some, List, [], ◌∷◌, ◌≡◌, refl, ap, ◌∙◌, sym, arith, ltb,
  if◌then◌else◌, length, length-append, Bool-cases, inl, inr, lt→ltb, Option,
}
use lapp_s.Registry.{Service, InstancesHolder, push_back, has_next, nth, next, pop_back}

-- `pop_back` may leave `current` one behind the last instance.
abbrev pub InRange : InstancesHolder → Type 0
InRange h = h.current ≤ length h.instances

nth-some : (xs : List Service) (i : ℕ) → i < length xs → (s : Service) × (nth xs i ≡ some s)
nth-some [] i h = absurd (omega arith)
nth-some (x ∷ xs) zero h = (x, refl)
nth-some (x ∷ xs) (suc i) h = nth-some xs i (omega arith)

abbrev pub turn : InstancesHolder → ℕ
turn h = if ltb (h.current + 1) (length h.instances) then h.current + 1 else 0

turn-lt : (h : InstancesHolder) → 0 < length h.instances → turn h < length h.instances
turn-lt h some_left = ground arith

-- With an instance, `next` hands one out and stays in range.
pub next-InRange :
    (h : InstancesHolder)
    → 0 < length h.instances
    → (s : Service) × (nth h.instances (turn h) ≡ some s)
      × (next h ≡ some (s, record h { current = turn h }))
      × InRange (record h { current = turn h })
unfolding next has_next
next-InRange h some_left =
    let (s, e) = nth-some h.instances (turn h) (turn-lt h some_left) in
    (s, e, rw (lt→ltb 0 (length h.instances) some_left, e) refl, omega (arith, turn-lt h some_left))

pub push_back-InRange : (h : InstancesHolder) (s : Service) → InRange h → InRange (push_back h s)
unfolding push_back
push_back-InRange h s ok = omega (arith, length-append h.instances (s ∷ []))

pub pop_back-InRange : (h : InstancesHolder) → InRange h → InRange (pop_back h).0
unfolding pop_back has_next
pop_back-InRange h ok = ground arith

-- The holder after `k` calls of `next`.
abbrev pub after : ℕ → InstancesHolder → InstancesHolder
after zero h = h
after (suc k) h = after k (record h { current = turn h })

climb :
    (k : ℕ) (h : InstancesHolder)
    → h.current + k < length h.instances
    → after k h ≡ record h { current = h.current + k }
climb zero h inside =
    let e : h.current ≡ h.current + 0 = omega arith in λ i. record h { current = e i }
climb (suc k) h inside =
    let moved : turn h ≡ h.current + 1 = ground arith in
    let total : h.current + 1 + k ≡ h.current + suc k = omega arith in
    rw moved (
      climb k (record h { current = h.current + 1 }) (omega arith) ∙ λ i. record h {
        current = total i;
      })

after-sum : (j k : ℕ) (h : InstancesHolder) → after (j + k) h ≡ after k (after j h)
after-sum zero k h = let e : 0 + k ≡ k = omega arith in ap (λ n. after n h) e
after-sum (suc j) k h =
    let e : suc j + k ≡ suc (j + k) = omega arith in
    rw e (after-sum j k (record h { current = turn h }))

-- To the last instance and round to the first one.
wraps :
    (h : InstancesHolder)
    → h.current < length h.instances
    → after (length h.instances - h.current) h ≡ record h { current = 0 }
wraps h inside =
    let k = length h.instances - h.current - 1 in
    let split : length h.instances - h.current ≡ k + 1 = omega arith in
    rw split (after-sum k 1 h ∙ (ap (after 1) (climb k h (omega arith)) ∙ back k (omega arith)))
  where
    back :
        (k : ℕ)
        → h.current + k + 1 ≡ length h.instances
        → after 1 (record h { current = h.current + k }) ≡ record h { current = 0 }
    back k last =
        let e : (if ltb (h.current + k + 1) (length h.instances) then h.current + k + 1 else 0)
            ≡ 0 =
          ground arith in
        λ i. record h { current = e i }

-- What the call after that hands out.
hands_out :
    (h : InstancesHolder) (k j i : ℕ)
    → after k h ≡ record h { current = j }
    → turn (record h { current = j }) ≡ i
    → 0 < length h.instances
    → (s : Service) × (nth h.instances i ≡ some s)
      × (next (after k h) ≡ some (s, record h { current = i }))
hands_out h k j i there moved some_left =
    let (s, e, out, ok) = next-InRange (record h { current = j }) some_left in
    (
      s,
      ap (nth h.instances) (sym moved) ∙ e,
      ap next there ∙ (out ∙ ap (λ c. some (s, record h { current = c })) moved),
    )

one_of_all :
    (h : InstancesHolder) (i : ℕ)
    → h.current < length h.instances
    → i < length h.instances
    → (k : ℕ) × (k < length h.instances)
      × (s : Service) × (nth h.instances i ≡ some s)
      × (next (after k h) ≡ some (s, record h { current = i }))
one_of_all h zero inside within =
    let k = length h.instances - 1 - h.current in
    let (s, e, out) =
      hands_out h k (h.current + k) zero (climb k h (omega arith)) (ground arith) (omega arith) in
    (k, omega arith, s, e, out)
one_of_all h (suc i) inside within = elim (Bool-cases (ltb h.current (suc i))) [
  | inl ahead ↦
      let below : h.current ≤ i = ground arith in
      let k = i - h.current in
      let total : h.current + k ≡ i = omega arith in
      let (s, e, out) =
        hands_out h k i (suc i) (climb k h (omega arith) ∙ (λ j. record h { current = total j }))
          (ground arith) (omega arith) in
      (k, omega arith, s, e, out)
  | inr behind ↦
      let passed : suc i ≤ h.current = ground arith in
      let k = length h.instances - h.current in
      let start : 0 + i ≡ i = omega arith in
      let (s, e, out) =
        hands_out h (k + i) i (suc i)
          (after-sum k i h
            ∙ (ap (after i) (wraps h inside)
                ∙ (climb i (record h { current = 0 }) (omega arith)
                    ∙ (λ j. record h { current = start j }))))
          (ground arith) (omega arith) in
      (k + i, omega arith, s, e, out)
]

-- Each call of `next` on what the one before it has left; the answer of the last one, after `k`.
abbrev pub calls : ℕ → InstancesHolder → Option (Service × InstancesHolder)
calls zero h = next h
calls (suc k) h = bind (next h) (λ a. calls k a.1)

calls-after : (k : ℕ) (h : InstancesHolder) → 0 < length h.instances → calls k h ≡ next (after k h)
unfolding bind
calls-after zero h some_left = refl
calls-after (suc k) h some_left =
    let (s, e, out, ok) = next-InRange h some_left in
    rw out (calls-after k (record h { current = turn h }) some_left)

-- Where the holder's position is that of an instance, every instance is handed out by one of the
-- next calls of next, no more of them than there are instances, each made on what the one before it
-- has left; that call leaves the position at the instance.
pub next_serves_all :
    (h : InstancesHolder) (i : ℕ)
    → h.current < length h.instances
    → i < length h.instances
    → (k : ℕ) × (k < length h.instances)
      × (s : Service) × (nth h.instances i ≡ some s)
      × (calls k h ≡ some (s, record h { current = i }))
next_serves_all h i inside within =
    let (k, few, s, e, out) = one_of_all h i inside within in
    (k, few, s, e, calls-after k h (omega arith) ∙ out)

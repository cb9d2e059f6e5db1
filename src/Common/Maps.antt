-- ===== src/Common/Maps.antt =====
-- `std::map` and `tsl::robin_map` as association lists, with a test for the keys.
use Prim.Native.Nat.{ℕ, suc, ◌≤◌}
use mathlib.Core.Path.{◌≡◌, refl, ap, ◌∙◌}
use mathlib.Core.Logic.{inl, inr}
use mathlib.Core.Bool.{Bool, true, false, ◌&&◌}
use mathlib.Core.Option.{Option, none, some}
use mathlib.Core.List.{List, [], ◌∷◌}
use native.Mathlib.Omega.{arith}
use lapp_s.Common.Tests.{Bool-cases, if◌then◌else◌, ◌==◌, ==_refl, ==_iff}
use lapp_s.Common.Lists.{length}

-- A type of keys.
pub record Keys (K : Type 0) : Type 0 where
  pub same : K → K → Bool
  pub sound : (a b : K) → same a b ≡ true → a ≡ b
  pub reflexive : (a : K) → same a a ≡ true

unfoldable pub numbers : Keys ℕ
numbers = record { same = ◌==◌; sound = λ a b h. (==_iff a b).0 h; reflexive = ==_refl }

abbrev pub same_bytes : List ℕ → List ℕ → Bool
same_bytes [] [] = true
same_bytes [] (b ∷ ys) = false
same_bytes (a ∷ xs) [] = false
same_bytes (a ∷ xs) (b ∷ ys) = a == b && same_bytes xs ys

pub same_bytes_sound : (xs ys : List ℕ) → same_bytes xs ys ≡ true → xs ≡ ys
same_bytes_sound [] [] h = refl
same_bytes_sound [] (b ∷ ys) h = absurd (ground arith)
same_bytes_sound (a ∷ xs) [] h = absurd (ground arith)
same_bytes_sound (a ∷ xs) (b ∷ ys) h = ground (arith, same_bytes_sound xs ys)

pub same_bytes_reflexive : (xs : List ℕ) → same_bytes xs xs ≡ true
same_bytes_reflexive [] = refl
same_bytes_reflexive (a ∷ xs) = ground (arith, same_bytes_reflexive xs)

-- Strings as lists of bytes.
unfoldable pub strings : Keys (List ℕ)
strings = record { same = same_bytes; sound = same_bytes_sound; reflexive = same_bytes_reflexive }

abbrev pub Dict : Type 0 → Type 0 → Type 0
Dict K V = List (K × V)

abbrev pub first_of {ℓ} : {A : Type ℓ} → Option A → Option A → Option A
first_of none o = o
first_of (some a) o = some a

module _ {K : Type 0} (keys : Keys K) where
  pub same-false_sym : (j k : K) → keys.same k j ≡ false → keys.same j k ≡ false
  same-false_sym j k h = elim (Bool-cases (keys.same j k)) [
    | inl e ↦ absurd (ground (arith, ap (keys.same k) (keys.sound j k e), keys.reflexive k))
    | inr e ↦ e
  ]

module _ {K V : Type 0} (keys : Keys K) where
  -- `find`
  unfoldable pub lookup : K → Dict K V → Option V
  lookup k [] = none
  lookup k ((j, v) ∷ d) = if keys.same k j then some v else lookup k d

  -- `emplace`: a key that is there keeps its value.
  unfoldable pub emplace : K → V → Dict K V → Dict K V
  emplace k v [] = (k, v) ∷ []
  emplace k v ((j, w) ∷ d) = if keys.same k j then (j, w) ∷ d else (j, w) ∷ emplace k v d

  -- `operator[]` on the left of an assignment
  unfoldable pub assign : K → V → Dict K V → Dict K V
  assign k v [] = (k, v) ∷ []
  assign k v ((j, w) ∷ d) = if keys.same k j then (j, v) ∷ d else (j, w) ∷ assign k v d

  -- `erase(find(k))`
  unfoldable pub erase : K → Dict K V → Dict K V
  erase k [] = []
  erase k ((j, w) ∷ d) = if keys.same k j then d else (j, w) ∷ erase k d

  lookup-same : (j k : K) (d : Dict K V) → keys.same j k ≡ true → lookup j d ≡ lookup k d
  lookup-same j k d h = ap (λ i. lookup i d) (keys.sound j k h)

  -- What a key finds after each of the operations.
  pub lookup-emplace :
      (j k : K) (v : V) (d : Dict K V)
      → lookup j (emplace k v d) ≡ first_of (lookup j d) (if keys.same j k then some v else none)
  unfolding lookup emplace
  lookup-emplace j k v [] = refl
  lookup-emplace j k v ((i, w) ∷ d) = elim (Bool-cases (keys.same k i)) [
    | inl here ↦ elim (Bool-cases (keys.same j i)) [
      | inl both ↦ rw (here, both) refl
      | inr other ↦
          let apart : keys.same j k ≡ false = rw (keys.sound k i here) other in
          rw here (rw other (rw apart (kept (lookup j d))))
    ]
    | inr there ↦ elim (Bool-cases (keys.same j i)) [
      | inl first ↦ rw there (rw first refl)
      | inr other ↦ rw there (rw other (lookup-emplace j k v d))
    ]
  ]
    where
      kept : (o : Option V) → o ≡ first_of o none
      kept none = refl
      kept (some w) = refl

  pub lookup-assign_self : (k : K) (v : V) (d : Dict K V) → lookup k (assign k v d) ≡ some v
  unfolding lookup assign
  lookup-assign_self k v [] = rw (keys.reflexive k) refl
  lookup-assign_self k v ((j, w) ∷ d) = elim (Bool-cases (keys.same k j)) [
    | inl here ↦ rw here (rw here refl)
    | inr there ↦ rw there (rw there (lookup-assign_self k v d))
  ]

  pub lookup-assign_other :
      (j k : K) (v : V) (d : Dict K V)
      → keys.same j k ≡ false
      → lookup j (assign k v d) ≡ lookup j d
  unfolding lookup assign
  lookup-assign_other j k v [] apart = rw apart refl
  lookup-assign_other j k v ((i, w) ∷ d) apart = elim (Bool-cases (keys.same k i)) [
    | inl here ↦
        let other : keys.same j i ≡ false = rw (← keys.sound k i here) apart in
        rw here (rw other refl)
    | inr there ↦
        rw there (ap (λ t. if keys.same j i then some w else t) (lookup-assign_other j k v d apart))
  ]

  pub lookup-erase_other :
      (j k : K) (d : Dict K V) → keys.same j k ≡ false → lookup j (erase k d) ≡ lookup j d
  unfolding lookup erase
  lookup-erase_other j k [] apart = refl
  lookup-erase_other j k ((i, w) ∷ d) apart = elim (Bool-cases (keys.same k i)) [
    | inl here ↦
        let other : keys.same j i ≡ false = rw (← keys.sound k i here) apart in
        rw here (rw other refl)
    | inr there ↦
        rw there (ap (λ t. if keys.same j i then some w else t) (lookup-erase_other j k d apart))
  ]

  -- No key stands twice.
  abbrev pub Unique : Dict K V → Type 0
  Unique [] = Unit
  Unique ((k, v) ∷ d) = (lookup k d ≡ none) × Unique d

  lookup-at :
      (j k : K) (d : Dict K V) → keys.same j k ≡ true → lookup k d ≡ none → lookup j d ≡ none
  lookup-at j k d e h = lookup-same j k d e ∙ h

  pub assign-Unique : (k : K) (v : V) (d : Dict K V) → Unique d → Unique (assign k v d)
  unfolding lookup assign
  assign-Unique k v [] u = (refl, tt)
  assign-Unique k v ((j, w) ∷ d) (absent, u) = elim (Bool-cases (keys.same k j)) [
    | inl here ↦ rw here (absent, u)
    | inr there ↦
        let apart : keys.same j k ≡ false = same-false_sym keys j k there in
        rw there (lookup-assign_other j k v d apart ∙ absent, assign-Unique k v d u)
  ]

  pub lookup-erase_self : (k : K) (d : Dict K V) → Unique d → lookup k (erase k d) ≡ none
  unfolding lookup erase
  lookup-erase_self k [] u = refl
  lookup-erase_self k ((j, w) ∷ d) (absent, u) = elim (Bool-cases (keys.same k j)) [
    | inl here ↦ rw here (lookup-at k j d here absent)
    | inr there ↦ rw there (rw there (lookup-erase_self k d u))
  ]

  pub erase-Unique : (k : K) (d : Dict K V) → Unique d → Unique (erase k d)
  unfolding lookup erase
  erase-Unique k [] u = tt
  erase-Unique k ((j, w) ∷ d) (absent, u) = elim (Bool-cases (keys.same k j)) [
    | inl here ↦ rw here u
    | inr there ↦
        rw there
          (lookup-erase_other j k d (same-false_sym keys j k there) ∙ absent, erase-Unique k d u)
  ]

  pub emplace-Unique : (k : K) (v : V) (d : Dict K V) → Unique d → Unique (emplace k v d)
  unfolding lookup emplace
  emplace-Unique k v [] u = (refl, tt)
  emplace-Unique k v ((j, w) ∷ d) (absent, u) = elim (Bool-cases (keys.same k j)) [
    | inl here ↦ rw here (absent, u)
    | inr there ↦
        let apart : keys.same j k ≡ false = same-false_sym keys j k there in
        rw there (lookup-emplace j k v d ∙ rw (absent, apart) refl, emplace-Unique k v d u)
  ]

  pub length-emplace : (k : K) (v : V) (d : Dict K V) → length (emplace k v d) ≤ suc (length d)
  unfolding emplace
  length-emplace k v [] = omega arith
  length-emplace k v ((j, w) ∷ d) = elim (Bool-cases (keys.same k j)) [
    | inl here ↦ rw here (omega arith)
    | inr there ↦ rw there (omega (arith, length-emplace k v d))
  ]

  pub length-erase : (k : K) (d : Dict K V) → length (erase k d) ≤ length d
  unfolding erase
  length-erase k [] = omega arith
  length-erase k ((j, w) ∷ d) = elim (Bool-cases (keys.same k j)) [
    | inl here ↦ rw here (omega arith)
    | inr there ↦ rw there (omega (arith, length-erase k d))
  ]

  -- A key that is there gets another value, and no entry is added.
  pub length-assign :
      (k : K) (v w : V) (d : Dict K V) → lookup k d ≡ some w → length (assign k v d) ≡ length d
  unfolding lookup assign
  length-assign k v w [] here = absurd (ground arith)
  length-assign k v w ((j, x) ∷ d) found = elim (Bool-cases (keys.same k j)) [
    | inl here ↦ rw here refl
    | inr there ↦ rw there (ap suc (length-assign k v w d (rw there at found)))
  ]

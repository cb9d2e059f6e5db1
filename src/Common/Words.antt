-- ===== src/Common/Words.antt =====
-- `|` and `^` on machine words: bounds, and what a result of zero says.
use Prim.Native.Nat.{ℕ, zero, suc, ◌/◌, ◌%◌, ◌^◌, ◌≤◌, ◌<◌, bit_or, bit_xor, max, bit_xor-bitwise}
use mathlib.Core.Path.{◌≡◌, sym, ap, ◌∙◌}
use native.Mathlib.Omega.{arith}
use native.Mathlib.Nat.{pow-suc}
use lapp_s.Common.Bits.{bit_or_step, bit_xor_cancel}

greater_digit : (x y : ℕ) → x < 2 → y < 2 → (max x y < 2) × (x ≤ max x y) × (y ≤ max x y)
greater_digit zero zero p q = (omega arith, omega arith, omega arith)
greater_digit zero (suc zero) p q = (omega arith, omega arith, omega arith)
greater_digit zero (suc (suc y)) p q = absurd (omega arith)
greater_digit (suc zero) zero p q = (omega arith, omega arith, omega arith)
greater_digit (suc zero) (suc zero) p q = (omega arith, omega arith, omega arith)
greater_digit (suc zero) (suc (suc y)) p q = absurd (omega arith)
greater_digit (suc (suc x)) y p q = absurd (omega arith)

-- The result is within the width, and not less than either word.
pub bit_or_bounds :
    (k a b : ℕ) → a < 2 ^ k → b < 2 ^ k → (bit_or a b < 2 ^ k) × (a ≤ bit_or a b) × (b ≤ bit_or a b)
bit_or_bounds zero zero zero p q = (omega arith, omega arith, omega arith)
bit_or_bounds zero zero (suc b) p q = absurd (omega arith)
bit_or_bounds zero (suc a) b p q = absurd (omega arith)
bit_or_bounds (suc k) a b p q =
    let power = pow-suc 2 k in
    let (below, first, second) = bit_or_bounds k (a / 2) (b / 2) (omega arith) (omega arith) in
    let (low, low_first, low_second) = greater_digit (a % 2) (b % 2) (omega arith) (omega arith) in
    let step = bit_or_step a b in (omega arith, omega arith, omega arith)

pub bit_xor-zero : (k a b : ℕ) → a < 2 ^ k → b < 2 ^ k → bit_xor a b ≡ 0 → a ≡ b
bit_xor-zero k a b p q e =
    sym (bit_xor_cancel k a b p q) ∙ (ap (λ t. bit_xor t b) e ∙ bit_xor-bitwise 0 b)

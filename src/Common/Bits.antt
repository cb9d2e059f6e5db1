-- ===== src/Common/Bits.antt =====
-- `&`, `|` and `^` on octets: tables over small ranges, and the laws of exclusive or at every
-- width that unmasking needs.
use Prim.Native.Nat.{ℕ, zero, suc, ◌+◌, ◌*◌, ◌/◌, ◌%◌, ◌^◌, ◌≤◌, ◌<◌, bit_and, bit_or, bit_xor}
use Prim.Native.Nat.{min, max, bit_or-bitwise, digits, differ, bit_xor-bitwise, bit_and-bitwise}
use mathlib.Core.Path.{◌≡◌, refl, sym, ap, ap₂, ◌∙◌}
use mathlib.Core.Bool.{Bool, true, false, not, ◌&&◌, ◌||◌}
use mathlib.Core.Logic.{◌⊎◌}
use native.Mathlib.Omega.{arith}
use native.Mathlib.Nat.{pow-suc, le_refl}
use lapp_s.Common.Tests.{ltb, ◌==◌, ==_iff, if◌then◌else◌}

-- A test on every number below a bound, and what it says of one of them.
holds_upto : ℕ → (ℕ → Bool) → Bool
holds_upto zero test = true
holds_upto (suc bound) test = if test bound then holds_upto bound test else false

lookup : (test : ℕ → Bool) (bound x : ℕ) → x < bound → holds_upto bound test ≡ true → test x ≡ true
unfolding holds_upto
lookup test zero x below all = absurd (omega arith)
lookup test (suc bound) x below all = let earlier = lookup test bound x in ground arith

-- The mask and shift expressions of the frame header, over all octets.
and_table :
    holds_upto 256 (λ x.
      (bit_and x 128 / 2 ^ 7 == x / 128)
      && (bit_and x 64 / 2 ^ 6 == x / 64 % 2)
      && (bit_and x 32 / 2 ^ 5 == x / 32 % 2)
      && (bit_and x 16 / 2 ^ 4 == x / 16 % 2)
      && (bit_and x 15 == x % 16)
      && (bit_and x 127 == x % 128))
    ≡ true
unfolding holds_upto
and_table = refl

pub record HeaderBits (x : ℕ) : Type 0 where
  pub bit_7 : bit_and x 128 / 2 ^ 7 ≡ x / 128
  pub bit_6 : bit_and x 64 / 2 ^ 6 ≡ x / 64 % 2
  pub bit_5 : bit_and x 32 / 2 ^ 5 ≡ x / 32 % 2
  pub bit_4 : bit_and x 16 / 2 ^ 4 ≡ x / 16 % 2
  pub low_4 : bit_and x 15 ≡ x % 16
  pub low_7 : bit_and x 127 ≡ x % 128

pub header_bits : (x : ℕ) → x < 256 → HeaderBits x
header_bits x h = ground (arith, lookup _ 256 x h and_table)

rsv_table :
    holds_upto 256 (λ x.
      let set =
        bit_or (bit_or (bit_and x 64 / 2 ^ 6) (bit_and x 32 / 2 ^ 5)) (bit_and x 16 / 2 ^ 4) == 1 in
      if x / 16 % 8 == 0 then not set else set)
    ≡ true
unfolding holds_upto
rsv_table = refl

-- Some reserved bit is set.
pub rsv_bits :
    (x : ℕ)
    → x < 256
    → (bit_or (bit_or (bit_and x 64 / 2 ^ 6) (bit_and x 32 / 2 ^ 5)) (bit_and x 16 / 2 ^ 4) == 1)
      ≡ not (x / 16 % 8 == 0)
rsv_bits x h = ground (arith, lookup _ 256 x h rsv_table)

-- The tests of the first two octets of a character in UTF-8, as ranges.
within : ℕ → ℕ → ℕ → Bool
within low high x = not (ltb x low) && ltb x high

same_test : Bool → Bool → Bool
same_test a b = if a then b else not b

utf8_table :
    holds_upto 256 (λ x.
      same_test (bit_and x 128 == 0) (within 0 128 x)
      && same_test (bit_and x 0xc0 == 0x80) (within 128 192 x)
      && same_test (bit_and x 0x60 == 0x40) (within 64 96 x || within 192 224 x)
      && same_test (bit_and x 0xfe == 0xc0) (within 192 194 x)
      && same_test (bit_and x 0xf0 == 0xe0) (within 224 240 x)
      && same_test (bit_and x 0xf8 == 0xf0) (within 240 248 x)
      && same_test (bit_and x 0xe0 == 0x80) (within 128 160 x)
      && same_test (bit_and x 0xe0 == 0xa0) (within 160 192 x)
      && same_test (bit_and x 0xf0 == 0x80) (within 128 144 x))
    ≡ true
unfolding holds_upto within same_test
utf8_table = refl

-- Either the test fails, or the octet is in the range.
abbrev pub Ranges : Bool → ℕ → ℕ → ℕ → Type 0
Ranges test low high x =
    ((test ≡ true) × (low ≤ x) × (x < high)) ⊎ ((test ≡ false) × ((x < low) ⊎ (high ≤ x)))

pub record Utf8Bits (x : ℕ) : Type 0 where
  pub ascii : Ranges (bit_and x 128 == 0) 0 128 x
  pub continuation : Ranges (bit_and x 0xc0 == 0x80) 128 192 x
  pub lead_2 : 128 ≤ x → Ranges (bit_and x 0x60 == 0x40) 192 224 x
  pub overlong_2 : Ranges (bit_and x 0xfe == 0xc0) 192 194 x
  pub lead_3 : Ranges (bit_and x 0xf0 == 0xe0) 224 240 x
  pub lead_4 : Ranges (bit_and x 0xf8 == 0xf0) 240 248 x
  pub below_a0 : Ranges (bit_and x 0xe0 == 0x80) 128 160 x
  pub from_a0 : Ranges (bit_and x 0xe0 == 0xa0) 160 192 x
  pub below_90 : Ranges (bit_and x 0xf0 == 0x80) 128 144 x

pub utf8_bits : (x : ℕ) → x < 256 → Utf8Bits x
unfolding within same_test
utf8_bits x h = ground (arith, lookup _ 256 x h utf8_table)

or_table : holds_upto 128 (λ x. bit_or 128 x == 128 + x) ≡ true
unfolding holds_upto
or_table = refl

-- `128|x` sets the high bit.
pub bit_or_fin : (x : ℕ) → x < 128 → bit_or 128 x ≡ 128 + x
bit_or_fin x h = (==_iff _ _).0 (lookup _ 128 x h or_table)

-- The count of `digits` is a bound on the rounds: any that reaches the number will do.
module _ (z : ℕ → ℕ) (f : ℕ → ℕ → ℕ) where
  digits-zero : (count y : ℕ) → digits z f count zero y ≡ z y
  digits-zero zero y = refl
  digits-zero (suc count) y = refl

  digits_enough : (k l x y : ℕ) → x ≤ k → x ≤ l → digits z f k x y ≡ digits z f l x y
  digits_enough k l zero y h h' = digits-zero k y ∙ sym (digits-zero l y)
  digits_enough zero l (suc x) y h h' = absurd (omega arith)
  digits_enough (suc k) zero (suc x) y h h' = absurd (omega arith)
  digits_enough (suc k) (suc l) (suc x) y h h' =
      let rest = digits_enough k l (suc x / 2) (y / 2) (omega arith) (omega arith) in
      ap (λ (t : ℕ). t * 2 + f (suc x % 2) (y % 2)) rest

pub bit_xor_step : (x y : ℕ) → bit_xor x y ≡ bit_xor (x / 2) (y / 2) * 2 + differ (x % 2) (y % 2)
bit_xor_step zero y = simp bit_xor-bitwise (omega arith)
bit_xor_step (suc x) y =
    let fuel =
      digits_enough (λ v. v) differ x (suc x / 2) (suc x / 2) (y / 2) (omega arith) (le_refl _) in
    simp bit_xor-bitwise (omega (arith, fuel))

bit_and_step : (x y : ℕ) → bit_and x y ≡ bit_and (x / 2) (y / 2) * 2 + min (x % 2) (y % 2)
bit_and_step zero y = simp bit_and-bitwise (omega arith)
bit_and_step (suc x) y =
    let fuel =
      digits_enough (λ v. 0) min x (suc x / 2) (suc x / 2) (y / 2) (omega arith) (le_refl _) in
    simp bit_and-bitwise (omega (arith, fuel))

pub bit_or_step : (x y : ℕ) → bit_or x y ≡ bit_or (x / 2) (y / 2) * 2 + max (x % 2) (y % 2)
bit_or_step zero y = simp bit_or-bitwise (omega arith)
bit_or_step (suc x) y =
    let fuel =
      digits_enough (λ v. v) max x (suc x / 2) (suc x / 2) (y / 2) (omega arith) (le_refl _) in
    simp bit_or-bitwise (omega (arith, fuel))

zero-bit_or : (b : ℕ) → bit_or 0 b ≡ b
zero-bit_or b = bit_or-bitwise 0 b

bit_or-zero_upto : (bound x : ℕ) → x ≤ bound → bit_or x 0 ≡ x
bit_or-zero_upto bound zero h = refl
bit_or-zero_upto zero (suc x) h = absurd (omega arith)
bit_or-zero_upto (suc bound) (suc x) h =
    let halved = bit_or-zero_upto bound (suc x / 2) (omega arith) in
    bit_or_step (suc x) 0 ∙ omega (arith, halved)

digit : (x y : ℕ) → x < 2 → y < 2 → (differ x y < 2) × (differ (differ x y) y ≡ x)
digit zero zero p q = (omega arith, refl)
digit zero (suc zero) p q = (omega arith, refl)
digit zero (suc (suc y)) p q = absurd (omega arith)
digit (suc zero) zero p q = (omega arith, refl)
digit (suc zero) (suc zero) p q = (omega arith, refl)
digit (suc zero) (suc (suc y)) p q = absurd (omega arith)
digit (suc (suc x)) y p q = absurd (omega arith)

pub bit_xor-lt : (k a b : ℕ) → a < 2 ^ k → b < 2 ^ k → bit_xor a b < 2 ^ k
bit_xor-lt zero zero zero p q = omega arith
bit_xor-lt zero zero (suc b) p q = absurd (omega arith)
bit_xor-lt zero (suc a) b p q = absurd (omega arith)
bit_xor-lt (suc k) a b p q = omega (
  arith,
  pow-suc 2 k,
  bit_xor_step a b,
  digit (a % 2) (b % 2) (omega arith) (omega arith),
  bit_xor-lt k (a / 2) (b / 2) (omega (arith, pow-suc 2 k)) (omega (arith, pow-suc 2 k)),
)

-- Masking twice with one key gives the value back.
pub bit_xor_cancel : (k a b : ℕ) → a < 2 ^ k → b < 2 ^ k → bit_xor (bit_xor a b) b ≡ a
bit_xor_cancel zero zero zero p q = refl
bit_xor_cancel zero zero (suc b) p q = absurd (omega arith)
bit_xor_cancel zero (suc a) b p q = absurd (omega arith)
bit_xor_cancel (suc k) a b p q =
    let d = digit (a % 2) (b % 2) (omega arith) (omega arith) in
    let low : bit_xor a b % 2 ≡ differ (a % 2) (b % 2) = omega (arith, bit_xor_step a b) in
    let high : bit_xor a b / 2 ≡ bit_xor (a / 2) (b / 2) = omega (arith, bit_xor_step a b) in
    let rest =
      bit_xor_cancel k (a / 2) (b / 2) (omega (arith, pow-suc 2 k)) (omega (arith, pow-suc 2 k)) in
    rw bit_xor_step (rw (low, high, rest, d.1) (omega arith))

shift_fields :
    (k a x : ℕ) → ((a + 2 ^ suc k * x) / 2 ≡ a / 2 + 2 ^ k * x) × ((a + 2 ^ suc k * x) % 2 ≡ a % 2)
shift_fields k a x =
    let e : 2 ^ suc k * x ≡ 2 * (2 ^ k * x) = omega (arith, ap (λ (t : ℕ). t * x) (pow-suc 2 k)) in
    (omega (arith, e), omega (arith, e))

once : (x : ℕ) → 0 + 1 * x ≡ x
once x = omega arith

-- An operation on binary digits goes field by field.
module _ (op g : ℕ → ℕ → ℕ)
    (step : (a b : ℕ) → op a b ≡ op (a / 2) (b / 2) * 2 + g (a % 2) (b % 2)) where
  fields_base : (t x y : ℕ) → t ≡ 1 → op (0 + t * x) (0 + t * y) ≡ op 0 0 + t * op x y
  fields_base t x y e = rw e (rw (once x, once y) (omega (arith, step 0 0)))

  pub bitwise_fields :
      (k a b x y : ℕ)
      → a < 2 ^ k
      → b < 2 ^ k
      → op (a + 2 ^ k * x) (b + 2 ^ k * y) ≡ op a b + 2 ^ k * op x y
  bitwise_fields zero zero zero x y p q = fields_base (2 ^ 0) x y (omega arith)
  bitwise_fields zero zero (suc b) x y p q = absurd (omega arith)
  bitwise_fields zero (suc a) b x y p q = absurd (omega arith)
  bitwise_fields (suc k) a b x y p q =
      let sa = shift_fields k a x in
      let sb = shift_fields k b y in
      let ih =
        bitwise_fields k (a / 2) (b / 2) x y (omega (arith, pow-suc 2 k))
          (omega (arith, pow-suc 2 k)) in
      step (a + 2 ^ suc k * x) (b + 2 ^ suc k * y)
      ∙ rw (sa.0, sa.1, sb.0, sb.1, ih)
          (omega (arith, step a b, ap (λ (t : ℕ). t * op x y) (pow-suc 2 k)))

-- Exclusive or of two words, lowest octet apart.
pub bit_xor_octet :
    (a b x y : ℕ)
    → a < 256
    → b < 256
    → bit_xor (a + 256 * x) (b + 256 * y) ≡ bit_xor a b + 256 * bit_xor x y
bit_xor_octet a b x y p q = bitwise_fields bit_xor differ bit_xor_step 8 a b x y p q

pub bit_and_octet :
    (a b x y : ℕ)
    → a < 256
    → b < 256
    → bit_and (a + 256 * x) (b + 256 * y) ≡ bit_and a b + 256 * bit_and x y
bit_and_octet a b x y p q = bitwise_fields bit_and min bit_and_step 8 a b x y p q

-- `(high << 32) | low`
pub bit_or_words : (low high : ℕ) → low < 2 ^ 32 → bit_or (high * 2 ^ 32) low ≡ low + 2 ^ 32 * high
bit_or_words low high h =
    ap₂ bit_or (shift high) (plain low)
    ∙ (bitwise_fields bit_or max bit_or_step 32 0 low high 0 (omega arith) h
        ∙ rw (zero-bit_or low, bit_or-zero_upto high high (le_refl high)) refl)
  where
    shift : (high : ℕ) → high * 2 ^ 32 ≡ 0 + 2 ^ 32 * high
    shift high = omega arith

    plain : (low : ℕ) → low ≡ low + 2 ^ 32 * 0
    plain low = omega arith

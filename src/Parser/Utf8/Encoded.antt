-- ===== src/Parser/Utf8/Encoded.antt =====
-- The encodings of RFC 3629 in the chain of `if`s in `isValidUtf8` of include/WSStreamParser.h.
use lapp_s.Common.{
  ℕ, ◌+◌, ◌/◌, ◌%◌, ◌≤◌, ◌<◌, List, ◌∷◌, ◌++◌, ◌≡◌, refl, arith, some, ltb, length, drop,
  Bool-cases, inl, inr, utf8_bits,
}
use lapp_s.Parser.Utf8.{advance, sequence}
use lapp_s.Parser.Utf8.Scalar.{IsScalar, encode, encode_2, encode_3, encode_4}

two-sequence :
    (a b : ℕ) (m : List ℕ)
    → 194 ≤ a
    → a < 224
    → 128 ≤ b
    → b < 192
    → sequence (a ∷ b ∷ m) (length (a ∷ b ∷ m)) ≡ some (advance 2)
unfolding sequence
two-sequence a b m a_low a_high b_low b_high =
    let ua = utf8_bits a (omega arith) in
    let ub = utf8_bits b (omega arith) in
    ground (arith, ua.lead_2 (omega arith), ua.overlong_2, ub.continuation)

three-sequence :
    (a b c : ℕ) (m : List ℕ)
    → 224 ≤ a
    → a < 240
    → 128 ≤ b
    → b < 192
    → 128 ≤ c
    → c < 192
    → (a ≡ 224 → 160 ≤ b)
    → (a ≡ 237 → b < 160)
    → sequence (a ∷ b ∷ c ∷ m) (length (a ∷ b ∷ c ∷ m)) ≡ some (advance 3)
unfolding sequence
three-sequence a b c m a_low a_high b_low b_high c_low c_high e0 ed =
    let ua = utf8_bits a (omega arith) in
    let ub = utf8_bits b (omega arith) in
    let uc = utf8_bits c (omega arith) in
    ground (
      arith,
      ua.lead_2 (omega arith),
      ua.lead_3,
      ub.continuation,
      uc.continuation,
      ub.below_a0,
      ub.from_a0,
    )

four-sequence :
    (a b c d : ℕ) (m : List ℕ)
    → 240 ≤ a
    → a < 245
    → 128 ≤ b
    → b < 192
    → 128 ≤ c
    → c < 192
    → 128 ≤ d
    → d < 192
    → (a ≡ 240 → 144 ≤ b)
    → (a ≡ 244 → b < 144)
    → sequence (a ∷ b ∷ c ∷ d ∷ m) (length (a ∷ b ∷ c ∷ d ∷ m)) ≡ some (advance 4)
unfolding sequence
four-sequence a b c d m a_low a_high b_low b_high c_low c_high d_low d_high f0 f4 =
    let ua = utf8_bits a (omega arith) in
    let ub = utf8_bits b (omega arith) in
    let uc = utf8_bits c (omega arith) in
    let ud = utf8_bits d (omega arith) in
    ground (
      arith,
      ua.lead_2 (omega arith),
      ua.lead_3,
      ua.lead_4,
      ub.continuation,
      uc.continuation,
      ud.continuation,
      ub.below_90,
    )

-- The sequence that a scalar value makes is passed, and nothing behind it.
abbrev pub Passed : List ℕ → List ℕ → Type 0
Passed text behind =
    (n : ℕ) × (sequence text (length text) ≡ some (advance n)) × (drop n text ≡ behind)

pub encode-Passed : (v : ℕ) (r : List ℕ) → IsScalar v → 128 ≤ v → Passed (encode v ++ r) r
encode-Passed v r ok low = elim (Bool-cases (ltb v 0x800)) [
  | inl two ↦ rw (encode_2 v low (ground arith)) (
    2,
    two-sequence (0xc0 + v / 64) (0x80 + v % 64) r (ground arith) (ground arith) (omega arith)
        (omega arith),
    refl,
  )
  | inr from_3 ↦ elim (Bool-cases (ltb v 0x10000)) [
    | inl three ↦ rw (encode_3 v (ground arith) (ground arith)) (
      3,
      three-sequence (0xe0 + v / 4096) (0x80 + v / 64 % 64) (0x80 + v % 64) r (omega arith)
          (ground arith) (omega arith) (omega arith) (omega arith) (omega arith) (λ e. ground arith)
          (λ e. ground arith),
      refl,
    )
    | inr four ↦ rw (encode_4 v (ground arith)) (
      4,
      four-sequence (0xf0 + v / 262144) (0x80 + v / 4096 % 64) (0x80 + v / 64 % 64) (0x80 + v % 64)
          r (omega arith) (ground arith) (omega arith) (omega arith) (omega arith) (omega arith)
          (omega arith) (omega arith) (λ e. ground arith) (λ e. ground arith),
      refl,
    )
  ]
]

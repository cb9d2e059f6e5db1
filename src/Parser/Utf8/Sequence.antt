-- ===== src/Parser/Utf8/Sequence.antt =====
-- What the chain of `if`s in `isValidUtf8` of include/WSStreamParser.h makes of the bytes of a
-- character beyond ASCII.
use lapp_s.Common.{
  ℕ, ◌≤◌, ◌<◌, List, [], ◌∷◌, ◌≡◌, ◌≢◌, refl, arith, some, ltb, length, drop, Bool-cases, inl, inr,
  IsOctets, utf8_bits,
}
use lapp_s.Parser.Utf8.{advance, sequence}
use lapp_s.Parser.Utf8.Scalar.{Begins, two-Begins, three-Begins, four-Begins}

-- The bytes of a sequence that is passed.
abbrev TwoBytes : ℕ → ℕ → ℕ → Type 0
TwoBytes n a b = (n ≡ 2) × (194 ≤ a) × (128 ≤ b) × (b < 192)

abbrev ThreeBytes : ℕ → ℕ → ℕ → ℕ → Type 0
ThreeBytes n a b c =
    (n ≡ 3)
    × (128 ≤ b)
    × (b < 192)
    × (128 ≤ c)
    × (c < 192)
    × (a ≡ 224 → 160 ≤ b)
    × (a ≡ 237 → b < 160)

abbrev FourBytes : ℕ → ℕ → ℕ → ℕ → ℕ → Type 0
FourBytes n a b c d =
    (n ≡ 4)
    × (a < 245)
    × (128 ≤ b)
    × (b < 192)
    × (128 ≤ c)
    × (c < 192)
    × (128 ≤ d)
    × (d < 192)
    × (a ≡ 240 → 144 ≤ b)
    × (a ≡ 244 → b < 144)

abbrev Two : ℕ → List ℕ → ℕ → Type 0
Two a m n = (b : ℕ) × (r : List ℕ) × (m ≡ b ∷ r) × (TwoBytes n a b)

sequence-Two :
    (a : ℕ) (m : List ℕ) (n : ℕ)
    → IsOctets (a ∷ m)
    → 192 ≤ a
    → a < 224
    → sequence (a ∷ m) (length (a ∷ m)) ≡ some (advance n)
    → Two a m n
unfolding sequence
sequence-Two a [] n ok low high h =
    absurd (ground (arith, (utf8_bits a (omega arith)).lead_2 (omega arith)))
sequence-Two a (b ∷ m) n ok low high h =
    let ua = utf8_bits a (omega arith) in
    let ub = utf8_bits b (omega arith) in
    let facts : TwoBytes n a b =
      ground (arith, ua.lead_2 (omega arith), ua.overlong_2, ub.continuation) in
    (b, m, refl, facts)

abbrev Three : ℕ → List ℕ → ℕ → Type 0
Three a m n = (b : ℕ) × (c : ℕ) × (r : List ℕ) × (m ≡ b ∷ c ∷ r) × (ThreeBytes n a b c)

sequence-Three :
    (a : ℕ) (m : List ℕ) (n : ℕ)
    → IsOctets (a ∷ m)
    → 224 ≤ a
    → a < 240
    → sequence (a ∷ m) (length (a ∷ m)) ≡ some (advance n)
    → Three a m n
unfolding sequence
sequence-Three a [] n ok low high h =
    let ua = utf8_bits a (omega arith) in
    absurd (ground (arith, ua.lead_2 (omega arith), ua.lead_3))
sequence-Three a (b ∷ []) n ok low high h =
    let ua = utf8_bits a (omega arith) in
    absurd (ground (arith, ua.lead_2 (omega arith), ua.lead_3))
sequence-Three a (b ∷ c ∷ m) n ok low high h =
    let ua = utf8_bits a (omega arith) in
    let ub = utf8_bits b (omega arith) in
    let uc = utf8_bits c (omega arith) in
    let facts : ThreeBytes n a b c = ground (
      arith,
      ua.lead_2 (omega arith),
      ua.lead_3,
      ub.continuation,
      uc.continuation,
      ub.below_a0,
      ub.from_a0,
    ) in
    (b, c, m, refl, facts)

abbrev Four : ℕ → List ℕ → ℕ → Type 0
Four a m n =
    (b : ℕ) × (c : ℕ) × (d : ℕ) × (r : List ℕ) × (m ≡ b ∷ c ∷ d ∷ r) × (FourBytes n a b c d)

sequence-Four :
    (a : ℕ) (m : List ℕ) (n : ℕ)
    → IsOctets (a ∷ m)
    → 240 ≤ a
    → sequence (a ∷ m) (length (a ∷ m)) ≡ some (advance n)
    → Four a m n
unfolding sequence
sequence-Four a [] n ok low h =
    let ua = utf8_bits a (omega arith) in
    absurd (ground (arith, ua.lead_2 (omega arith), ua.lead_3, ua.lead_4))
sequence-Four a (b ∷ []) n ok low h =
    let ua = utf8_bits a (omega arith) in
    absurd (ground (arith, ua.lead_2 (omega arith), ua.lead_3, ua.lead_4))
sequence-Four a (b ∷ c ∷ []) n ok low h =
    let ua = utf8_bits a (omega arith) in
    absurd (ground (arith, ua.lead_2 (omega arith), ua.lead_3, ua.lead_4))
sequence-Four a (b ∷ c ∷ d ∷ m) n ok low h =
    let ua = utf8_bits a (omega arith) in
    let ub = utf8_bits b (omega arith) in
    let uc = utf8_bits c (omega arith) in
    let ud = utf8_bits d (omega arith) in
    let facts : FourBytes n a b c d = ground (
      arith,
      ua.lead_2 (omega arith),
      ua.lead_3,
      ua.lead_4,
      ub.continuation,
      uc.continuation,
      ud.continuation,
      ub.below_90,
    ) in
    (b, c, d, m, refl, facts)

stray_refused :
    (a : ℕ) (m : List ℕ) (n : ℕ)
    → IsOctets (a ∷ m)
    → 128 ≤ a
    → a < 192
    → sequence (a ∷ m) (length (a ∷ m)) ≢ some (advance n)
unfolding sequence
stray_refused a m n ok low high h =
    let ua = utf8_bits a (omega arith) in
    absurd (ground (arith, ua.lead_2 (omega arith), ua.lead_3, ua.lead_4))

pub sequence-Begins :
    (a : ℕ) (m : List ℕ) (n : ℕ)
    → IsOctets (a ∷ m)
    → 128 ≤ a
    → sequence (a ∷ m) (length (a ∷ m)) ≡ some (advance n)
    → Begins (a ∷ m) (drop n (a ∷ m))
sequence-Begins a m n ok low h = elim (Bool-cases (ltb a 192)) [
  | inl below ↦ absurd (stray_refused a m n ok low (ground arith) h)
  | inr from_192 ↦ elim (Bool-cases (ltb a 224)) [
    | inl two ↦
        let (b, r, e, (n2, b0, b1, b2)) = sequence-Two a m n ok (ground arith) (ground arith) h in
        rw (e, n2) (two-Begins a b r b0 (ground arith) b1 b2)
    | inr from_224 ↦ elim (Bool-cases (ltb a 240)) [
      | inl three ↦
          let (b, c, r, e, (n3, b1, b2, c1, c2, e0, ed)) =
            sequence-Three a m n ok (ground arith) (ground arith) h in
          rw (e, n3) (three-Begins a b c r (ground arith) (ground arith) b1 b2 c1 c2 e0 ed)
      | inr four ↦
          let (b, c, d, r, e, (n4, a1, b1, b2, c1, c2, d1, d2, f0, f4)) =
            sequence-Four a m n ok (ground arith) h in
          rw (e, n4) (four-Begins a b c d r (ground arith) a1 b1 b2 c1 c2 d1 d2 f0 f4)
    ]
  ]
]

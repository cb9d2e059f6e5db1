-- ===== src/Parser/Utf8/Scalar.antt =====
-- UTF-8 as RFC 3629 defines it: the encodings of Unicode scalar values.
use lapp_s.Common.{
  ℕ, ◌+◌, ◌*◌, ◌-◌, ◌/◌, ◌%◌, ◌≤◌, ◌<◌, List, [], ◌∷◌, ◌++◌, ◌≡◌, ◌⊎◌, arith, ltb, if◌then◌else◌,
}

-- A code point that is no surrogate.
abbrev pub IsScalar : ℕ → Type 0
IsScalar v = (v < 0xd800) ⊎ ((0xe000 ≤ v) × (v < 0x110000))

unfoldable pub encode : ℕ → List ℕ
encode v =
    if ltb v 0x80
    then v ∷ []
    else if ltb v 0x800
    then (0xc0 + v / 64) ∷ (0x80 + v % 64) ∷ []
    else if ltb v 0x10000
    then (0xe0 + v / 4096) ∷ (0x80 + v / 64 % 64) ∷ (0x80 + v % 64) ∷ []
    else (0xf0 + v / 262144) ∷ (0x80 + v / 4096 % 64) ∷ (0x80 + v / 64 % 64) ∷ (0x80 + v % 64) ∷ []

abbrev pub encode_all : List ℕ → List ℕ
encode_all [] = []
encode_all (v ∷ vs) = encode v ++ encode_all vs

abbrev pub AllScalar : List ℕ → Type 0
AllScalar [] = Unit
AllScalar (v ∷ vs) = IsScalar v × AllScalar vs

abbrev pub IsUtf8 : List ℕ → Type 0
IsUtf8 text = (vs : List ℕ) × AllScalar vs × (text ≡ encode_all vs)

-- A text that begins with the encoding of a value above those of ASCII, and what is behind it.
abbrev pub Begins : List ℕ → List ℕ → Type 0
Begins text behind = (v : ℕ) × IsScalar v × (128 ≤ v) × (text ≡ encode v ++ behind)

pub two-Begins :
    (a b : ℕ) (m : List ℕ) → 194 ≤ a → a < 224 → 128 ≤ b → b < 192 → Begins (a ∷ b ∷ m) m
unfolding encode
two-Begins a b m a_low a_high b_low b_high =
    ((a - 192) * 64 + (b - 128), omega arith, omega arith, ground arith)

pub three-Begins :
    (a b c : ℕ) (m : List ℕ)
    → 224 ≤ a
    → a < 240
    → 128 ≤ b
    → b < 192
    → 128 ≤ c
    → c < 192
    → (a ≡ 224 → 160 ≤ b)
    → (a ≡ 237 → b < 160)
    → Begins (a ∷ b ∷ c ∷ m) m
unfolding encode
three-Begins a b c m a_low a_high b_low b_high c_low c_high e0 ed =
    ((a - 224) * 4096 + (b - 128) * 64 + (c - 128), ground arith, ground arith, ground arith)

pub four-Begins :
    (a b c d : ℕ) (m : List ℕ)
    → 240 ≤ a
    → a < 245
    → 128 ≤ b
    → b < 192
    → 128 ≤ c
    → c < 192
    → 128 ≤ d
    → d < 192
    → (a ≡ 240 → 144 ≤ b)
    → (a ≡ 244 → b < 144)
    → Begins (a ∷ b ∷ c ∷ d ∷ m) m
unfolding encode
four-Begins a b c d m a_low a_high b_low b_high c_low c_high d_low d_high f0 f4 = (
  (a - 240) * 262144 + (b - 128) * 4096 + (c - 128) * 64 + (d - 128),
  ground arith,
  ground arith,
  ground arith,
)

pub encode_1 : (v : ℕ) → v < 128 → encode v ≡ v ∷ []
unfolding encode
encode_1 v h = ground arith

pub encode_2 : (v : ℕ) → 128 ≤ v → v < 0x800 → encode v ≡ (0xc0 + v / 64) ∷ (0x80 + v % 64) ∷ []
unfolding encode
encode_2 v low high = ground arith

pub encode_3 :
    (v : ℕ)
    → 0x800 ≤ v
    → v < 0x10000
    → encode v ≡ (0xe0 + v / 4096) ∷ (0x80 + v / 64 % 64) ∷ (0x80 + v % 64) ∷ []
unfolding encode
encode_3 v low high = ground arith

pub encode_4 :
    (v : ℕ)
    → 0x10000 ≤ v
    → encode v
      ≡ (0xf0 + v / 262144) ∷ (0x80 + v / 4096 % 64) ∷ (0x80 + v / 64 % 64) ∷ (0x80 + v % 64) ∷ []
unfolding encode
encode_4 v low = ground arith

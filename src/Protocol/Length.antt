-- ===== src/Protocol/Length.antt =====
-- What the length field of a frame says.
use lapp_s.Common.{
  ℕ, ◌/◌, ◌%◌, ◌<◌, ◌^◌, List, [], ◌∷◌, ◌++◌, ◌≡◌, ap, ◌∙◌, arith, ltb, le_bytes, swap_bytes,
  if◌then◌else◌, reverse, le_bytes-of_le_bytes, of_le_bytes, of_le_bytes-le_bytes, Bool-cases, inl,
  inr,
}
use lapp_s.Protocol.{put_length}

-- RFC 6455, 5.2: the length in network order, in as few bytes as it takes.
abbrev pub length_field : ℕ → List ℕ
length_field n =
    if ltb 65535 n
    then 127 ∷ reverse (le_bytes 8 n)
    else if ltb 125 n
    then 126 ∷ (n / 256) ∷ (n % 256) ∷ []
    else n ∷ []

swap_8 : (n : ℕ) → le_bytes 8 (swap_bytes 8 n) ≡ reverse (le_bytes 8 n)
swap_8 n = le_bytes-of_le_bytes (reverse (le_bytes 8 n)) (omega arith)

swap_2 : (n : ℕ) → n < 65536 → le_bytes 2 (swap_bytes 2 n) ≡ n / 256 ∷ n % 256 ∷ []
swap_2 n h =
    rw (le_bytes-of_le_bytes (reverse (le_bytes 2 n)) (omega arith))
      (ap (λ t. t ∷ n % 256 ∷ []) high)
  where
    high : n / 256 % 256 ≡ n / 256
    high = omega arith

-- `put_length` appends the length field of RFC 6455 and leaves what stands before it alone.
pub put_length_lem : (n : ℕ) (out : List ℕ) → put_length n out ≡ out ++ length_field n
unfolding put_length
put_length_lem n out = elim (Bool-cases (ltb 65535 n)) [
  | inl big ↦ rw (big, swap_8 n)
  | inr small ↦ rw (small, swap_2 n (ground arith)) (ground arith)
]

-- The field is one code byte, and the bytes that the code announces.
abbrev pub length_code : ℕ → ℕ
length_code n = if ltb 65535 n then 127 else if ltb 125 n then 126 else n

abbrev pub length_rest : ℕ → List ℕ
length_rest n =
    if ltb 65535 n
    then reverse (le_bytes 8 n)
    else if ltb 125 n
    then (n / 256) ∷ (n % 256) ∷ []
    else []

pub length_field_parts : (n : ℕ) → length_field n ≡ length_code n ∷ length_rest n
length_field_parts n = ground arith

pub length_code-lt : (n : ℕ) → length_code n < 128
length_code-lt n = ground arith

-- Reading the network order back.
pub swap_8_back : (n : ℕ) → n < 2 ^ 64 → swap_bytes 8 (of_le_bytes (reverse (le_bytes 8 n))) ≡ n
swap_8_back n h = ap (λ t. of_le_bytes (reverse t)) (swap_8 n) ∙ of_le_bytes-le_bytes 8 n h

pub swap_2_back : (n : ℕ) → n < 65536 → swap_bytes 2 (of_le_bytes (n / 256 ∷ n % 256 ∷ [])) ≡ n
swap_2_back n h = omega arith

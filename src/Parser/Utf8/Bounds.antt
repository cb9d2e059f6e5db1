-- ===== src/Parser/Utf8/Bounds.antt =====
-- `isValidUtf8` of include/WSStreamParser.h on a length that runs past the memory.
use lapp_s.Common.{
  ℕ, zero, suc, ◌-◌, ◌≤◌, ◌<◌, Bool, true, List, [], ◌∷◌, ◌≡◌, ◌≢◌, refl, arith, Option, none, some,
  ◌==◌, length, length-drop, drop, bit_and, Bool-cases, inl, inr, leb, of_le_bytes,
}
use lapp_s.Parser.Utf8.{
  Skip, at_end, stopped, skip_ascii, Step, reject, advance, sequence, after_sequence, after_skip,
  after_word, round, scan, is_valid_utf8, word_is_ascii,
}

-- The pointer has not come to an end that lies outside the memory.
abbrev Short : Option Skip → Type 0
Short none = Unit
Short (some at_end) = ⊥
Short (some (stopped m left)) = length m < left

skip_ascii-Short : (m : List ℕ) (left : ℕ) → length m < left → Short (skip_ascii m left)
unfolding skip_ascii
skip_ascii-Short [] left h = tt
skip_ascii-Short (b ∷ m) left h = elim (Bool-cases (bit_and b 128 == 0)) [
  | inl ascii ↦ elim (Bool-cases (left == 1)) [
    | inl one ↦ absurd (ground arith)
    | inr more ↦ rw ascii (rw more (skip_ascii-Short m (left - 1) (omega arith)))
  ]
  | inr other ↦ rw other h
]

-- The bytes of a sequence are read before it is passed.
pub sequence_inside : (m : List ℕ) (left n : ℕ) → sequence m left ≡ some (advance n) → n ≤ length m
unfolding sequence
sequence_inside [] left n h = ground arith
sequence_inside (a ∷ []) left n h = ground arith
sequence_inside (a ∷ b ∷ []) left n h = ground arith
sequence_inside (a ∷ b ∷ c ∷ []) left n h = ground arith
sequence_inside (a ∷ b ∷ c ∷ d ∷ m) left n h = ground arith

module _ (again : List ℕ → ℕ → Option Bool)
    (later : (m : List ℕ) (left : ℕ) → length m < left → again m left ≢ some true) where
  after_sequence-refuses :
      (m : List ℕ) (left : ℕ) (step : Option Step)
      → length m < left
      → ((n : ℕ) → step ≡ some (advance n) → n ≤ length m)
      → after_sequence again m left step ≢ some true
  unfolding after_sequence
  after_sequence-refuses m left none h inside = λ e. absurd (ground arith)
  after_sequence-refuses m left (some reject) h inside = λ e. absurd (ground arith)
  after_sequence-refuses m left (some (advance n)) h inside =
      later (drop n m) (left - n) (omega (arith, inside n refl, length-drop n m))

  after_skip-refuses : (skip : Option Skip) → Short skip → after_skip again skip ≢ some true
  unfolding after_skip
  after_skip-refuses none h = λ e. absurd (ground arith)
  after_skip-refuses (some at_end) h = absurd h
  after_skip-refuses (some (stopped m left)) h =
      after_sequence-refuses m left (sequence m left) h (sequence_inside m left)

  after_word-refuses :
      (m : List ℕ) (left : ℕ)
      → length m < left
      → after_word again m left (word_is_ascii m) ≢ some true
  unfolding after_word
  after_word-refuses [] left h = λ e. absurd (ground arith)
  after_word-refuses (a ∷ []) left h = λ e. absurd (ground arith)
  after_word-refuses (a ∷ b ∷ []) left h = λ e. absurd (ground arith)
  after_word-refuses (a ∷ b ∷ c ∷ []) left h = λ e. absurd (ground arith)
  after_word-refuses (a ∷ b ∷ c ∷ d ∷ m) left h =
      elim (Bool-cases (bit_and (of_le_bytes (a ∷ b ∷ c ∷ d ∷ [])) 0x80808080 == 0)) [
        | inl ascii ↦ rw ascii (later m (left - 4) (omega arith))
        | inr other ↦ rw other (
            after_skip-refuses (skip_ascii (a ∷ b ∷ c ∷ d ∷ m) left)
              (skip_ascii-Short (a ∷ b ∷ c ∷ d ∷ m) left h))
      ]

  round-refuses : (m : List ℕ) (left : ℕ) → length m < left → round again m left ≢ some true
  unfolding round
  round-refuses m left h = elim (Bool-cases (leb 4 left)) [
    | inl whole ↦ rw whole (after_word-refuses m left h)
    | inr part ↦ rw part (after_skip-refuses (skip_ascii m left) (skip_ascii-Short m left h))
  ]

scan-refuses : (f : ℕ) (m : List ℕ) (left : ℕ) → length m < left → scan f m left ≢ some true
unfolding scan
scan-refuses zero m left h = λ e. absurd (ground arith)
scan-refuses (suc f) m left h = elim (Bool-cases (left == 0)) [
  | inl over ↦ absurd (ground arith)
  | inr more ↦ rw more (round-refuses (scan f) (scan-refuses f) m left h)
]

-- When the length that is passed is more than the memory holds, no text is found valid: the scan
-- finds an error, or it reads past the end.
pub is_valid_utf8-overrun : (cs : List ℕ) (n : ℕ) → length cs < n → is_valid_utf8 cs n ≢ some true
unfolding is_valid_utf8
is_valid_utf8-overrun cs n h = scan-refuses (suc n) cs n h

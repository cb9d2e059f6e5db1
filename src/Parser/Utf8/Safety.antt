-- ===== src/Parser/Utf8/Safety.antt =====
-- `isValidUtf8` of include/WSStreamParser.h on a length that the memory holds.
use lapp_s.Common.{
  ℕ, zero, suc, ◌-◌, ◌≤◌, ◌<◌, Bool, List, [], ◌∷◌, ◌≢◌, arith, Option, none, some, ◌==◌, length,
  length-drop, drop, bit_and, Bool-cases, inl, inr, leb, of_le_bytes,
}
use lapp_s.Parser.Utf8.{
  Skip, at_end, stopped, skip_ascii, Step, reject, advance, sequence, after_sequence, after_skip,
  after_word, round, scan, is_valid_utf8, word_is_ascii,
}

-- The pointer stands on a byte of the text, which has `n` bytes left at most.
abbrev OnText : ℕ → Option Skip → Type 0
OnText n none = ⊥
OnText n (some at_end) = Unit
OnText n (some (stopped m left)) = (0 < left) × (left ≤ n) × (left ≤ length m)

skip_ascii-OnText :
    (m : List ℕ) (left n : ℕ) → 0 < left → left ≤ n → left ≤ length m → OnText n (skip_ascii m left)
unfolding skip_ascii
skip_ascii-OnText [] left n some_left fits inside = absurd (omega arith)
skip_ascii-OnText (b ∷ m) left n some_left fits inside = elim (Bool-cases (bit_and b 128 == 0)) [
  | inl ascii ↦ elim (Bool-cases (left == 1)) [
    | inl one ↦ rw ascii (rw one tt)
    | inr more ↦
        rw ascii
          (rw more (skip_ascii-OnText m (left - 1) n (ground arith) (omega arith) (ground arith)))
  ]
  | inr other ↦ rw other (some_left, fits, inside)
]

-- A sequence is rejected, or it lies in the text.
abbrev pub InText : ℕ → Option Step → Type 0
InText left none = ⊥
InText left (some reject) = Unit
InText left (some (advance n)) = (0 < n) × (n ≤ left)

pub sequence-InText :
    (m : List ℕ) (left : ℕ) → 0 < left → left ≤ length m → InText left (sequence m left)
unfolding sequence
sequence-InText [] left some_left inside = absurd (omega arith)
sequence-InText (a ∷ []) left some_left inside = ground arith
sequence-InText (a ∷ b ∷ []) left some_left inside = ground arith
sequence-InText (a ∷ b ∷ c ∷ []) left some_left inside = ground arith
sequence-InText (a ∷ b ∷ c ∷ d ∷ m) left some_left inside = ground arith

-- `n` bytes at most are left where a round begins, and fewer where the next one does.
module _ (again : List ℕ → ℕ → Option Bool) (n : ℕ)
    (later : (m : List ℕ) (left : ℕ) → left < n → left ≤ length m → again m left ≢ none) where
  after_sequence-safe :
      (m : List ℕ) (left : ℕ) (step : Option Step)
      → left ≤ n
      → left ≤ length m
      → InText left step
      → after_sequence again m left step ≢ none
  unfolding after_sequence
  after_sequence-safe m left none fits inside ok = absurd ok
  after_sequence-safe m left (some reject) fits inside ok = λ e. absurd (ground arith)
  after_sequence-safe m left (some (advance k)) fits inside ok =
      later (drop k m) (left - k) (omega (arith, ok)) (omega (arith, length-drop k m))

  after_skip-safe : (skip : Option Skip) → OnText n skip → after_skip again skip ≢ none
  unfolding after_skip
  after_skip-safe none ok = absurd ok
  after_skip-safe (some at_end) ok = λ e. absurd (ground arith)
  after_skip-safe (some (stopped m left)) (some_left, fits, inside) =
      after_sequence-safe m left (sequence m left) fits inside
        (sequence-InText m left some_left inside)

  after_word-safe :
      (m : List ℕ) (left : ℕ)
      → 4 ≤ left
      → left ≤ n
      → left ≤ length m
      → after_word again m left (word_is_ascii m) ≢ none
  unfolding after_word
  after_word-safe [] left four fits inside = absurd (omega arith)
  after_word-safe (a ∷ []) left four fits inside = absurd (omega arith)
  after_word-safe (a ∷ b ∷ []) left four fits inside = absurd (omega arith)
  after_word-safe (a ∷ b ∷ c ∷ []) left four fits inside = absurd (omega arith)
  after_word-safe (a ∷ b ∷ c ∷ d ∷ m) left four fits inside =
      elim (Bool-cases (bit_and (of_le_bytes (a ∷ b ∷ c ∷ d ∷ [])) 0x80808080 == 0)) [
        | inl ascii ↦ rw ascii (later m (left - 4) (omega arith) (omega arith))
        | inr other ↦ rw other (
            after_skip-safe (skip_ascii (a ∷ b ∷ c ∷ d ∷ m) left)
              (skip_ascii-OnText (a ∷ b ∷ c ∷ d ∷ m) left n (omega arith) fits inside))
      ]

  round-safe :
      (m : List ℕ) (left : ℕ) → 0 < left → left ≤ n → left ≤ length m → round again m left ≢ none
  unfolding round
  round-safe m left some_left fits inside = elim (Bool-cases (leb 4 left)) [
    | inl whole ↦ rw whole (after_word-safe m left (ground arith) fits inside)
    | inr part ↦
        rw part
          (after_skip-safe (skip_ascii m left) (skip_ascii-OnText m left n some_left fits inside))
  ]

scan-safe : (f : ℕ) (m : List ℕ) (left : ℕ) → left < f → left ≤ length m → scan f m left ≢ none
unfolding scan
scan-safe zero m left enough inside = absurd (omega arith)
scan-safe (suc f) m left enough inside = elim (Bool-cases (left == 0)) [
  | inl over ↦ rw over (λ e. absurd (ground arith))
  | inr more ↦ rw more (
      round-safe (scan f) left (λ m' left' less inside'. scan-safe f m' left' (omega arith) inside')
        m left (ground arith) (omega arith) inside)
]

-- With a length that the memory holds, the scan ends with an answer: it reads no byte outside
-- the text, and its rounds do not run on.
pub is_valid_utf8-safe : (cs : List ℕ) (n : ℕ) → n ≤ length cs → is_valid_utf8 cs n ≢ none
unfolding is_valid_utf8
is_valid_utf8-safe cs n inside = scan-safe (suc n) cs n (omega arith) inside

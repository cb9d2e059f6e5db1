-- ===== src/Parser/Utf8.antt =====
-- `isValidUtf8` of include/WSStreamParser.h. The memory from the pointer `s` on is a list, and
-- `left` is `e - s`. A read past the end of that memory is `none`.
pub mod Overrun
pub mod Bounds
pub mod Safety
pub mod Scalar
pub mod Sequence
pub mod Encoded
pub mod Text
use lapp_s.Common.{
  ℕ, zero, suc, ◌-◌, Bool, true, false, ◌&&◌, ◌||◌, not, Option, none, some, List, [], ◌∷◌, ltb,
  leb, ◌==◌, if◌then◌else◌, bit_and, of_le_bytes, drop,
}

-- `((*(uint32_t *) s) & 0x80808080) == 0`
abbrev word_is_ascii : List ℕ → Option Bool
word_is_ascii (b0 ∷ b1 ∷ b2 ∷ b3 ∷ m) =
    some (bit_and (of_le_bytes (b0 ∷ b1 ∷ b2 ∷ b3 ∷ [])) 0x80808080 == 0)
word_is_ascii _ = none

-- How the inner `while` ends: `++s == e`, or at a byte above 127.
pub data Skip : Type 0 where
  at_end : Skip
  stopped : List ℕ → ℕ → Skip

pub skip_ascii : List ℕ → ℕ → Option Skip
skip_ascii [] left = none
skip_ascii (b ∷ m) left =
    let rest = skip_ascii m (left - 1) in
    if bit_and b 0x80 == 0
    then if left == 1 then some at_end else rest
    else some (stopped (b ∷ m) left)

-- The byte at `s + i` in a condition; `||` evaluates its right side only if it has to.
abbrev test : List ℕ → (ℕ → Bool) → Option Bool
test [] p = none
test (b ∷ m) p = some (p b)

abbrev or_else : Option Bool → Option Bool → Option Bool
or_else none q = none
or_else (some true) q = some true
or_else (some false) q = q

abbrev not_continuation : ℕ → Bool
not_continuation b = not (bit_and b 0xc0 == 0x80)

-- What the chain of `if`s makes of the bytes at `s`: how far `s` moves, or `return false`.
pub data Step : Type 0 where
  reject : Step
  advance : ℕ → Step

abbrev unless : Option Bool → ℕ → Option Step
unless none n = none
unless (some true) n = some reject
unless (some false) n = some (advance n)

pub sequence : List ℕ → ℕ → Option Step
sequence [] left = none
sequence (a ∷ m) left =
    if bit_and a 0x60 == 0x40
    then unless
        (or_else (some (leb left 1))
          (or_else (test m not_continuation) (some (bit_and a 0xfe == 0xc0))))
        2
    else if bit_and a 0xf0 == 0xe0
    then unless
        (or_else (some (leb left 2)) (
          or_else (test m not_continuation) (
            or_else (test (drop 1 m) not_continuation) (
              test m (λ b.
                (a == 0xe0 && bit_and b 0xe0 == 0x80) || (a == 0xed && bit_and b 0xe0 == 0xa0))))))
        3
    else if bit_and a 0xf8 == 0xf0
    then unless
        (or_else (some (leb left 3)) (
          or_else (test m not_continuation) (
            or_else (test (drop 1 m) not_continuation) (
              or_else (test (drop 2 m) not_continuation) (
                test m (λ b.
                  (a == 0xf0 && bit_and b 0xf0 == 0x80)
                  || (a == 0xf4 && ltb 0x8f b)
                  || ltb 0xf4 a))))))
        4
    else some reject

-- One round of the outer loop; `again` is the next round.
module _ (again : List ℕ → ℕ → Option Bool) where
  pub after_sequence : List ℕ → ℕ → Option Step → Option Bool
  after_sequence m left none = none
  after_sequence m left (some reject) = some false
  after_sequence m left (some (advance n)) = again (drop n m) (left - n)

  pub after_skip : Option Skip → Option Bool
  after_skip none = none
  after_skip (some at_end) = some true
  after_skip (some (stopped m left)) = after_sequence m left (sequence m left)

  pub after_word : List ℕ → ℕ → Option Bool → Option Bool
  after_word m left none = none
  after_word m left (some true) = again (drop 4 m) (left - 4)
  after_word m left (some false) = after_skip (skip_ascii m left)

  pub round : List ℕ → ℕ → Option Bool
  round m left =
      if leb 4 left then after_word m left (word_is_ascii m) else after_skip (skip_ascii m left)

-- The outer loop; the fuel is more than the bytes left, and each round takes one at least.
pub scan : ℕ → List ℕ → ℕ → Option Bool
scan zero m left = none
scan (suc f) m left = if left == 0 then some true else round (scan f) m left

pub is_valid_utf8 : List ℕ → ℕ → Option Bool
is_valid_utf8 cs length = scan (suc length) cs length

-- ===== src/Parser/Copy.antt =====
-- The memory operations by which the parsers fill a message buffer: the unmasking loops of
-- include/WSStreamServerParser.h and the `memcpy` of include/WSStreamClientParser.h.
pub mod Loop
pub mod Fill
use lapp_s.Common.{
  ℕ, zero, suc, ◌+◌, ◌-◌, ◌%◌, Bool, true, false, ◌&&◌, not, List, [], ◌∷◌, ◌++◌, ltb, leb, ◌==◌,
  byte_at, of_le_bytes, le_bytes, length, take, drop, set, bit_xor,
}
use lapp_s.Protocol.{Four}

abbrev pub key_at : Four → ℕ → ℕ
key_at k i = byte_at (k.b0 ∷ k.b1 ∷ k.b2 ∷ k.b3 ∷ []) i

-- The variables of the unmasking loops: `mPLBytesReady`, `cursor` and the buffer.
pub record Copying : Type 0 where
  pub ready : ℕ
  pub at : ℕ
  pub out : List ℕ

-- `while (test) body`, with fuel
unfoldable pub while : ℕ → (Copying → Bool) → (Copying → Copying) → Copying → Copying
while zero test body s = s
while (suc f) test body s = elim (test s) [ true ↦ while f test body (body s) | false ↦ s ]

-- bytes written one after another from an index on
abbrev store_bytes : List ℕ → ℕ → List ℕ → List ℕ
store_bytes out i [] = out
store_bytes out i (b ∷ bs) = store_bytes (set out i b) (i + 1) bs

-- `MSG_SIZE`, `used` (0 for a single frame), the four mask bytes and the 64-bit `MASK`
module _ (stream : List ℕ) (limit size used : ℕ) (key : Four) (mask : ℕ) where
  unfoldable pub byte_test : Copying → Bool
  byte_test s = ltb s.ready size && ltb s.at limit

  unfoldable pub byte_body : Copying → Copying
  byte_body s = record {
    ready = s.ready + 1;
    at = s.at + 1;
    out = set s.out (used + s.ready) (bit_xor (byte_at stream s.at) (key_at key (s.ready % 4)));
  }

  unfoldable pub align_test : Copying → Bool
  unfolding byte_test
  align_test s = byte_test s && not (s.ready % 4 == 0)

  unfoldable pub word_test : Copying → Bool
  word_test s = leb (s.ready + 8) size && leb (s.at + 8) limit

  -- the eight bytes at an index as a word, on a little-endian host
  abbrev load_word : ℕ → ℕ
  load_word i = of_le_bytes (
      byte_at stream i
      ∷ byte_at stream (i + 1)
      ∷ byte_at stream (i + 2)
      ∷ byte_at stream (i + 3)
      ∷ byte_at stream (i + 4)
      ∷ byte_at stream (i + 5)
      ∷ byte_at stream (i + 6)
      ∷ byte_at stream (i + 7)
      ∷ [])

  unfoldable pub word_body : Copying → Copying
  word_body s = record {
    ready = s.ready + 8;
    at = s.at + 8;
    out = store_bytes s.out (used + s.ready) (le_bytes 8 (bit_xor (load_word s.at) mask));
  }

  -- All three loops. The fuel is the input that is left, of which each round takes one byte at
  -- least.
  unfoldable pub unmask : Copying → Copying
  unfolding while byte_test byte_body align_test word_test word_body
  unmask s =
      let fuel = limit - s.at in
      let aligned = while fuel align_test byte_body s in
      let words = while fuel word_test word_body aligned in
      let s' : Copying = elim (leb 16 (limit - s.at)) [ true ↦ words | false ↦ s ] in
      while fuel byte_test byte_body s'

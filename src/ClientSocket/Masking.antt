-- ===== src/ClientSocket/Masking.antt =====
-- The masking of include/ClientWebSocket.h against section 5.3 of RFC 6455.
use lapp_s.Common.{
  ℕ, zero, suc, ◌+◌, ◌/◌, ◌%◌, ◌<◌, ◌^◌, List, [], ◌∷◌, ◌++◌, ◌≡◌, refl, sym, ap, ap₂, ◌∙◌, arith,
  byte_at, length, le_bytes, of_le_bytes, IsOctets, bit_or_fin, bit_or_words, bit_xor,
  le_bytes-of_le_bytes, lt→ltb,
}
use lapp_s.Protocol.{Four}
use lapp_s.Protocol.Length.{length_code, length_field_parts, length_code-lt, put_length_lem}
use lapp_s.Parser.Copy.{key_at}
use lapp_s.Parser.Copy.Loop.{IsKey, xor_bytes, xor-IsOctets, of_le_bytes-xor}
use lapp_s.Parser.Copy.Fill.{mask_from}
use lapp_s.Server.Receive.{masked_frame}
use lapp_s.ClientSocket.{double_mask, mask_tail, mask_words, client_frame}

-- The key bytes of a 32-bit mask, as they lie in memory.
abbrev pub key_of : ℕ → Four
key_of m = record {
  b0 = m % 256;
  b1 = m / 256 % 256;
  b2 = m / 256 / 256 % 256;
  b3 = m / 256 / 256 / 256 % 256;
}

pub key_of-IsKey : (m : ℕ) → IsKey (key_of m)
key_of-IsKey m = omega arith

module _ (m : ℕ) (word : m < 2 ^ 32) where
  abbrev key_bytes : List ℕ
  key_bytes = le_bytes 4 m ++ le_bytes 4 m

  key-IsOctets : IsOctets key_bytes
  key-IsOctets = omega arith

  double_mask_lem : double_mask m ≡ of_le_bytes key_bytes
  double_mask_lem = bit_or_words m m word ∙ omega arith

  double_bytes : le_bytes 8 (double_mask m) ≡ key_bytes
  double_bytes = ap (le_bytes 8) double_mask_lem ∙ le_bytes-of_le_bytes key_bytes key-IsOctets

  key_at_lem : (r : ℕ) → r < 4 → byte_at key_bytes r ≡ key_at (key_of m) r
  key_at_lem zero h = refl
  key_at_lem (suc zero) h = refl
  key_at_lem (suc (suc zero)) h = refl
  key_at_lem (suc (suc (suc zero))) h = refl
  key_at_lem (suc (suc (suc (suc r)))) h = absurd (omega arith)

  mask_tail_lem :
      (i : ℕ) (src : List ℕ) → mask_tail (double_mask m) i src ≡ mask_from (key_of m) i src
  unfolding mask_tail
  mask_tail_lem i [] = refl
  mask_tail_lem i (b ∷ src) =
      ap₂ (λ k t. bit_xor b k ∷ t)
        (ap (λ l. byte_at l (i % 4)) double_bytes ∙ key_at_lem (i % 4) (omega arith))
        (mask_tail_lem (i + 1) src)

  -- one octet of the payload against the key byte of its position
  masked :
      (b i r : ℕ)
      → i % 4 ≡ r
      → bit_xor b (key_at (key_of m) r) ≡ bit_xor b (key_at (key_of m) (i % 4))
  masked b i r e = ap (λ k. bit_xor b (key_at (key_of m) k)) (sym e)

  word_lem :
      (i b0 b1 b2 b3 b4 b5 b6 b7 : ℕ)
      → let src = b0 ∷ b1 ∷ b2 ∷ b3 ∷ b4 ∷ b5 ∷ b6 ∷ b7 ∷ [] in
        IsOctets src
        → i % 4 ≡ 0
        → le_bytes 8 (bit_xor (of_le_bytes src) (double_mask m)) ≡ mask_from (key_of m) i src
  word_lem i b0 b1 b2 b3 b4 b5 b6 b7 o h =
      let src = b0 ∷ b1 ∷ b2 ∷ b3 ∷ b4 ∷ b5 ∷ b6 ∷ b7 ∷ [] in
      ap (le_bytes 8) (
        ap (bit_xor (of_le_bytes src)) double_mask_lem
        ∙ of_le_bytes-xor src key_bytes refl o key-IsOctets)
      ∙ (le_bytes-of_le_bytes (xor_bytes src key_bytes) (xor-IsOctets src key_bytes o key-IsOctets)
          ∙ ap₂ ◌∷◌ (masked b0 i 0 h) (
              ap₂ ◌∷◌ (masked b1 (i + 1) 1 (omega arith)) (
                ap₂ ◌∷◌ (masked b2 (i + 1 + 1) 2 (omega arith)) (
                  ap₂ ◌∷◌ (masked b3 (i + 1 + 1 + 1) 3 (omega arith)) (
                    ap₂ ◌∷◌ (masked b4 (i + 1 + 1 + 1 + 1) 0 (omega arith)) (
                      ap₂ ◌∷◌ (masked b5 (i + 1 + 1 + 1 + 1 + 1) 1 (omega arith)) (
                        ap₂ ◌∷◌ (masked b6 (i + 1 + 1 + 1 + 1 + 1 + 1) 2 (omega arith)) (
                          ap (λ t. t ∷ [])
                            (masked b7 (i + 1 + 1 + 1 + 1 + 1 + 1 + 1) 3 (omega arith))))))))))

  -- The loop over words masks as the loop over bytes does.
  mask_words_lem :
      (f i : ℕ) (src : List ℕ)
      → IsOctets src
      → i % 4 ≡ 0
      → mask_words f (double_mask m) i src ≡ mask_from (key_of m) i src
  unfolding mask_words
  mask_words_lem zero i src o h = mask_tail_lem i src
  mask_words_lem (suc f) i (b0 ∷ b1 ∷ b2 ∷ b3 ∷ b4 ∷ b5 ∷ b6 ∷ b7 ∷ b8 ∷ src) o h =
      let word = b0 ∷ b1 ∷ b2 ∷ b3 ∷ b4 ∷ b5 ∷ b6 ∷ b7 ∷ [] in
      rw (lt→ltb 8 (suc (suc (suc (suc (suc (suc (suc (suc (suc (length src)))))))))) (omega arith))
        (ap₂ ◌++◌ (word_lem i b0 b1 b2 b3 b4 b5 b6 b7 (omega arith) h)
            (mask_words_lem f (i + 8) (b8 ∷ src) o.1.1.1.1.1.1.1.1 (omega arith))
          ∙ ap (λ j. mask_from (key_of m) i word ++ mask_from (key_of m) j (b8 ∷ src)) (eight i))
    where
      eight : (i : ℕ) → i + 8 ≡ i + 1 + 1 + 1 + 1 + 1 + 1 + 1 + 1
      eight i = omega arith
  mask_words_lem (suc f) i src o h = mask_tail_lem i src

-- For a 32-bit random word, an opcode below 16 and a payload of octets, one at least, the
-- client's frame is a masked frame of RFC 6455, under the key that the random word is in memory.
pub client_frame_lem :
    (m oc b : ℕ) (src : List ℕ)
    → m < 2 ^ 32
    → oc < 16
    → IsOctets (b ∷ src)
    → client_frame m oc (b ∷ src) ≡ masked_frame (key_of m) oc (b ∷ src)
unfolding client_frame
client_frame_lem m oc b src word small octets =
    let n = length (b ∷ src) in
    let field =
      put_length_lem n ((128 + oc) ∷ []) ∙ ap (λ t. (128 + oc) ∷ t) (length_field_parts n) in
    rw
      (
        bit_or_fin oc (omega arith),
        field,
        bit_or_fin (length_code n) (length_code-lt n),
        lt→ltb 0 (suc (length src)) (omega arith),
        mask_words_lem m word (suc (length src)) 0 (b ∷ src) octets refl,
      )
      refl

-- ===== src/Parser/Header.antt =====
-- What the functions of include/WSStreamParser.h read from a well-formed frame header.
use lapp_s.Common.{
  ℕ, ◌+◌, ◌/◌, ◌%◌, ◌≤◌, ◌<◌, false, not, List, [], ◌∷◌, ◌≡◌, refl, arith, length, drop,
  drop-byte_at, drop-suc, drop-length, ltb, lt→ltb, ◌==◌, if◌then◌else◌, header_bits, rsv_bits,
  swap_bytes, of_le_bytes,
}
use lapp_s.Protocol.{State, is_op_code_supported}
use lapp_s.Protocol.CloseCode
use lapp_s.Parser.{
  Parser, go_on, ask_more, fail_with, first_byte_fields, is_empty, size_at, size_short_0,
  size_short_1, size_long_0, size_long_1, size_long_2, size_long_3, size_long_4, size_long_5,
  size_long_6, size_long_7, get_header_1st_byte, read_size,
}

pub drop-lt : (s : List ℕ) (i b : ℕ) (t : List ℕ) → drop i s ≡ b ∷ t → i < length s
drop-lt s i b t e = omega (arith, drop-length s i (b ∷ t) e)

module _ (s : List ℕ) (i b : ℕ) (t : List ℕ) (at : drop i s ≡ b ∷ t) (octet : b < 256) where
  -- What follows the first byte of a frame, whatever it is.
  pub get_header_1st_byte_lem :
      (p : Parser)
      → get_header_1st_byte s (length s) i p ≡ (
          let h = first_byte_fields p.header b in
          let q = record p { cursor = i; header = h } in
          if not (b / 16 % 8 == 0)
          then fail_with q CloseCode.protocol_violation
          else if not (is_op_code_supported (b % 16))
          then fail_with q CloseCode.no_comprende
          else go_on (record q { cursor = i + 1; state = State.header_2nd_byte }))
  unfolding get_header_1st_byte
  get_header_1st_byte_lem p =
      rw (lt→ltb i (length s) (drop-lt s i b t at), drop-byte_at s i b t at)
        (rw (rsv_bits b octet, (header_bits b octet).low_4) refl)

-- The test for the end of the input.
pub at_limit :
    (s : List ℕ) (i : ℕ) (t : List ℕ) → i ≤ length s → drop i s ≡ t → (i == length s) ≡ is_empty t
at_limit s i [] le e = ground (arith, drop-length s i [] e)
at_limit s i (x ∷ t) le e = ground (arith, drop-length s i (x ∷ t) e)

pub not_at_limit : (s : List ℕ) (i b : ℕ) (t : List ℕ) → drop i s ≡ b ∷ t → (i == length s) ≡ false
not_at_limit s i b t e = at_limit s i (b ∷ t) (omega (arith, drop-lt s i b t e)) e

-- With the size read already, the function only looks whether there is more input.
pub read_size-skip :
    (s : List ℕ) (i c : ℕ) (t : List ℕ) (p : Parser)
    → drop i s ≡ c ∷ t
    → p.state ≡ State.read_mask_0
    → read_size s (length s) i p ≡ go_on (record p { cursor = i })
unfolding read_size size_at
read_size-skip s i c t p at st = rw (lt→ltb i (length s) (drop-lt s i c t at), st) refl

module _ (s : List ℕ) (i b0 b1 c : ℕ) (t : List ℕ) (at : drop i s ≡ b0 ∷ b1 ∷ c ∷ t) where
  at1 : drop (i + 1) s ≡ b1 ∷ c ∷ t
  at1 = drop-suc s i b0 (b1 ∷ c ∷ t) at

  at2 : drop (i + 1 + 1) s ≡ c ∷ t
  at2 = drop-suc s (i + 1) b1 (c ∷ t) at1

  -- A 16-bit size that is not too big, with more input behind it.
  pub read_size-short :
      (p : Parser)
      → p.state ≡ State.read_short_size_0
      → ltb p.max_msg_size (swap_bytes 2 (of_le_bytes (b0 ∷ b1 ∷ []))) ≡ false
      → read_size s (length s) i p
        ≡ go_on (record p {
          header = record (p.header) {
            medium_size = record { b0 = b0; b1 = b1 };
            msg_size = swap_bytes 2 (of_le_bytes (b0 ∷ b1 ∷ []));
          };
          cursor = i + 1 + 1;
          state = State.read_mask_0;
        })
  unfolding read_size size_at size_short_0 size_short_1
  read_size-short p st fits =
      rw
        (
          lt→ltb i (length s) (drop-lt s i b0 _ at),
          st,
          drop-byte_at s i b0 _ at,
          not_at_limit s (i + 1) b1 _ at1,
          drop-byte_at s (i + 1) b1 _ at1,
          fits,
          not_at_limit s (i + 1 + 1) c t at2,
        )
        refl

module _ (s : List ℕ) (i b0 b1 b2 b3 b4 b5 b6 b7 c : ℕ) (t : List ℕ)
    (at : drop i s ≡ b0 ∷ b1 ∷ b2 ∷ b3 ∷ b4 ∷ b5 ∷ b6 ∷ b7 ∷ c ∷ t) where
  -- A 64-bit size that is not too big, with more input behind it.
  pub read_size-long :
      (p : Parser)
      → p.state ≡ State.read_long_size_0
      → ltb p.max_msg_size (swap_bytes 8 (of_le_bytes (b0 ∷ b1 ∷ b2 ∷ b3 ∷ b4 ∷ b5 ∷ b6 ∷ b7 ∷ [])))
        ≡ false
      → read_size s (length s) i p
        ≡ go_on (record p {
          header = record (p.header) {
            large_size = record {
              b0 = b0;
              b1 = b1;
              b2 = b2;
              b3 = b3;
              b4 = b4;
              b5 = b5;
              b6 = b6;
              b7 = b7;
            };
            msg_size = swap_bytes 8 (of_le_bytes (b0 ∷ b1 ∷ b2 ∷ b3 ∷ b4 ∷ b5 ∷ b6 ∷ b7 ∷ []));
          };
          cursor = i + 1 + 1 + 1 + 1 + 1 + 1 + 1 + 1;
          state = State.read_mask_0;
        })
  unfolding read_size size_at size_long_0 size_long_1 size_long_2 size_long_3 size_long_4
      size_long_5 size_long_6 size_long_7
  read_size-long p st fits =
      let a1 = drop-suc s i b0 _ at in
      let a2 = drop-suc s (i + 1) b1 _ a1 in
      let a3 = drop-suc s (i + 1 + 1) b2 _ a2 in
      let a4 = drop-suc s (i + 1 + 1 + 1) b3 _ a3 in
      let a5 = drop-suc s (i + 1 + 1 + 1 + 1) b4 _ a4 in
      let a6 = drop-suc s (i + 1 + 1 + 1 + 1 + 1) b5 _ a5 in
      let a7 = drop-suc s (i + 1 + 1 + 1 + 1 + 1 + 1) b6 _ a6 in
      let a8 = drop-suc s (i + 1 + 1 + 1 + 1 + 1 + 1 + 1) b7 _ a7 in
      rw
        (
          lt→ltb i (length s) (drop-lt s i b0 _ at),
          st,
          drop-byte_at s i b0 _ at,
          not_at_limit s (i + 1) b1 _ a1,
          drop-byte_at s (i + 1) b1 _ a1,
          not_at_limit s (i + 1 + 1) b2 _ a2,
          drop-byte_at s (i + 1 + 1) b2 _ a2,
          not_at_limit s (i + 1 + 1 + 1) b3 _ a3,
          drop-byte_at s (i + 1 + 1 + 1) b3 _ a3,
          not_at_limit s (i + 1 + 1 + 1 + 1) b4 _ a4,
          drop-byte_at s (i + 1 + 1 + 1 + 1) b4 _ a4,
          not_at_limit s (i + 1 + 1 + 1 + 1 + 1) b5 _ a5,
          drop-byte_at s (i + 1 + 1 + 1 + 1 + 1) b5 _ a5,
          not_at_limit s (i + 1 + 1 + 1 + 1 + 1 + 1) b6 _ a6,
          drop-byte_at s (i + 1 + 1 + 1 + 1 + 1 + 1) b6 _ a6,
          not_at_limit s (i + 1 + 1 + 1 + 1 + 1 + 1 + 1) b7 _ a7,
          drop-byte_at s (i + 1 + 1 + 1 + 1 + 1 + 1 + 1) b7 _ a7,
          fits,
          not_at_limit s (i + 1 + 1 + 1 + 1 + 1 + 1 + 1 + 1) c t a8,
        )
        refl

-- Past the end of the input it asks for more.
pub read_size-end :
    (s : List ℕ) (i : ℕ) (p : Parser) → length s ≤ i → read_size s (length s) i p ≡ ask_more p
unfolding read_size
read_size-end s i p h = ground arith

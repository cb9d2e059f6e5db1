-- ===== src/Parser/Frame.antt =====
-- The header of a well-formed frame, read from its second byte on: `choose_size`, `readSIZE`.
use lapp_s.Common.{
  ℕ, ◌+◌, ◌%◌, ◌≤◌, ◌<◌, ◌^◌, false, List, [], ◌∷◌, ◌++◌, ◌≡◌, refl, subst₂, arith, length, drop,
  drop-suc, ltb, lt→ltb, ltb→lt, header_bits, swap_bytes, of_le_bytes, Bool-cases, inl, inr, ◌⊎◌,
}
use lapp_s.Protocol.{FrameHeader, State, SizeType}
use lapp_s.Protocol.Length.{length_code, length_rest, swap_2_back, swap_8_back}
use lapp_s.Parser.{Parser}
use lapp_s.Parser.Header.{read_size-skip, read_size-short, read_size-long}
use lapp_s.Parser.Machine.{Outcome, Side, proceed, choose_size, from_size, from_mask}

-- A header that differs from `h` in its size fields alone, and says `n`.
pub record Sized (h : FrameHeader) (n : ℕ) (h' : FrameHeader) : Type 0 where
  pub fin : h'.fin ≡ h.fin
  pub opcode : h'.opcode ≡ h.opcode
  pub fseq : h'.fseq ≡ h.fseq
  pub mask : h'.mask ≡ h.mask
  pub msg_size : h'.msg_size ≡ n

module _ (side : Side) (s : List ℕ) (again : ℕ → Parser → Outcome) where
  -- The machine gets past the size, to the mask, with `n` for the size.
  pub record Reaches (p : Parser) (b n i : ℕ) : Type 0 where
    pub header : FrameHeader
    pub sized : Sized p.header n header
    pub runs :
        proceed (choose_size p b) (from_size side s (length s) again)
        ≡ from_mask side s
            (length s)
            again
            (record p { header = header; cursor = i; state = State.read_mask_0 })

  module _ (p : Parser) (b : ℕ) (octet : b < 256) where
    Reaches-min :
        (c : ℕ) (t : List ℕ)
        → b % 128 < 126
        → drop (p.cursor + 1) s ≡ c ∷ t
        → Reaches p b (b % 128) (p.cursor + 1)
    Reaches-min c t small at =
        let h = record (p.header) {
          small_size = b % 128;
          size_type = SizeType.min;
          msg_size = b % 128;
        } in
        let q = record p { header = h; cursor = p.cursor + 1; state = State.read_mask_0 } in
        record {
          header = h;
          sized = record { fin = refl; opcode = refl; fseq = refl; mask = refl; msg_size = refl };
          runs =
              unfold choose_size proceed from_size in
              rw
                (
                  (header_bits b octet).low_7,
                  lt→ltb (b % 128) 126 small,
                  read_size-skip s (p.cursor + 1) c t q at refl,
                )
                refl;
        }

    Reaches-short :
        (b0 b1 c : ℕ) (t : List ℕ)
        → b % 128 ≡ 126
        → drop (p.cursor + 1) s ≡ b0 ∷ b1 ∷ c ∷ t
        → ltb p.max_msg_size (swap_bytes 2 (of_le_bytes (b0 ∷ b1 ∷ []))) ≡ false
        → Reaches p b (swap_bytes 2 (of_le_bytes (b0 ∷ b1 ∷ []))) (p.cursor + 1 + 1 + 1)
    Reaches-short b0 b1 c t small at fits =
        let h = record (p.header) { small_size = 126; size_type = SizeType.short } in
        let q = record p { header = h; cursor = p.cursor + 1; state = State.read_short_size_0 } in
        record {
          header = record h {
            medium_size = record { b0 = b0; b1 = b1 };
            msg_size = swap_bytes 2 (of_le_bytes (b0 ∷ b1 ∷ []));
          };
          sized = record { fin = refl; opcode = refl; fseq = refl; mask = refl; msg_size = refl };
          runs =
              unfold choose_size proceed from_size in
              rw
                (
                  (header_bits b octet).low_7,
                  small,
                  read_size-short s (p.cursor + 1) b0 b1 c t at q refl fits,
                )
                refl;
        }

    Reaches-long :
        (b0 b1 b2 b3 b4 b5 b6 b7 c : ℕ) (t : List ℕ)
        → b % 128 ≡ 127
        → drop (p.cursor + 1) s ≡ b0 ∷ b1 ∷ b2 ∷ b3 ∷ b4 ∷ b5 ∷ b6 ∷ b7 ∷ c ∷ t
        → ltb p.max_msg_size
            (swap_bytes 8 (of_le_bytes (b0 ∷ b1 ∷ b2 ∷ b3 ∷ b4 ∷ b5 ∷ b6 ∷ b7 ∷ [])))
          ≡ false
        → Reaches p b
            (swap_bytes 8 (of_le_bytes (b0 ∷ b1 ∷ b2 ∷ b3 ∷ b4 ∷ b5 ∷ b6 ∷ b7 ∷ [])))
            (p.cursor + 1 + 1 + 1 + 1 + 1 + 1 + 1 + 1 + 1)
    Reaches-long b0 b1 b2 b3 b4 b5 b6 b7 c t small at fits =
        let h = record (p.header) { small_size = 127; size_type = SizeType.long } in
        let q = record p { header = h; cursor = p.cursor + 1; state = State.read_long_size_0 } in
        record {
          header = record h {
            large_size = record {
              b0 = b0;
              b1 = b1;
              b2 = b2;
              b3 = b3;
              b4 = b4;
              b5 = b5;
              b6 = b6;
              b7 = b7;
            };
            msg_size = swap_bytes 8 (of_le_bytes (b0 ∷ b1 ∷ b2 ∷ b3 ∷ b4 ∷ b5 ∷ b6 ∷ b7 ∷ []));
          };
          sized = record { fin = refl; opcode = refl; fseq = refl; mask = refl; msg_size = refl };
          runs =
              unfold choose_size proceed from_size in
              rw
                (
                  (header_bits b octet).low_7,
                  small,
                  read_size-long s (p.cursor + 1) b0 b1 b2 b3 b4 b5 b6 b7 c t at q refl fits,
                )
                refl;
        }

  module _ (p : Parser) (n flag c : ℕ) (t : List ℕ) (bit : (flag ≡ 0) ⊎ (flag ≡ 128))
      (word : n < 2 ^ 64) (fits : 125 < n → n ≤ p.max_msg_size) where
    -- Behind the first byte stand the length field of `n`, with `flag` for the mask bit, and `c`.
    pub reaches :
        drop p.cursor s ≡ (flag + length_code n) ∷ (length_rest n ++ (c ∷ t))
        → Reaches p (flag + length_code n) n (p.cursor + 1 + length (length_rest n))
    reaches here = elim (Bool-cases (ltb 65535 n)) [
      | inl big ↦ rw big (
          subst₂ (Reaches p (flag + 127)) (swap_8_back n word) (omega arith) (
            Reaches-long p (flag + 127) (omega arith) _ _ _ _ _ _ _ _ c t (omega arith)
              (drop-suc s p.cursor _ _ (rw big at here))
              (rw (swap_8_back n word) (ground (arith, fits, ltb→lt 65535 n big)))))
      | inr small ↦ elim (Bool-cases (ltb 125 n)) [
        | inl medium ↦
            rw (small, medium)
              (subst₂ (Reaches p (flag + 126)) (swap_2_back n (ground arith)) (omega arith) (
                Reaches-short p (flag + 126) (omega arith) _ _ c t (omega arith)
                  (drop-suc s p.cursor _ _ (rw (small, medium) at here))
                  (rw (swap_2_back n (ground arith)) (ground (arith, fits, ltb→lt 125 n medium)))))
        | inr tiny ↦
            rw (small, tiny)
              (let low : (flag + n) % 128 ≡ n = ground arith in
                subst₂ (Reaches p (flag + n)) low (omega arith) (
                  Reaches-min p (flag + n) (ground arith) c t (ground arith)
                    (drop-suc s p.cursor _ _ (rw (small, tiny) at here))))
      ]
    ]

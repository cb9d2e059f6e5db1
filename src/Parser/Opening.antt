-- ===== src/Parser/Opening.antt =====
-- A whole frame header, from its first byte to the masking key: both classes alike, with their
-- way to read the mask bit as a hypothesis.
use lapp_s.Common.{
  ℕ, ◌+◌, ◌*◌, ◌/◌, ◌%◌, ◌≤◌, ◌<◌, ◌^◌, true, List, ◌∷◌, ◌++◌, ◌≡◌, ◌∙◌, arith, length, drop,
  drop-suc, ◌⊎◌, header_bits,
}
use lapp_s.Protocol.{FrameHeader, State, is_op_code_supported}
use lapp_s.Protocol.Length.{length_code, length_rest, length_code-lt}
use lapp_s.Parser.{Parser, first_byte_fields}
use lapp_s.Parser.Header.{get_header_1st_byte_lem}
use lapp_s.Parser.Frame.{reaches}
use lapp_s.Parser.Machine.{Outcome, Side, proceed, choose_size, from_first, from_second, from_mask}

-- No reserved bit is set, and the opcode is known.
pub record FirstByte (b : ℕ) : Type 0 where
  pub octet : b < 256
  pub no_rsv : b / 16 % 8 ≡ 0
  pub known : is_op_code_supported (b % 16) ≡ true

flagged :
    (flag x : ℕ)
    → (flag ≡ 0) ⊎ (flag ≡ 128)
    → x < 128
    → (flag + x < 256) × ((flag + x) / 128 * 128 ≡ flag)
flagged flag x bit h = (ground arith, ground arith)

-- A header as `b` and the size `n` say.
pub record Says (b n : ℕ) (h h' : FrameHeader) : Type 0 where
  pub fin : h'.fin ≡ b / 128
  pub opcode : h'.opcode ≡ b % 16
  pub fseq : h'.fseq ≡ h.fseq
  pub msg_size : h'.msg_size ≡ n

abbrev with_flag : Parser → ℕ → ℕ → Parser
with_flag p i m = record p { cursor = i; header = record (p.header) { maskflag = m } }

module _ (side : Side) (s : List ℕ) (again : ℕ → Parser → Outcome) (flag m : ℕ)
    (bit : (flag ≡ 0) ⊎ (flag ≡ 128))
    (opens : (p : Parser) (i b : ℕ) (t : List ℕ)
      → drop i s ≡ b ∷ t
      → b < 256
      → b / 128 * 128 ≡ flag
      → side.get_header_2nd_byte s (length s) i p ≡ choose_size (with_flag p i m) b) where
  pub record Opened (p : Parser) (b n i : ℕ) : Type 0 where
    pub header : FrameHeader
    pub says : Says b n p.header header
    pub runs :
        from_first side s (length s) again p
        ≡ from_mask side s
            (length s)
            again
            (record p { header = header; cursor = i; state = State.read_mask_0 })

  pub opened :
      (p : Parser) (b n c : ℕ) (t : List ℕ)
      → FirstByte b
      → n < 2 ^ 64
      → (125 < n → n ≤ p.max_msg_size)
      → drop p.cursor s ≡ b ∷ (flag + length_code n) ∷ (length_rest n ++ (c ∷ t))
      → Opened p b n (p.cursor + 1 + 1 + length (length_rest n))
  opened p b n c t first word fits here =
      let h1 = first_byte_fields p.header b in
      let p1 = record p { cursor = p.cursor + 1; header = h1; state = State.header_2nd_byte } in
      let p2 = with_flag p1 (p.cursor + 1) m in
      let next = drop-suc s p.cursor b _ here in
      let bounds = flagged flag (length_code n) bit (length_code-lt n) in
      let r = reaches side s again p2 n flag c t bit word fits next in
      record {
        header = r.header;
        says = record {
          fin = r.sized.fin ∙ (header_bits b first.octet).bit_7;
          opcode = r.sized.opcode ∙ (header_bits b first.octet).low_4;
          fseq = r.sized.fseq;
          msg_size = r.sized.msg_size;
        };
        runs =
            unfold proceed from_first from_second in
            rw
              (
                get_header_1st_byte_lem s p.cursor b _ here first.octet p,
                first.no_rsv,
                first.known,
                opens p1 (p.cursor + 1) (flag + length_code n) _ next bounds.0 bounds.1,
              )
              r.runs;
      }

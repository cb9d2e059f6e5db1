-- ===== src/Server/Fragments.antt =====
-- The frames of a fragmented message, up to the check of their headers: section 5.4 of RFC 6455 at
-- the server's parser.
pub mod Kinds
pub mod Message
pub mod Pieces
pub mod Whole
use lapp_s.Common.{
  ℕ, suc, ◌+◌, ◌*◌, ◌/◌, ◌%◌, ◌≤◌, ◌<◌, ◌^◌, List, [], ◌∷◌, ◌++◌, ◌≡◌, refl, sym, ap, ◌∙◌, arith,
  length, length-append, drop, drop-suc, drop-append_at, append_assoc, inr, IsOctets,
}
use lapp_s.Protocol.{Four, State, FrameSeq, FrameHeader}
use lapp_s.Protocol.Length.{length_code, length_rest}
use lapp_s.Parser.{Parser, reset}
use lapp_s.Parser.Copy.Fill.{mask_from}
use lapp_s.Parser.Header.{drop-lt}
use lapp_s.Parser.Opening.{FirstByte, opened}
use lapp_s.Parser.Machine.{Outcome, proceed, from_mask, from_validate, enter}
use lapp_s.Server.{double_mask, server_side}
use lapp_s.Server.Copied.{get_header_2nd_byte-masked, read_mask_lem}
use lapp_s.Server.Receive.{length-mask_from}

-- A masked frame with `b` for its first byte.
abbrev pub fragment : ℕ → Four → List ℕ → List ℕ
fragment b k src =
    b
    ∷ (128 + length_code (length src))
    ∷ (length_rest (length src) ++ (k.b0 ∷ k.b1 ∷ k.b2 ∷ k.b3 ∷ mask_from k 0 src))

pub length-fragment :
    (b : ℕ) (k : Four) (src : List ℕ)
    → length (fragment b k src) ≡ 6 + length (length_rest (length src)) + length src
length-fragment b k src = omega (
  arith,
  length-append (length_rest (length src)) (k.b0 ∷ k.b1 ∷ k.b2 ∷ k.b3 ∷ mask_from k 0 src),
  length-mask_from k 0 src,
)

-- The parser that has read the header and the key, which end at `j`.
abbrev pub keyed : Parser → FrameHeader → Four → ℕ → Parser
keyed p h k j = record (reset p) {
  header = record h { mask = k };
  mask = double_mask k;
  state = State.validate;
  cursor = j;
}

module _ (s : List ℕ) (again : ℕ → Parser → Outcome) where
  -- The machine comes to the check of the header with what the frame says.
  pub record Checks (b n : ℕ) (k : Four) (i : ℕ) (p : Parser) (payload : List ℕ) : Type 0 where
    pub header : FrameHeader
    pub at : ℕ
    pub fin : header.fin ≡ b / 128
    pub opcode : header.opcode ≡ b % 16
    pub fseq : header.fseq ≡ FrameSeq.single
    pub msg_size : header.msg_size ≡ n
    pub here : drop at s ≡ payload
    pub inside : at ≤ length s
    pub behind : at + n ≡ i + (6 + length (length_rest n) + n)
    pub runs :
        enter server_side s (length s) again p.state (record p { cursor = i })
        ≡ from_validate server_side s (length s) again (keyed p header k at)

  pub fragment-Checks :
      (i b : ℕ) (k : Four) (src post : List ℕ) (p : Parser)
      → FirstByte b
      → length src < 2 ^ 64
      → (125 < length src → length src ≤ p.max_msg_size)
      → p.state ≡ State.init
      → drop i s ≡ fragment b k src ++ post
      → Checks b (length src) k i p (mask_from k 0 src ++ post)
  unfolding enter reset from_mask proceed
  fragment-Checks i b k src post p first word fits st here =
      let p0 = reset (record p { cursor = i }) in
      let n = length src in
      let masked = mask_from k 0 src in
      let key_bytes = k.b0 ∷ k.b1 ∷ k.b2 ∷ k.b3 ∷ [] in
      let bytes =
        here
        ∙ ap (λ t. b ∷ (128 + length_code n) ∷ t)
            (append_assoc (length_rest n) (key_bytes ++ masked) post) in
      let o =
        opened server_side s again 128 1 (inr refl)
          (λ q j c t. get_header_2nd_byte-masked s q j c t) p0 b n k.b0
          (k.b1 ∷ k.b2 ∷ k.b3 ∷ (masked ++ post)) first word fits bytes in
      let j = i + 1 + 1 + length (length_rest n) in
      let key_at =
        drop-append_at s (i + 1 + 1) (length_rest n) (key_bytes ++ (masked ++ post))
          (drop-suc s (i + 1) _ _ (drop-suc s i _ _ bytes)) in
      let a1 = drop-suc s j k.b0 _ key_at in
      let a2 = drop-suc s (j + 1) k.b1 _ a1 in
      let a3 = drop-suc s (j + 1 + 1) k.b2 _ a2 in
      let p1 = record p0 { header = o.header; cursor = j; state = State.read_mask_0 } in
      record {
        header = o.header;
        at = j + 1 + 1 + 1 + 1;
        fin = o.says.fin;
        opcode = o.says.opcode;
        fseq = o.says.fseq;
        msg_size = o.says.msg_size;
        here = drop-suc s (j + 1 + 1 + 1) k.b3 _ a3;
        inside = omega (arith, drop-lt s (j + 1 + 1 + 1) k.b3 _ a3);
        behind = omega arith;
        runs =
            ap (λ t. enter server_side s (length s) again t (record p { cursor = i })) st
            ∙ (o.runs
                ∙ ap (λ r. proceed r (from_validate server_side s (length s) again))
                    (read_mask_lem s j k (masked ++ post) key_at p1 refl
                      (λ e. nothing src (o.says.msg_size) e)));
      }
    where
      nothing : (src : List ℕ) {m : ℕ} → m ≡ length src → mask_from k 0 src ++ post ≡ [] → m ≡ 0
      nothing [] size e = size
      nothing (x ∷ src) size e = cc

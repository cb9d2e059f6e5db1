-- ===== src/Server/Copied.antt =====
-- What the members of include/WSStreamServerParser.h read from a client's masked frame.
use lapp_s.Common.{
  ℕ, ◌+◌, ◌*◌, ◌/◌, ◌≤◌, ◌<◌, true, false, List, [], ◌∷◌, ◌++◌, ◌≡◌, refl, ap, ◌∙◌, arith, length,
  length-append, drop, resize, length-resize, drop-byte_at, drop-suc, lt→ltb, ==_refl, ◌==◌,
  if◌then◌else◌, header_bits, IsOctets, ◌&&◌, not, min,
}
use lapp_s.Protocol.{Four, State, Directive, FrameSeq}
use lapp_s.Protocol.CloseCode
use lapp_s.Parser.{Parser, go_on}
use lapp_s.Parser.Copy.{unmask}
use lapp_s.Parser.Copy.Loop.{IsKey}
use lapp_s.Parser.Copy.Fill.{mask_from, fill, fill-whole, unmask-fill}
use lapp_s.Parser.Header.{drop-lt, not_at_limit}
use lapp_s.Parser.Machine.{
  Outcome, returned, choose_size, proceed, from_payload, decide_on_done, on_done,
}
use lapp_s.Server.{
  get_header_2nd_byte, read_mask, mask_at, mask_0, mask_1, mask_2, mask_3, double_mask, copied,
  store_message, payload_single, process_payload, payload_of, server_side,
}

-- With the mask bit the second byte goes on to the size.
pub get_header_2nd_byte-masked :
    (s : List ℕ) (p : Parser) (i b : ℕ) (t : List ℕ)
    → drop i s ≡ b ∷ t
    → b < 256
    → b / 128 * 128 ≡ 128
    → get_header_2nd_byte s (length s) i p
      ≡ choose_size (record p { cursor = i; header = record (p.header) { maskflag = 1 } }) b
unfolding get_header_2nd_byte
get_header_2nd_byte-masked s p i b t here octet masked =
    let flag : b / 128 ≡ 1 = omega arith in
    rw
      (
        lt→ltb i (length s) (drop-lt s i b t here),
        drop-byte_at s i b t here,
        (header_bits b octet).bit_7,
        flag,
      )
      refl

-- The input does not end before a payload.
ends_before :
    (s : List ℕ) (j : ℕ) (t : List ℕ) (n : ℕ)
    → drop j s ≡ t
    → (t ≡ [] → n ≡ 0)
    → ((j == length s) && not (n == 0)) ≡ false
ends_before s j [] n e h = let z = h refl in ground arith
ends_before s j (x ∷ t) n e h = rw (not_at_limit s j x t e) refl

-- The four key bytes, with the payload behind them.
module _ (s : List ℕ) (i : ℕ) (k : Four) (t : List ℕ)
    (here : drop i s ≡ k.b0 ∷ k.b1 ∷ k.b2 ∷ k.b3 ∷ t) where
  pub read_mask_lem :
      (p : Parser)
      → p.state ≡ State.read_mask_0
      → (t ≡ [] → p.header.msg_size ≡ 0)
      → read_mask s (length s) i p
        ≡ go_on (record p {
          header = record (p.header) { mask = k };
          mask = double_mask k;
          state = State.validate;
          cursor = i + 1 + 1 + 1 + 1;
        })
  unfolding read_mask mask_at mask_0 mask_1 mask_2 mask_3
  read_mask_lem p st some_left =
      let a1 = drop-suc s i k.b0 _ here in
      let a2 = drop-suc s (i + 1) k.b1 _ a1 in
      let a3 = drop-suc s (i + 1 + 1) k.b2 _ a2 in
      let a4 = drop-suc s (i + 1 + 1 + 1) k.b3 _ a3 in
      rw
        (
          lt→ltb i (length s) (drop-lt s i k.b0 _ here),
          st,
          drop-byte_at s i k.b0 _ here,
          not_at_limit s (i + 1) k.b1 _ a1,
          drop-byte_at s (i + 1) k.b1 _ a1,
          not_at_limit s (i + 1 + 1) k.b2 _ a2,
          drop-byte_at s (i + 1 + 1) k.b2 _ a2,
          not_at_limit s (i + 1 + 1 + 1) k.b3 _ a3,
          drop-byte_at s (i + 1 + 1 + 1) k.b3 _ a3,
          ends_before s (i + 1 + 1 + 1 + 1) t p.header.msg_size a4 some_left,
        )
        refl

-- The copy of a whole payload into a buffer's end.
module _ (s : List ℕ) (octets : IsOctets s) (pre hole src post : List ℕ)
    (same : length hole ≡ length src) (p : Parser) (here : drop p.cursor s ≡ src ++ post)
    (inside : p.cursor ≤ length s) (fresh : p.pl_bytes_ready ≡ 0)
    (size : p.header.msg_size ≡ length src) (key : IsKey p.header.mask)
    (double : p.mask ≡ double_mask p.header.mask) where
  unmask-whole :
      unmask s
        (length s)
        p.header.msg_size
        (length pre)
        p.header.mask
        p.mask
        (record { ready = p.pl_bytes_ready; at = p.cursor; out = pre ++ hole })
      ≡ record {
        ready = length src;
        at = p.cursor + length src;
        out = pre ++ mask_from p.header.mask 0 src;
      }
  unmask-whole =
      unmask-fill s p.header.msg_size (length pre) p.header.mask p.mask octets key double pre hole
        (src ++ post) p.pl_bytes_ready p.cursor (omega arith) (omega arith) inside here
      ∙ (let e1 : p.pl_bytes_ready + min (length hole) (length (src ++ post)) ≡ length src =
            omega (arith, length-append src post) in
          let e2 : p.cursor + min (length hole) (length (src ++ post)) ≡ p.cursor + length src =
            omega (arith, length-append src post) in
          let e3 =
            ap (λ r. pre ++ fill p.header.mask r hole (src ++ post)) fresh
            ∙ ap (λ t. pre ++ t) (fill-whole p.header.mask 0 hole src post same) in
          λ i. record { ready = e1 i; at = e2 i; out = e3 i })

  pub copied-whole :
      (store : Parser → List ℕ → Parser)
      → copied s (length s) (length pre) store p (pre ++ hole)
        ≡ go_on
            (record (store
              (record p { pl_bytes_ready = length src; cursor = p.cursor + length src })
              (pre ++ mask_from p.header.mask 0 src)) { state = State.done })
  copied-whole store =
      let all : (length src == p.header.msg_size) ≡ true = rw size (==_refl (length src)) in
      rw (unmask-whole, all) refl

module _ (s : List ℕ) (octets : IsOctets s) (again : ℕ → Parser → Outcome) (src post : List ℕ)
    (p : Parser) (here : drop p.cursor s ≡ src ++ post) (inside : p.cursor ≤ length s)
    (fresh : p.pl_bytes_ready ≡ 0) (size : p.header.msg_size ≡ length src)
    (one : p.header.fseq ≡ FrameSeq.single) (key : IsKey p.header.mask)
    (double : p.mask ≡ double_mask p.header.mask) where
  abbrev plain : List ℕ
  plain = mask_from p.header.mask 0 src

  payload_single-whole :
      payload_single s (length s) p
      ≡ go_on (record p {
        message = plain;
        pl_bytes_ready = length src;
        cursor = p.cursor + length src;
        state = State.done;
      })
  unfolding payload_single
  payload_single-whole =
      rw (ap (λ k. if k == 0 then resize p.header.msg_size p.message else p.message) fresh) (
        copied-whole s octets [] (resize p.header.msg_size p.message) src post
          (length-resize p.header.msg_size p.message ∙ size) p here inside fresh size key double
          store_message)

  pub from_payload-single :
      from_payload server_side s (length s) again p
      ≡ returned
          (record p {
            message = plain;
            pl_bytes_ready = length src;
            cursor = p.cursor + length src;
            state = State.message_ready;
          })
          (record {
            cursor = p.cursor + length src;
            directive = Directive.take_ready_message;
            c_code = CloseCode.normal;
          })
  unfolding from_payload process_payload proceed decide_on_done payload_of
  from_payload-single =
      let q = record p {
        message = plain;
        pl_bytes_ready = length src;
        cursor = p.cursor + length src;
        state = State.done;
      } in
      ap (λ r. proceed r (decide_on_done server_side s (length s) again))
        (ap (λ f. payload_of s (length s) f p) one ∙ payload_single-whole)
      ∙ ap (λ f. on_done server_side s (length s) again f q) one

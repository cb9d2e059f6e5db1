-- ===== src/ClientSocket/Delivery.antt =====
-- The client's frames at the server's parser.
use lapp_s.Common.{
  ℕ, suc, ◌+◌, ◌%◌, ◌≤◌, ◌<◌, ◌^◌, List, [], ◌∷◌, ◌++◌, ◌≡◌, refl, ap, ◌∙◌, arith, length, drop,
  subst, sym, IsOctets, bit_or_fin, true, ◌⊎◌, set, byte_at, bit_or,
}
use lapp_s.Protocol.{put_length, is_op_code_supported, State, Directive, SizeType}
use lapp_s.Protocol.CloseCode
use lapp_s.Protocol.Supported.{IsControl, IsData, is_op_code_supported_of, whole_byte}
use lapp_s.Protocol.Length.{put_length_lem}
use lapp_s.Parser.{Parser, reset, first_byte_fields}
use lapp_s.Parser.Delivery.{Sendable, IsIdle, Sendable-known}
use lapp_s.Parser.Header.{get_header_1st_byte_lem, read_size-end}
use lapp_s.Parser.Machine.{
  returned, parse_on, enter, from_first, from_second, from_size, proceed, choose_size,
}
use lapp_s.Server.{server_side}
use lapp_s.Server.Receive.{Delivers, masked_frame_received}
use lapp_s.Server.Copied.{get_header_2nd_byte-masked}
use lapp_s.ClientSocket.{client_frame}
use lapp_s.ClientSocket.Masking.{key_of, key_of-IsKey, client_frame_lem}

-- A frame that the client sends with a payload of octets, one at least, under a 32-bit random
-- key, the server's idle parser reports with the same opcode and payload, whatever follows in an
-- input of octets, and is idle again once the message is taken. Opcode and size are such that the
-- message may go as one frame and, above 125 bytes, is within the parser's limit.
pub client_frame_received :
    (f : ℕ) (s : List ℕ) (i m oc b max : ℕ) (src post : List ℕ) (p : Parser)
    → IsOctets s
    → IsOctets (b ∷ src)
    → m < 2 ^ 32
    → IsIdle max p
    → Sendable oc (b ∷ src)
    → (125 < length (b ∷ src) → length (b ∷ src) ≤ max)
    → drop i s ≡ client_frame m oc (b ∷ src) ++ post
    → Delivers max oc
        (b ∷ src)
        (i + length (client_frame m oc (b ∷ src)))
        (parse_on server_side (suc f) s (length s) i p)
client_frame_received f s i m oc b max src post p octets plain word idle ok fits here =
    let small = (whole_byte oc (Sendable-known oc (b ∷ src) ok)).0 in
    let e = client_frame_lem m oc b src word small plain in
    subst
      (λ t.
        Delivers max oc (b ∷ src) (i + length t) (parse_on server_side (suc f) s (length s) i p))
      (sym e)
      (masked_frame_received f s i oc max (key_of m) (b ∷ src) post p octets plain (key_of-IsKey m)
        idle ok fits (here ∙ ap (λ t. t ++ post) e))

-- Without a payload the client's frame, of a data or control opcode, has the mask bit set and no
-- masking key: the server's idle parser reads its two bytes, asks for more, and waits for a key.
pub client_frame-starves :
    (f m oc max : ℕ) (p : Parser)
    → IsIdle max p
    → IsData oc ⊎ IsControl oc
    → (q : Parser) × (parse_on server_side
          (suc f)
          (client_frame m oc [])
          (length (client_frame m oc []))
          0
          p
        ≡ returned q (record { cursor = 0; directive = Directive.more; c_code = CloseCode.normal }))
      × (q.state ≡ State.read_mask_0)
unfolding parse_on enter reset from_first from_second from_size proceed choose_size client_frame
client_frame-starves f m oc max p idle known =
    let (small, octet, no_rsv, low, high) = whole_byte oc known in
    let s = (128 + oc) ∷ 128 ∷ [] in
    let supported : is_op_code_supported ((128 + oc) % 16) ≡ true =
      rw low (is_op_code_supported_of oc known) in
    let frame : client_frame m oc [] ≡ s =
      ap (λ x. set (put_length 0 (x ∷ [])) 1 (bit_or 128 (byte_at (put_length 0 (x ∷ [])) 1)))
        (bit_or_fin oc (omega arith))
      ∙ ap (λ l. set l 1 (bit_or 128 (byte_at l 1))) (put_length_lem 0 ((128 + oc) ∷ [])) in
    let p0 = reset (record p { cursor = 0 }) in
    let h1 = first_byte_fields p0.header (128 + oc) in
    let p1 = record p0 { cursor = 1; header = h1; state = State.header_2nd_byte } in
    let q = record p0 {
      header = record h1 { maskflag = 1; small_size = 0; size_type = SizeType.min; msg_size = 0 };
      state = State.read_mask_0;
    } in
    (
      q,
      subst
          (λ t.
            parse_on server_side (suc f) t (length t) 0 p
            ≡ returned q
                (record { cursor = 0; directive = Directive.more; c_code = CloseCode.normal }))
          (sym frame)
          (ap
              (λ st.
                enter server_side s 2 (parse_on server_side f s 2) st (record p { cursor = 0 }))
              idle.state
            ∙ rw
                (
                  get_header_1st_byte_lem s 0 (128 + oc) (128 ∷ []) refl octet p0,
                  no_rsv,
                  supported,
                  get_header_2nd_byte-masked s p1 1 128 [] refl (omega arith) refl,
                  read_size-end s 2 (record q { cursor = 2 }) (omega arith),
                )
                refl),
      refl,
    )

-- ===== src/ServerMessage/Frames.antt =====
-- The byte layout of the single frames of include/WSServerMessage.h.
use lapp_s.Common.{
  ℕ, ◌+◌, ◌*◌, ◌/◌, ◌%◌, ◌<◌, ◌^◌, List, [], ◌∷◌, ◌++◌, ◌≡◌, ap, ap₂, ◌∙◌, arith, length,
  resize-mem_copy, bit_or, bit_or_fin, append_assoc, swap_bytes,
}
use lapp_s.Protocol.{put_length}
use lapp_s.Protocol.Length.{length_field, put_length_lem}
use lapp_s.ServerMessage.{
  frame, close_code_bytes, make_message_header, server_message, server_close_message,
  server_close_reason,
}

-- A frame is its first byte, the length field of RFC 6455 and the payload.
pub frame_lem : (b : ℕ) (src : List ℕ) → frame b src ≡ b ∷ (length_field (length src) ++ src)
frame_lem b src =
    resize-mem_copy (put_length (length src) (b ∷ [])) src
    ∙ rw (put_length_lem (length src) (b ∷ []))

-- For an opcode below 16 the message frame has the FIN bit and the opcode in its first byte, and
-- then the length field and the payload; and the separate header is the frame without its payload.
pub server_message_layout :
    (oc : ℕ) (src : List ℕ)
    → oc < 16
    → (server_message oc src ≡ (128 + oc) ∷ (length_field (length src) ++ src))
      × (server_message oc src ≡ make_message_header oc (length src) ++ src)
unfolding server_message make_message_header
server_message_layout oc src h = (
  frame_lem (bit_or 128 oc) src ∙ rw (bit_or_fin oc (omega arith)),
  frame_lem (bit_or 128 oc) src ∙ rw (put_length_lem (length src) (bit_or 128 oc ∷ [])),
)

close_code_fields :
    (c : ℕ)
    → c < 65536
    → let w = swap_bytes 2 c in
      (w * 2 ^ 8 / 2 ^ 8 % 2 ^ 8 ≡ c / 256) × (w / 2 ^ 8 % 2 ^ 8 ≡ c % 256)
close_code_fields c h = (omega arith, omega arith)

close_code_bytes_lem :
    (c : ℕ) (out : List ℕ) → c < 65536 → close_code_bytes c out ≡ out ++ (c / 256 ∷ c % 256 ∷ [])
close_code_bytes_lem c out h =
    let (high, low) = close_code_fields c h in ap₂ (λ a b. out ++ (a ∷ b ∷ [])) high low

-- A close frame carries its code, below 65536, in network order, before the reason if there is
-- one.
pub close_layout :
    (c : ℕ) (src : List ℕ)
    → c < 65536
    → (server_close_message c ≡ 136 ∷ 2 ∷ c / 256 ∷ c % 256 ∷ [])
      × (server_close_reason c src
          ≡ 136 ∷ (length_field (length src + 2) ++ (c / 256 ∷ c % 256 ∷ src)))
unfolding server_close_message server_close_reason
close_layout c src h = (
  close_code_bytes_lem c (136 ∷ 2 ∷ []) h,
  resize-mem_copy (close_code_bytes c (put_length (length src + 2) (136 ∷ []))) src
      ∙ rw
          (
            close_code_bytes_lem c (put_length (length src + 2) (136 ∷ [])) h,
            put_length_lem (length src + 2) (136 ∷ []),
          )
          (ap (λ t. 136 ∷ t)
            (append_assoc (length_field (length src + 2)) (c / 256 ∷ c % 256 ∷ []) src)),
)

-- ===== src/ClientSocket.antt =====
-- include/ClientWebSocket.h: the frames that the client sends. `single_mask` is the value that
-- `PRNG::xoshiro128pp` gave to the call. What is returned is what `force_send` gets.
pub mod Transfer
pub mod Masking
pub mod Delivery
use lapp_s.Common.{
  ℕ, zero, suc, ◌+◌, ◌*◌, ◌/◌, ◌%◌, ◌^◌, List, [], ◌∷◌, ◌++◌, ltb, if◌then◌else◌, byte_at, length,
  take, drop, le_bytes, of_le_bytes, swap_bytes, set, bit_or, bit_xor,
}
use lapp_s.Protocol.{put_length}

-- `double_mask.mask`
abbrev pub double_mask : ℕ → ℕ
double_mask single_mask = bit_or (single_mask * 2 ^ 32) single_mask

-- `while(payload_idx<len)`: `src` is the payload from `payload_idx` on, and so below.
pub mask_tail : ℕ → ℕ → List ℕ → List ℕ
mask_tail mask payload_idx [] = []
mask_tail mask payload_idx (b ∷ src) =
    bit_xor b (byte_at (le_bytes 8 mask) (payload_idx % 4)) ∷ mask_tail mask (payload_idx + 1) src

-- `while((payload_idx+8)<len)`, and then the loop above. The fuel is the length of the payload.
pub mask_words : ℕ → ℕ → ℕ → List ℕ → List ℕ
mask_words zero mask payload_idx src = mask_tail mask payload_idx src
mask_words (suc f) mask payload_idx src =
    let rest = mask_words f mask (payload_idx + 8) (drop 8 src) in
    let word = le_bytes 8 (bit_xor (of_le_bytes (take 8 src)) mask) in
    if ltb 8 (length src) then word ++ rest else mask_tail mask payload_idx src

-- `send`. The key goes out only with a payload.
unfoldable pub client_frame : ℕ → ℕ → List ℕ → List ℕ
client_frame single_mask opcode src =
    let out = put_length (length src) (bit_or 128 opcode ∷ []) in
    let header = set out 1 (bit_or 128 (byte_at out 1)) in
    if ltb 0 (length src)
    then header
      ++ (le_bytes 4 single_mask ++ mask_words (length src) (double_mask single_mask) 0 src)
    else header

-- The frame of `closeSocket`, masked with a key of zeros.
pub client_close_frame : ℕ → List ℕ
client_close_frame ccode =
    let be_code = swap_bytes 2 ccode in
    bit_or 128 8
    ∷ bit_or 128 2
    ∷ 0
    ∷ 0
    ∷ 0
    ∷ 0
    ∷ bit_xor (be_code * 2 ^ 8 / 2 ^ 8 % 2 ^ 8) 0
    ∷ bit_xor (be_code / 2 ^ 8 % 2 ^ 8) 0
    ∷ []

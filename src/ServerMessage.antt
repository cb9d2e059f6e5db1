-- ===== src/ServerMessage.antt =====
-- include/WSServerMessage.h: the frames that the server sends. Overloads that differ in how the
-- payload is passed (a vector, a shared pointer to one, a pointer and a length) are one function.
pub mod Frames
pub mod Fragments
use lapp_s.Common.{
  ℕ, zero, suc, ◌+◌, ◌-◌, ◌*◌, ◌/◌, ◌%◌, ◌^◌, Bool, ◌&&◌, List, [], ◌∷◌, ◌++◌, ltb, if◌then◌else◌,
  length, take, drop, resize, mem_copy, swap_bytes, bit_or,
}
use lapp_s.Protocol.{put_length}

-- `offset=out.size(); out.resize(offset+len); memcpy(out.data()+offset,src,len);`
abbrev put_payload : List ℕ → List ℕ → List ℕ
put_payload src out = mem_copy (resize (length out + length src) out) (length out) src

-- a frame: its first byte, the length field and the payload
abbrev pub frame : ℕ → List ℕ → List ℕ
frame first_byte src = put_payload src (put_length (length src) (first_byte ∷ []))

-- `MakeMessageHeader`
pub make_message_header : ℕ → ℕ → List ℕ
make_message_header oc size = put_length size (bit_or 128 oc ∷ [])

-- `ServerMessage`
unfoldable pub server_message : ℕ → List ℕ → List ℕ
server_message oc src = frame (bit_or 128 oc) src

-- `ServerPongMessage`
pub server_pong_message : List ℕ → List ℕ
server_pong_message src = frame (bit_or 128 10) src

abbrev pub fragment_pl_size : ℕ
fragment_pl_size = 1392

-- The loop over the continuation fragments: `rounds` is `fragments-1`, and the result is the
-- frames and `bytes_left`.
pub continuations : ℕ → List ℕ → ℕ → List (List ℕ) × ℕ
continuations zero src bytes_left = ([], bytes_left)
continuations (suc rounds) src bytes_left =
    let (frames, left) = continuations rounds src (bytes_left - fragment_pl_size) in
    (frame 0 (take fragment_pl_size (drop (length src - bytes_left) src)) ∷ frames, left)

pub many_fragments : ℕ → ℕ → List ℕ → List (List ℕ)
many_fragments fragments oc src =
    let bytes_left = length src - fragment_pl_size in
    let (middle, left) = continuations (fragments - 1 - 1) src bytes_left in
    frame oc (take fragment_pl_size src)
    ∷ (middle ++ (frame 128 (take left (drop (length src - left) src)) ∷ []))

-- `FragmentedServerMessage`: the frames pushed to the queue. `fragments` is an `int`: the
-- quotient is cut to 32 bits, and from 2 ^ 31 on it is negative.
pub fragmented_server_message : List (List ℕ) → ℕ → List ℕ → List (List ℕ)
unfolding many_fragments continuations
fragmented_server_message out oc src =
    let fragments = length src / fragment_pl_size % 2 ^ 32 in
    if ltb 1 fragments && ltb fragments (2 ^ 31)
    then out ++ many_fragments fragments oc src
    else out ++ (frame (bit_or 128 oc) src ∷ [])

-- The two bytes of a close code: `beCode` is `htobe16(c)`, and its low byte goes first.
abbrev close_code_bytes : ℕ → List ℕ → List ℕ
close_code_bytes c out =
    let be_code = swap_bytes 2 c in
    out ++ (be_code * 2 ^ 8 / 2 ^ 8 % 2 ^ 8 ∷ be_code / 2 ^ 8 % 2 ^ 8 ∷ [])

-- `ServerCloseMessage` with a code alone
pub server_close_message : ℕ → List ℕ
server_close_message c = close_code_bytes c (bit_or 128 8 ∷ 2 ∷ [])

-- `ServerCloseMessage` with a code and a reason
pub server_close_reason : ℕ → List ℕ → List ℕ
server_close_reason c src =
    put_payload src (close_code_bytes c (put_length (length src + 2) (bit_or 128 8 ∷ [])))

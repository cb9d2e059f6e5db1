-- ===== src/Client/Progress.antt =====
-- `parse` of include/WSStreamClientParser.h ends.
use lapp_s.Common.{
  ℕ, ◌+◌, List, ◌≡◌, ◌≢◌, refl, ◌-◌, arith, ltb, ◌==◌, ◌&&◌, not, if◌then◌else◌, length, Bool-cases,
  inl, inr, resize, take, drop, mem_copy,
}
use native.Mathlib.Nat.{le_refl}
use lapp_s.Protocol.{FrameSeq}
use lapp_s.Parser.{Parser}
use lapp_s.Parser.Machine.{choose_size, starved}
use lapp_s.Parser.Progress.{Forward}
use lapp_s.Parser.Progress.Machine.{Ends, Ends-ne, GoesForward, parse_with-Ends}
use lapp_s.Client.{
  get_header_2nd_byte, skip_mask, copied, payload_single, payload_fragment, store_message,
  store_frames, payload_first, payload_next, payload_of, process_payload, client_side, parse,
}

get_header_2nd_byte-Forward :
    (s : List ℕ) (limit : ℕ) (p : Parser) → Forward p (get_header_2nd_byte s limit p.cursor p)
unfolding get_header_2nd_byte choose_size
get_header_2nd_byte-Forward s limit p = (λ h. ground arith, λ h. ground arith)

skip_mask-Forward : (s : List ℕ) (limit : ℕ) (p : Parser) → Forward p (skip_mask s limit p.cursor p)
unfolding skip_mask
skip_mask-Forward s limit p = (λ h. le_refl p.cursor, λ h. absurd (ground arith))

module _ (s : List ℕ) (limit : ℕ) where
  -- The copy goes on when it has the whole payload.
  copied-Forward :
      (used : ℕ) (store : Parser → List ℕ → Parser)
      → ((q : Parser) (out : List ℕ) → (store q out).cursor ≡ q.cursor)
      → (p : Parser) (buffer : List ℕ) → Forward p (copied s limit used store p buffer)
  copied-Forward used store keeps p buffer =
      let size = p.header.msg_size in
      let ready = p.pl_bytes_ready in
      let n = if ltb size (ready + (limit - p.cursor)) then size - ready else limit - p.cursor in
      let kept =
        keeps (record p { pl_bytes_ready = ready + n; cursor = p.cursor + n })
          (mem_copy buffer (used + ready) (take n (drop p.cursor s))) in
      (λ h. ground arith, λ h. ground arith)

  payload_single-Forward : (p : Parser) → Forward p (payload_single s limit p)
  unfolding payload_single
  payload_single-Forward p =
      copied-Forward 0 store_message (λ q out. refl) p
        (if p.pl_bytes_ready == 0 then resize p.header.msg_size p.message else p.message)

  payload_fragment-Forward : (p : Parser) → Forward p (payload_fragment s limit p)
  unfolding payload_fragment
  payload_fragment-Forward p =
      copied-Forward (length p.message_frames - p.header.msg_size) store_frames (λ q out. refl) p
        p.message_frames

  payload_first-Forward : (p : Parser) → Forward p (payload_first s limit p)
  unfolding payload_first
  payload_first-Forward p = elim (Bool-cases (p.pl_bytes_ready == 0)) [
    | inl fresh ↦ rw fresh (
        payload_fragment-Forward
          (record p { message_frames = resize p.header.msg_size p.message_frames }))
    | inr begun ↦ rw begun (payload_fragment-Forward p)
  ]

  payload_next-Forward : (p : Parser) → Forward p (payload_next s limit p)
  unfolding payload_next
  payload_next-Forward p =
      let total = length p.message_frames + p.header.msg_size in
      elim (Bool-cases (p.pl_bytes_ready == 0 && not (p.cursor == limit))) [
        | inl fresh ↦ elim (Bool-cases (ltb p.max_msg_size total)) [
          | inl big ↦ rw fresh (rw big ((λ h. absurd (ground arith), λ h. absurd (ground arith))))
          | inr fits ↦ rw fresh (
              rw fits (
                payload_fragment-Forward
                  (record p { message_frames = resize total p.message_frames })))
        ]
        | inr begun ↦ rw begun (payload_fragment-Forward p)
      ]

  process_payload-Forward : (p : Parser) → Forward p (process_payload s limit p.cursor p)
  unfolding process_payload payload_of
  process_payload-Forward p = by_sequence p.header.fseq p
    where
      by_sequence : (fs : FrameSeq) (p : Parser) → Forward p (payload_of s limit fs p)
      by_sequence FrameSeq.single p = payload_single-Forward p
      by_sequence FrameSeq.first p = payload_first-Forward p
      by_sequence FrameSeq.middle p = payload_next-Forward p
      by_sequence FrameSeq.last p = payload_next-Forward p

client_side-GoesForward : GoesForward client_side
client_side-GoesForward = record {
  second = get_header_2nd_byte-Forward;
  mask = skip_mask-Forward;
  payload = process_payload-Forward;
}

pub client_parse-Ends :
    (stream : List ℕ) (limit offset : ℕ) (p : Parser) → Ends offset (parse stream limit offset p)
client_parse-Ends stream limit offset p =
    parse_with-Ends client_side client_side-GoesForward stream limit offset p

-- A call of the client's `parse` returns or throws within its fuel, from every state of the parser, at
-- every offset of every input.
pub client_parse_ends :
    (stream : List ℕ) (limit offset : ℕ) (p : Parser) → parse stream limit offset p ≢ starved
client_parse_ends stream limit offset p =
    Ends-ne offset (parse stream limit offset p) (client_parse-Ends stream limit offset p)

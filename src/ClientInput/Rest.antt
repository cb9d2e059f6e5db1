-- ===== src/ClientInput/Rest.antt =====
-- What `handleInput` of include/ClientWebSocket.h does with input behind a message.
use lapp_s.Common.{
  ℕ, zero, suc, ◌+◌, ◌-◌, ◌≤◌, ◌<◌, false, List, [], ◌∷◌, ◌++◌, ◌≡◌, ◌==◌, refl, arith, ap, ◌∙◌,
  sym, length, length-append, if◌then◌else◌, drop, length-drop,
}
use lapp_s.Parser.{Parser}
use lapp_s.Parser.Delivery.{IsIdle, Sendable}
use lapp_s.Client
use lapp_s.Client.{get_message}
use lapp_s.Client.Receive.{server_message_received}
use lapp_s.ServerMessage.{server_message}
use lapp_s.ClientHandshake.{ClientWebSocket, ClientState}
use lapp_s.ClientSocket.Transfer.{RecvAnswer, SendAnswer, force_recv}
use lapp_s.ClientInput.{
  InputStatus, gave, parse_input, read_more, on_outcome, on_state, handle_input,
}

parse_input-some :
    (c : ClientWebSocket) (n : ℕ) (sends : List SendAnswer)
    → 0 < n
    → parse_input c n sends
      ≡ on_outcome c n sends (Client.parse c.recv_buffer n c.cursor c.stream_processor)
parse_input-some c zero sends some_left = absurd (omega arith)
parse_input-some c (suc n) sends some_left = refl

module _ (to_upper : List ℕ → List ℕ) (sha1_digest base64_encode : List ℕ → List ℕ) (oc : ℕ)
    (src : List ℕ) where
  -- The next calls each report that message; it is taken after each, whatever the system would
  -- have given to the calls.
  abbrev pub Repeats : List (List RecvAnswer × List SendAnswer) → ClientWebSocket → Type 0
  Repeats [] c = Unit
  Repeats ((recvs, sends) ∷ more) c =
      (p : Parser) × (handle_input to_upper sha1_digest base64_encode c recvs sends
        ≡ gave InputStatus.message_ready_buffer_is_not_empty (record c { stream_processor = p }) [])
      × ((get_message p).1 ≡ record { type = oc; message = src })
      × Repeats more (record c { stream_processor = (get_message p).0 })

  module _ (b : ℕ) (tail : List ℕ) (max : ℕ) (ok : Sendable oc src)
      (fits : 125 < length src → length src ≤ max) where
    -- A client takes messages, its parser is idle, and its cursor is not 0 and stands in the
    -- buffer at a whole message frame with more bytes behind it, of a message that may go as
    -- one frame and, above 125 bytes, is within the parser's limit. Then each of any number of
    -- calls of handleInput reports that message again, whatever can be received, where the
    -- message is taken after each.
    pub handle_input-Repeats :
        (calls : List (List RecvAnswer × List SendAnswer)) (c : ClientWebSocket) (post : List ℕ)
        → c.state ≡ ClientState.messaging
        → IsIdle max c.stream_processor
        → 0 < c.cursor
        → drop c.cursor c.recv_buffer ≡ server_message oc src ++ post
        → src ++ post ≡ b ∷ tail
        → 0 < length post
        → Repeats calls c
    unfolding handle_input
    handle_input-Repeats [] c post messaging idle inside here more behind = tt
    handle_input-Repeats ((recvs, sends) ∷ calls) c post messaging idle inside here more behind =
        let n = length c.recv_buffer in
        let left : n - c.cursor ≡ length (server_message oc src) + length post =
          sym (length-drop c.cursor c.recv_buffer)
          ∙ (ap length here ∙ length-append (server_message oc src) post) in
        let d =
          server_message_received (suc (n - c.cursor)) c.recv_buffer c.cursor oc b max src post tail
            c.stream_processor idle ok fits more here in
        let early : (c.cursor + length (server_message oc src) == n) ≡ false =
          ground (arith, left, behind) in
        let off : (c.cursor == 0) ≡ false = ground (arith, inside) in
        (
          d.after,
          ap (on_state to_upper sha1_digest base64_encode c recvs sends) messaging
              ∙ (ap
                    (λ z.
                      if z then read_more c sends (force_recv n recvs) else parse_input c n sends)
                    off
                  ∙ (parse_input-some c n sends (omega (arith, left, behind))
                      ∙ (ap (on_outcome c n sends) d.runs ∙ rw early refl))),
          d.event,
          handle_input-Repeats calls (record c { stream_processor = (get_message d.after).0 }) post
              messaging d.idle inside here more behind,
        )

-- ===== src/ClientInput/Ends.antt =====
-- The end of a call of `handleInput` of include/ClientWebSocket.h.
use lapp_s.Common.{
  ℕ, zero, suc, ◌-◌, ◌≤◌, ◌<◌, Bool, true, false, Option, none, some, List, [], ◌∷◌, ◌≡◌, ◌≢◌, ◌==◌,
  refl, arith, byte_at, length, if◌then◌else◌, ltb, ltb→lt, Bool-cases, inl, inr, Dict, ◌++◌,
}
use lapp_s.Http.{collect, is_crlf_byte, in_separator, in_line}
use lapp_s.Http.Collect.{collect-bounds, collect-first}
use lapp_s.Http.Progress.{stays}
use lapp_s.Protocol.{Directive, Result}
use lapp_s.Parser.Machine.{Outcome, returned, thrown, starved}
use lapp_s.Client
use lapp_s.Client.Progress.{client_parse_ends}
use lapp_s.ClientHandshake.{
  ClientWebSocket, ClientState, Reply, answered, unanswered, before_colon, kept, response_header,
  response_headers, on_headers, response_ok, on_response, server_response_ok,
}
use lapp_s.Handshake.{starts_with, status_line, uid}
use lapp_s.ClientSocket.{client_close_frame}
use lapp_s.ClientSocket.Transfer.{
  RecvAnswer, SendAnswer, force_recv, force_send, Comes, Goes, force_recv-ends, force_send-close,
}
use lapp_s.ClientInput.{
  never_ends, on_reply, on_result, on_outcome, parse_input, read_more, on_state, handle_input,
  store, closed_after,
}

-- A round of the loop that does not begin at a line end takes a byte at least.
header-advances : (buff : List ℕ) (sz i : ℕ) → i < sz → i < (response_header buff sz i).1
unfolding response_header
header-advances buff sz i inside =
    let i2 = (collect before_colon buff (sz - i) i).1 in
    let i3 = (collect in_separator buff (sz - i2) i2).1 in
    let b2 = collect-bounds before_colon buff (sz - i) i in
    let b3 = collect-bounds in_separator buff (sz - i2) i2 in
    let b4 = collect-bounds in_line buff (sz - i3) i3 in
    elim (Bool-cases (before_colon (byte_at buff i))) [
      | inl keyed ↦
          omega (arith, b2, b3, b4, collect-first before_colon buff (sz - i) i keyed (omega arith))
      | inr colon ↦ rw (stays before_colon buff (sz - i) i colon) (
          omega (
            arith,
            collect-first in_separator buff (sz - i) i (separates (byte_at buff i) colon)
                (omega arith),
            collect-bounds in_line buff (sz - (collect in_separator buff (sz - i) i).1)
                (collect in_separator buff (sz - i) i).1,
          ))
    ]
  where
    separates : (c : ℕ) → before_colon c ≡ false → in_separator c ≡ true
    separates c colon = ground arith

header-bounds : (buff : List ℕ) (sz i : ℕ) → i ≤ (response_header buff sz i).1
unfolding response_header
header-bounds buff sz i =
    let i2 = (collect before_colon buff (sz - i) i).1 in
    let i3 = (collect in_separator buff (sz - i2) i2).1 in
    omega (
      arith,
      collect-bounds before_colon buff (sz - i) i,
      collect-bounds in_separator buff (sz - i2) i2,
      collect-bounds in_line buff (sz - i3) i3,
    )

-- Each round of the loop over the headers takes a byte at least.
response_headers-ends :
    (f : ℕ) (buff : List ℕ) (sz i cursor : ℕ) (d : Dict (List ℕ) (List ℕ))
    → sz - i ≤ f
    → response_headers f buff sz i cursor d ≢ none
unfolding response_headers
response_headers-ends zero buff sz i cursor d enough = ground arith
response_headers-ends (suc f) buff sz i cursor d enough = elim (Bool-cases (ltb i sz)) [
  | inl on ↦
      let n = (collect is_crlf_byte buff (sz - i) i).1 in
      let ((key, value), next) = response_header buff sz n in
      let rest =
        response_headers-ends f buff sz next cursor (kept key value d) (
          omega
            (arith, later n (ltb→lt i sz on) (collect-bounds is_crlf_byte buff (sz - i) i).0)) in
      rw on (
        either (n - i == 4) (if n == sz then 0 else n)
          (response_headers f buff sz next cursor (kept key value d)) rest)
  | inr stop ↦ rw stop (λ e. absurd (ground arith))
]
  where
    later : (n : ℕ) → i < sz → i ≤ n → i < (response_header buff sz n).1
    later n inside up = elim (Bool-cases (ltb i n)) [
      | inl moved ↦ omega (arith, ltb→lt i n moved, header-bounds buff sz n)
      | inr stayed ↦
          let same : i ≡ n = ground arith in omega (arith, header-advances buff sz n (omega arith))
    ]

    either :
        (b : Bool) (m : ℕ) (o : Option (Dict (List ℕ) (List ℕ) × ℕ))
        → o ≢ none
        → (if b then some (d, m) else o) ≢ none
    either true m o rest = λ e. absurd (ground arith)
    either false m o rest = rest

on_headers-ends :
    (to_upper sha1_digest base64_encode : List ℕ → List ℕ) (required : List ℕ)
    (o : Option (Dict (List ℕ) (List ℕ) × ℕ))
    → o ≢ none
    → on_headers to_upper sha1_digest base64_encode required o ≢ unanswered
on_headers-ends to_upper sha1_digest base64_encode required none some_headers =
    absurd (some_headers refl)
on_headers-ends to_upper sha1_digest base64_encode required (some (headers, cursor)) some_headers =
    λ e. absurd (ground arith)

on_result-ends :
    (c : ClientWebSocket) (received : ℕ) (sends : List SendAnswer) (r : Result) (d : Directive)
    → Goes 8 sends
    → on_result c received sends r d ≢ never_ends
on_result-ends c received sends r Directive.more goes = λ e. absurd (ground arith)
on_result-ends c received sends r Directive.take_ready_message goes =
    elim (Bool-cases (r.cursor == received)) [
      | inl all_taken ↦ rw all_taken (λ e. absurd (ground arith))
      | inr rest_left ↦ rw rest_left (λ e. absurd (ground arith))
    ]
on_result-ends c received sends r Directive.close_with_code goes =
    by_answer (force_send sends (client_close_frame r.c_code))
      (force_send-close sends r.c_code goes)
  where
    by_answer : (o : Option (Bool × List ℕ)) → o ≢ none → closed_after c o ≢ never_ends
    by_answer none some_answer = absurd (some_answer refl)
    by_answer (some (all, sent)) some_answer = λ e. absurd (ground arith)
on_result-ends c received sends r Directive.continue goes = λ e. absurd (ground arith)

on_outcome-ends :
    (c : ClientWebSocket) (received : ℕ) (sends : List SendAnswer) (out : Outcome)
    → Goes 8 sends
    → out ≢ starved
    → on_outcome c received sends out ≢ never_ends
on_outcome-ends c received sends (returned p r) goes ends =
    on_result-ends (record c { stream_processor = p }) received sends r r.directive goes
on_outcome-ends c received sends (thrown p) goes ends = λ e. absurd (ground arith)
on_outcome-ends c received sends starved goes ends = absurd (ends refl)

parse_input-ends :
    (c : ClientWebSocket) (n : ℕ) (sends : List SendAnswer)
    → Goes 8 sends
    → parse_input c n sends ≢ never_ends
parse_input-ends c zero sends goes = λ e. absurd (ground arith)
parse_input-ends c (suc n) sends goes =
    on_outcome-ends c (suc n) sends (Client.parse c.recv_buffer (suc n) c.cursor c.stream_processor)
      goes (client_parse_ends c.recv_buffer (suc n) c.cursor c.stream_processor)

read_more-ends :
    (c : ClientWebSocket) (sends : List SendAnswer) (o : Option (Option (List ℕ)))
    → Goes 8 sends
    → o ≢ none
    → read_more c sends o ≢ never_ends
read_more-ends c sends none goes some_answer = absurd (some_answer refl)
read_more-ends c sends (some none) goes some_answer = λ e. absurd (ground arith)
read_more-ends c sends (some (some bytes)) goes some_answer =
    parse_input-ends (store c (some (some bytes))) (length bytes) sends goes

on_reply-ends : (c : ClientWebSocket) (r : Reply) → r ≢ unanswered → on_reply c r ≢ never_ends
on_reply-ends c (answered true cursor) ends = λ e. absurd (ground arith)
on_reply-ends c (answered false cursor) ends = λ e. absurd (ground arith)
on_reply-ends c unanswered ends = absurd (ends refl)

module _ (to_upper : List ℕ → List ℕ) (sha1_digest base64_encode : List ℕ → List ℕ) where
  on_response-ends :
      (c : ClientWebSocket) (o : Option (Option (List ℕ)))
      → o ≢ none
      → on_response to_upper sha1_digest base64_encode c o ≢ unanswered
  unfolding on_response response_ok
  on_response-ends c none some_answer = absurd (some_answer refl)
  on_response-ends c (some none) some_answer = λ e. absurd (ground arith)
  on_response-ends c (some (some [])) some_answer = λ e. absurd (ground arith)
  on_response-ends c (some (some (b ∷ bytes))) some_answer =
      let n = length (b ∷ bytes) in
      let required = base64_encode (sha1_digest (c.sec_web_socket_key ++ uid)) in
      let read = response_headers-ends n (b ∷ bytes) n 34 c.cursor [] (omega arith) in
      by_tests (ltb n 113) (starts_with status_line (b ∷ bytes))
        (on_headers to_upper sha1_digest base64_encode required
          (response_headers n (b ∷ bytes) n 34 c.cursor []))
        (on_headers-ends to_upper sha1_digest base64_encode required
          (response_headers n (b ∷ bytes) n 34 c.cursor []) read)
    where
      by_tests :
          (short starts : Bool) (r : Reply)
          → r ≢ unanswered
          → (if short
              then answered false c.cursor
              else if starts
              then r
              else answered false c.cursor)
            ≢ unanswered
      by_tests true starts r ends = λ e. absurd (ground arith)
      by_tests false true r ends = ends
      by_tests false false r ends = λ e. absurd (ground arith)

  on_state-ends :
      (c : ClientWebSocket) (recvs : List RecvAnswer) (sends : List SendAnswer)
      (state : ClientState)
      → Comes recvs
      → Goes 8 sends
      → on_state to_upper sha1_digest base64_encode c recvs sends state ≢ never_ends
  unfolding server_response_ok
  on_state-ends c recvs sends ClientState.connect comes goes = λ e. absurd (ground arith)
  on_state-ends c recvs sends ClientState.upgrade comes goes = λ e. absurd (ground arith)
  on_state-ends c recvs sends ClientState.handshake comes goes =
      let o = force_recv (length c.recv_buffer) recvs in
      on_reply-ends (store c o) (on_response to_upper sha1_digest base64_encode c o)
        (on_response-ends c o (force_recv-ends (length c.recv_buffer) recvs comes))
  on_state-ends c recvs sends ClientState.messaging comes goes = elim (Bool-cases (c.cursor == 0)) [
    | inl empty ↦ rw empty (
        read_more-ends c sends (force_recv (length c.recv_buffer) recvs) goes
          (force_recv-ends (length c.recv_buffer) recvs comes))
    | inr rest_left ↦ rw rest_left (parse_input-ends c (length c.recv_buffer) sends goes)
  ]
  on_state-ends c recvs sends ClientState.init comes goes = λ e. absurd (ground arith)
  on_state-ends c recvs sends ClientState.handshake_failed comes goes = λ e. absurd (ground arith)
  on_state-ends c recvs sends ClientState.comm_error comes goes = λ e. absurd (ground arith)
  on_state-ends c recvs sends ClientState.closed comes goes = λ e. absurd (ground arith)

  -- Without TLS: a call of handleInput returns or throws, in every state of the client, whatever it
  -- receives, where the system does not answer with EAGAIN forever: recv gives bytes, the end of
  -- the stream or another error in the end, and send takes the eight bytes of a close frame, in one
  -- piece or in several, or fails. The loops of force_recv and force_send, the one of responseOK
  -- and the calls of parse all end then.
  pub handle_input_ends :
      (c : ClientWebSocket) (recvs : List RecvAnswer) (sends : List SendAnswer)
      → Comes recvs
      → Goes 8 sends
      → handle_input to_upper sha1_digest base64_encode c recvs sends ≢ never_ends
  unfolding handle_input
  handle_input_ends c recvs sends comes goes = on_state-ends c recvs sends c.state comes goes

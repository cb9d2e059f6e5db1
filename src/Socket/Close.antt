-- ===== src/Socket/Close.antt =====
-- `onCloseMessage` of include/WebSocket.h: what a close message is answered with.
use lapp_s.Common.{
  ℕ, ◌+◌, ◌*◌, ◌≤◌, ◌<◌, true, false, List, IsOctets, ◌∙◌, [], ◌∷◌, ◌≡◌, ◌≢◌, ◌⊎◌, refl, ap, arith,
  none, some, ltb, length, swap_bytes, of_le_bytes,
}
use lapp_s.Protocol.CloseCode
use lapp_s.Parser.Utf8.{is_valid_utf8}
use lapp_s.Parser.Utf8.Overrun.{is_valid_utf8-longer}
use lapp_s.Parser.Utf8.Scalar.{IsUtf8}
use lapp_s.Parser.Utf8.Text.{is_valid_utf8_iff}
use lapp_s.Socket.{Socket, done, unsafe, close_socket, on_close_message, reply_code}

-- Section 7.4 of RFC 6455: the codes that an endpoint may set in a close frame.
abbrev pub Assigned : ℕ → Type 0
Assigned c = (1000 ≤ c) × (c ≤ 1011) × (c ≢ 1004) × (c ≢ 1005) × (c ≢ 1006)

abbrev pub Registered : ℕ → Type 0
Registered c = (3000 ≤ c) × (c ≤ 4999)

abbrev pub Answers : ℕ → ℕ → Type 0
Answers c code =
    (Assigned c × (code ≡ CloseCode.normal))
    ⊎ (Registered c × (code ≡ c))
    ⊎ ((¬ Assigned c) × (¬ Registered c) × (code ≡ CloseCode.protocol_violation))

reply_code-Answers : (c : ℕ) → Answers c (reply_code c)
reply_code-Answers c = ground arith

network_order :
    (high low : ℕ)
    → high < 256
    → low < 256
    → swap_bytes 2 (of_le_bytes (high ∷ low ∷ [])) ≡ 256 * high + low
network_order high low h l = omega arith

-- A close message that is a code alone, two octets, is answered with a normal closure when the
-- code is assigned, with the same code when it is in the range for libraries and applications,
-- and else with a protocol violation.
pub on_close_message-code :
    (s : Socket) (high low : ℕ)
    → high < 256
    → low < 256
    → (code : ℕ) × (on_close_message s (high ∷ low ∷ []) ≡ done (close_socket s code) false)
      × Answers (256 * high + low) code
unfolding on_close_message
on_close_message-code s high low h l = (
  reply_code (256 * high + low),
  ap (λ c. done (close_socket s (reply_code c)) false) (network_order high low h l),
  reply_code-Answers (256 * high + low),
)

-- A close message of a code and a reason of octets, not empty, that is UTF-8 as RFC 3629 defines
-- it: the reason is found valid with its own length, but the check, which is given the length of
-- the whole message, finds no error in it and reads past the end of the message. What the message
-- is answered with depends on the memory behind it.
pub on_close_message-reason :
    (s : Socket) (high low : ℕ) (reason : List ℕ)
    → IsOctets reason
    → 0 < length reason
    → IsUtf8 reason
    → (is_valid_utf8 reason (length reason) ≡ some true)
      × (on_close_message s (high ∷ low ∷ reason) ≡ unsafe)
unfolding on_close_message
on_close_message-reason s high low reason octets some_left text =
    let valid = (is_valid_utf8_iff reason octets).1 text in
    let past : is_valid_utf8 reason (length (high ∷ low ∷ reason)) ≡ none =
      ap (is_valid_utf8 reason) (omega arith) ∙ is_valid_utf8-longer reason 2 (omega arith) valid in
    let long : ltb 2 (length (high ∷ low ∷ reason)) ≡ true = ground arith in
    let not_short : ltb (length (high ∷ low ∷ reason)) 2 ≡ false = ground arith in
    (valid, rw not_short (rw long (rw past refl)))

-- ===== src/Socket/Text.antt =====
-- Text messages at `onMessage` of include/WebSocket.h.
use lapp_s.Common.{
  true, false, Option, some, none, List, ◌≡◌, ◌⊎◌, inl, inr, refl, arith, length, IsOctets, Bool, ℕ,
}
use lapp_s.Protocol.{WsEvent}
use lapp_s.Protocol.OpCode
use lapp_s.Protocol.CloseCode
use lapp_s.Parser.Utf8.{is_valid_utf8}
use lapp_s.Parser.Utf8.Safety.{is_valid_utf8-safe}
use lapp_s.Parser.Utf8.Scalar.{IsUtf8}
use lapp_s.Parser.Utf8.Text.{is_valid_utf8_iff}
use lapp_s.Socket.{Socket, on_message, update_in_stats, done, enqueue, close_socket}

abbrev pub text_event : List ℕ → WsEvent
text_event message = record { type = OpCode.text; message = message }

module _ (s : Socket) (message : List ℕ) (octets : IsOctets message) where
  abbrev seen : Socket
  seen = update_in_stats s (length message)

  -- The application gets the text as it is, or the connection is closed for bad data.
  abbrev pub Decided : Type 0
  Decided =
      (IsUtf8 message
        × (on_message s (text_event message) ≡ done (enqueue seen OpCode.text message) true))
      ⊎ (¬ (IsUtf8 message)
          × (on_message s (text_event message) ≡ done (close_socket seen CloseCode.bad_data) false))

  -- A text message of octets, on a socket with an application: if it is UTF-8 as RFC 3629 defines it,
  -- it is queued for the application as it is and the socket goes on; if it is not, a close message
  -- for bad data is queued, and the socket takes no more input.
  pub on_message-Decided : s.has_application ≡ true → Decided
  unfolding on_message update_in_stats
  on_message-Decided app = by_answer (is_valid_utf8 message (length message)) refl
    where
      by_answer : (o : Option Bool) → is_valid_utf8 message (length message) ≡ o → Decided
      by_answer none e = absurd (is_valid_utf8-safe message (length message) (omega arith) e)
      by_answer (some true) e = inl ((is_valid_utf8_iff message octets).0 e, rw (app, e) refl)
      by_answer (some false) e = inr (
        λ text. absurd (ground (arith, (is_valid_utf8_iff message octets).1 text)),
        rw (app, e) refl,
      )

-- ===== src/Tests/Close.antt =====
-- Close messages and texts at the server's socket, and the check of UTF-8.
use lapp_s.Common.{ℕ, List, refl, ◌↔◌, ◌≡◌, [], ◌∷◌, false, true, some, arith}
use lapp_s.Parser.Utf8.{is_valid_utf8}
use lapp_s.Parser.Utf8.Scalar.{IsUtf8, encode}
use lapp_s.Parser.Utf8.Text.{is_valid_utf8_iff}
use lapp_s.Socket.{done, unsafe, close_socket, on_close_message}
use lapp_s.Socket.Close.{Answers, on_close_message-code, on_close_message-reason}
use lapp_s.Socket.Text.{Decided, on_message-Decided}
use lapp_s.Tests.{hi}
use lapp_s.Tests.Session.{socket}

on_close_message-code_example :
    (code : ℕ) × (on_close_message socket (3 ∷ 232 ∷ []) ≡ done (close_socket socket code) false)
    × Answers 1000 code
on_close_message-code_example = on_close_message-code socket 3 232 (omega arith) (omega arith)

on_close_message-reason_example :
    (is_valid_utf8 hi 2 ≡ some true) × (on_close_message socket (3 ∷ 232 ∷ hi) ≡ unsafe)
unfolding encode
on_close_message-reason_example =
    on_close_message-reason socket 3 232 hi (omega arith) (omega arith)
      (72 ∷ 105 ∷ [], (omega arith, (omega arith, tt)), refl)

-- The letters e with an accent, the euro sign and a face.
abbrev letters : List ℕ
letters = 195 ∷ 169 ∷ 226 ∷ 130 ∷ 172 ∷ 240 ∷ 159 ∷ 152 ∷ 128 ∷ []

is_valid_utf8_iff_example : (is_valid_utf8 letters 9 ≡ some true) ↔ IsUtf8 letters
is_valid_utf8_iff_example = is_valid_utf8_iff letters (omega arith)

on_message-Decided_example : Decided socket letters (omega arith)
on_message-Decided_example = on_message-Decided socket letters (omega arith) refl

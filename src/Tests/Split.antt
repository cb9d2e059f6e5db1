-- ===== src/Tests/Split.antt =====
-- A read of the server's socket: a text in two frames, with a ping between them.
use lapp_s.Common.{List, [], ◌∷◌, refl, inl, inr, arith}
use lapp_s.Protocol.{WsEvent}
use lapp_s.Socket.{process_input}
use lapp_s.Server.Fragments.Pieces.{Piece, part, control}
use lapp_s.Socket.Fragmented.{Answered, process_input-Answered}
use lapp_s.Tests.{idle-IsIdle, key}
use lapp_s.Tests.Session.{socket}

abbrev pieces : List Piece
pieces = control key 9 (7 ∷ []) ∷ part key (105 ∷ []) ∷ []

abbrev events : List WsEvent
events = record { type = 9; message = 7 ∷ [] } ∷ record { type = 2; message = 72 ∷ 105 ∷ [] } ∷ []

process_input-Answered_example : Answered 1000 socket events (
    process_input
      (2 ∷ 129 ∷ 1 ∷ 2 ∷ 3 ∷ 4 ∷ 73 ∷ 137 ∷ 129 ∷ 1 ∷ 2 ∷ 3 ∷ 4 ∷ 6 ∷ 0 ∷ 129 ∷ 1 ∷ 2 ∷ 3 ∷ 4 ∷ 104
        ∷ 128 ∷ 128 ∷ 1 ∷ 2 ∷ 3 ∷ 4 ∷ [])
      socket)
process_input-Answered_example =
    process_input-Answered 1000 2 socket key (72 ∷ []) pieces key [] (omega arith) refl refl
      idle-IsIdle (omega arith) (omega arith) (omega arith) (omega arith) (omega arith) (inr refl)
      ((
        (omega arith, omega arith, inr (inl refl), omega arith, inr (omega arith)),
        ((omega arith, omega arith), tt),
      ))
      (omega arith) (inr (inr (inl (refl, omega arith))), (inr (inl (refl, omega arith)), tt))

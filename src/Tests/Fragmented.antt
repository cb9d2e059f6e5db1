-- ===== src/Tests/Fragmented.antt =====
-- A text of two letters in three frames, with a ping between the first and the second.
use lapp_s.Common.{ℕ, List, [], ◌∷◌, refl, inl, inr, arith}
use lapp_s.Server
use lapp_s.Server.Fragments.Pieces.{Piece, part, control}
use lapp_s.Server.Fragments.Whole.{Ends, fragmented_message_received}
use lapp_s.Tests.{idle, idle-IsIdle, key}

abbrev read : List ℕ
read =
    1 ∷ 129 ∷ 1 ∷ 2 ∷ 3 ∷ 4 ∷ 73 ∷ 137 ∷ 129 ∷ 1 ∷ 2 ∷ 3 ∷ 4 ∷ 6 ∷ 0 ∷ 129 ∷ 1 ∷ 2 ∷ 3 ∷ 4 ∷ 104
    ∷ 128 ∷ 128 ∷ 1 ∷ 2 ∷ 3 ∷ 4 ∷ 137 ∷ []

abbrev pieces : List Piece
pieces = control key 9 (7 ∷ []) ∷ part key (105 ∷ []) ∷ []

fragmented_message_received_example :
    Ends read 1000
      (Server.parse read 28 0 idle)
      (record { type = 9; message = 7 ∷ [] } ∷ record { type = 1; message = 72 ∷ 105 ∷ [] } ∷ [])
      27
fragmented_message_received_example =
    fragmented_message_received read (omega arith) 1000 1 (omega arith) key (omega arith) []
      (omega arith) (137 ∷ []) 0 key (72 ∷ []) pieces idle (omega arith) (omega arith) (inl refl)
      ((
        (omega arith, omega arith, inr (inl refl), omega arith, inr (omega arith)),
        ((omega arith, omega arith), tt),
      ))
      idle-IsIdle (omega arith) refl

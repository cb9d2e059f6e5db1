-- ===== src/Parser/Buffers.antt =====
-- `getBuffer` and `returnBuffer` of include/WSStreamParser.h.
use lapp_s.Common.{ℕ, List, [], ◌∷◌, ◌≡◌, refl}
use lapp_s.Parser.{Parser, take_buffer, get_buffer}

-- All that `get_buffer` may change is the queue.
pub record SameState (p q : Parser) : Type 0 where
  pub state : q.state ≡ p.state
  pub opcodes : q.opcodes ≡ p.opcodes
  pub max_msg_size : q.max_msg_size ≡ p.max_msg_size
  pub message_frames : q.message_frames ≡ p.message_frames

take_buffer-SameState : (p : Parser) (l : List (List ℕ)) → SameState p (take_buffer p l).1
unfolding take_buffer
take_buffer-SameState p [] = record {
  state = refl;
  opcodes = refl;
  max_msg_size = refl;
  message_frames = refl;
}
take_buffer-SameState p (b ∷ l) = record {
  state = refl;
  opcodes = refl;
  max_msg_size = refl;
  message_frames = refl;
}

pub get_buffer-SameState : (p : Parser) → SameState p (get_buffer p).1
unfolding get_buffer
get_buffer-SameState p = take_buffer-SameState p p.buffer_queue

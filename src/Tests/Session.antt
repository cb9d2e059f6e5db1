-- ===== src/Tests/Session.antt =====
-- A read with two messages.
use lapp_s.Common.{[], ◌∷◌, refl, true, false, inl, inr, arith}
use lapp_s.Socket.{Socket, Phase, process_input}
use lapp_s.Socket.Session.{Sent, Served, process_input-Served}
use lapp_s.Tests.{idle, idle-IsIdle, key, hi}

abbrev pub socket : Socket
socket = record {
  phase = Phase.messaging;
  no_input = false;
  has_application = true;
  parser = idle;
  events = [];
  message_count = 5;
  bytes_in = 7;
}

abbrev binary : Sent
binary = record { key = key; opcode = 2; payload = hi }

abbrev ping : Sent
ping = record { key = key; opcode = 9; payload = 7 ∷ [] }

process_input-Served_example : Served 1000 socket (binary ∷ ping ∷ []) (
    process_input
      (130 ∷ 130 ∷ 1 ∷ 2 ∷ 3 ∷ 4 ∷ 73 ∷ 107 ∷ 137 ∷ 129 ∷ 1 ∷ 2 ∷ 3 ∷ 4 ∷ 6 ∷ [])
      socket)
process_input-Served_example =
    process_input-Served 1000 socket binary (ping ∷ []) (omega arith) refl refl idle-IsIdle (
      (omega arith, omega arith, inr (inl (refl, omega arith)), λ h. absurd (omega arith)),
      (
        (omega arith, omega arith, inr (inr (inl (refl, omega arith))), λ h. absurd (omega arith)),
        tt,
      ),
    )

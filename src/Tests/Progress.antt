-- ===== src/Tests/Progress.antt =====
-- The server's socket takes a read with a frame that is cut off.
use lapp_s.Common.{[], ◌∷◌, ◌≢◌}
use lapp_s.Socket.{process_input, out_of_fuel}
use lapp_s.Socket.Progress.{process_input_ends}
use lapp_s.Tests.Session.{socket}

process_input_ends_example :
    process_input (130 ∷ 129 ∷ 1 ∷ 2 ∷ 3 ∷ 4 ∷ 73 ∷ 130 ∷ 130 ∷ 1 ∷ 2 ∷ []) socket ≢ out_of_fuel
process_input_ends_example =
    process_input_ends (130 ∷ 129 ∷ 1 ∷ 2 ∷ 3 ∷ 4 ∷ 73 ∷ 130 ∷ 130 ∷ 1 ∷ 2 ∷ []) socket

-- ===== src/Tests/Sending.antt =====
-- The frames that are sent.
use lapp_s.Common.{ℕ, ◌≤◌, ◌<◌, ◌≡◌, ◌⊎◌, List, [], ◌∷◌, ◌++◌, arith}
use lapp_s.ServerMessage.{server_message, make_message_header, fragmented_server_message}
use lapp_s.ServerMessage.Fragments.{IsFragmented, fragmented_server_message_lem}
use lapp_s.ServerMessage.Frames.{server_message_layout}
use lapp_s.Tests.{hi}

fragmented_server_message_lem_example :
    ((2 < 2784) × (fragmented_server_message [] 1 hi ≡ server_message 1 hi ∷ []))
    ⊎ ((2784 ≤ 2)
        × (fs : List (List ℕ)) × (fragmented_server_message [] 1 hi ≡ fs)
        × IsFragmented 1 hi fs)
fragmented_server_message_lem_example = fragmented_server_message_lem [] 1 hi (omega arith)

server_message_layout_example :
    (server_message 1 hi ≡ 129 ∷ 2 ∷ 72 ∷ 105 ∷ [])
    × (server_message 1 hi ≡ make_message_header 1 2 ++ hi)
server_message_layout_example = server_message_layout 1 hi (omega arith)

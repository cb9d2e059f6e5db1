-- ===== src/Tests/Receiving.antt =====
-- Frames at the two parsers.
use lapp_s.Common.{◌+◌, ◌≡◌, [], ◌∷◌, ◌++◌, refl, sym, ap, length, inl, arith}
use lapp_s.Protocol.{State, Directive}
use lapp_s.Protocol.CloseCode
use lapp_s.Parser.{Parser}
use lapp_s.Parser.Machine.{parse_on, returned}
use lapp_s.Server.{server_side}
use lapp_s.Server.Receive.{Delivers, masked_frame_received}
use lapp_s.Client.{client_side}
use lapp_s.Client.Receive
use lapp_s.ServerMessage.{server_message}
use lapp_s.Protocol.{put_length}
use lapp_s.ClientSocket.{client_frame}
use lapp_s.ClientSocket.Masking.{client_frame_lem}
use lapp_s.ClientSocket.Delivery.{client_frame_received, client_frame-starves}
use lapp_s.Tests.{idle, idle-IsIdle, key, hi, input}

masked_frame_received_example : Delivers 1000 1 hi 8 (parse_on server_side 1 input 9 0 idle)
masked_frame_received_example =
    masked_frame_received 0 input 0 1 1000 key hi (137 ∷ []) idle (omega arith) (omega arith)
      (omega arith) idle-IsIdle (omega arith, inl (inl refl)) (λ h. absurd (omega arith)) refl

sent : client_frame 67305985 1 hi ≡ 129 ∷ 130 ∷ 1 ∷ 2 ∷ 3 ∷ 4 ∷ 73 ∷ 107 ∷ []
sent = client_frame_lem 67305985 1 72 (105 ∷ []) (omega arith) (omega arith) (omega arith)

client_frame_received_example :
    Delivers 1000 1 hi
      (0 + length (client_frame 67305985 1 hi))
      (parse_on server_side 1 input 9 0 idle)
client_frame_received_example =
    client_frame_received 0 input 0 67305985 1 72 1000 (105 ∷ []) (137 ∷ []) idle (omega arith)
      (omega arith) (omega arith) idle-IsIdle (omega arith, inl (inl refl))
      (λ h. absurd (omega arith)) (sym (ap (λ t. t ++ (137 ∷ [])) sent))

server_message_received_example :
    Receive.Delivers 1000 1 hi 4 (parse_on client_side 1 (129 ∷ 2 ∷ 72 ∷ 105 ∷ []) 4 0 idle)
unfolding server_message put_length
server_message_received_example =
    Receive.server_message_received 0 (129 ∷ 2 ∷ 72 ∷ 105 ∷ []) 0 1 72 1000 hi [] (105 ∷ []) idle
      idle-IsIdle (omega arith, inl (inl refl)) (λ h. absurd (omega arith)) refl refl

client_frame-starves_example :
    (q : Parser) × (parse_on server_side 1 (129 ∷ 128 ∷ []) 2 0 idle
      ≡ returned q (record { cursor = 0; directive = Directive.more; c_code = CloseCode.normal }))
    × (q.state ≡ State.read_mask_0)
unfolding client_frame put_length
client_frame-starves_example =
    client_frame-starves 0 67305985 1 1000 idle idle-IsIdle (inl (inl refl))

-- ===== src/Tests.antt =====
-- The properties at concrete inputs.
pub mod Receiving
pub mod Sending
pub mod Headers
pub mod Session
pub mod Close
pub mod Progress
pub mod Services
pub mod Numbers
pub mod Channels
pub mod Meeting
pub mod Opening
pub mod Statistics
pub mod Pools
pub mod Queues
pub mod Fragmented
pub mod Split
use lapp_s.Common.{ℕ, List, [], ◌∷◌, refl}
use lapp_s.Protocol.{Four}
use lapp_s.Parser.{Parser, new_parser}
use lapp_s.Parser.Delivery.{IsIdle}

abbrev pub idle : Parser
idle = record (new_parser 4) { max_msg_size = 1000 }

pub idle-IsIdle : IsIdle 1000 idle
unfolding new_parser
idle-IsIdle = record { state = refl; opcodes = refl; max_msg_size = refl }

abbrev pub key : Four
key = record { b0 = 1; b1 = 2; b2 = 3; b3 = 4 }

abbrev pub hi : List ℕ
hi = 72 ∷ 105 ∷ []

-- `hi` under `key`, with a byte of another frame behind it
abbrev pub input : List ℕ
input = 129 ∷ 130 ∷ 1 ∷ 2 ∷ 3 ∷ 4 ∷ 73 ∷ 107 ∷ 137 ∷ []

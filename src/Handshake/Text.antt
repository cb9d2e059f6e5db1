-- ===== src/Handshake/Text.antt =====
-- The strings of include/Shakespeer.h and of the handshake of include/ClientWebSocket.h, as bytes.
use lapp_s.Common.{ℕ, List, [], ◌∷◌}

abbrev pub connection_name : List ℕ
connection_name = b'C' ∷ b'o' ∷ b'n' ∷ b'n' ∷ b'e' ∷ b'c' ∷ b't' ∷ b'i' ∷ b'o' ∷ b'n' ∷ []

abbrev pub upgrade_name : List ℕ
upgrade_name = b'U' ∷ b'p' ∷ b'g' ∷ b'r' ∷ b'a' ∷ b'd' ∷ b'e' ∷ []

abbrev pub version_name : List ℕ
version_name =
    b'S' ∷ b'e' ∷ b'c' ∷ b'-' ∷ b'W' ∷ b'e' ∷ b'b' ∷ b'S' ∷ b'o' ∷ b'c' ∷ b'k' ∷ b'e' ∷ b't' ∷ b'-'
    ∷ b'V' ∷ b'e' ∷ b'r' ∷ b's' ∷ b'i' ∷ b'o' ∷ b'n' ∷ []

abbrev pub key_name : List ℕ
key_name =
    b'S' ∷ b'e' ∷ b'c' ∷ b'-' ∷ b'W' ∷ b'e' ∷ b'b' ∷ b'S' ∷ b'o' ∷ b'c' ∷ b'k' ∷ b'e' ∷ b't' ∷ b'-'
    ∷ b'K' ∷ b'e' ∷ b'y' ∷ []

abbrev pub upgrade_token : List ℕ
upgrade_token = b'U' ∷ b'P' ∷ b'G' ∷ b'R' ∷ b'A' ∷ b'D' ∷ b'E' ∷ []

abbrev pub websocket_token : List ℕ
websocket_token = b'W' ∷ b'E' ∷ b'B' ∷ b'S' ∷ b'O' ∷ b'C' ∷ b'K' ∷ b'E' ∷ b'T' ∷ []

abbrev pub version_13 : List ℕ
version_13 = b'1' ∷ b'3' ∷ []

abbrev pub uid : List ℕ
uid =
    b'2' ∷ b'5' ∷ b'8' ∷ b'E' ∷ b'A' ∷ b'F' ∷ b'A' ∷ b'5' ∷ b'-' ∷ b'E' ∷ b'9' ∷ b'1' ∷ b'4' ∷ b'-'
    ∷ b'4' ∷ b'7' ∷ b'D' ∷ b'A' ∷ b'-' ∷ b'9' ∷ b'5' ∷ b'C' ∷ b'A' ∷ b'-' ∷ b'C' ∷ b'5' ∷ b'A'
    ∷ b'B' ∷ b'0' ∷ b'D' ∷ b'C' ∷ b'8' ∷ b'5' ∷ b'B' ∷ b'1' ∷ b'1' ∷ []

abbrev pub switching : List ℕ
switching =
    b'H' ∷ b'T' ∷ b'T' ∷ b'P' ∷ b'/' ∷ b'1' ∷ b'.' ∷ b'1' ∷ b' ' ∷ b'1' ∷ b'0' ∷ b'1' ∷ b' ' ∷ b'S'
    ∷ b'w' ∷ b'i' ∷ b't' ∷ b'c' ∷ b'h' ∷ b'i' ∷ b'n' ∷ b'g' ∷ b' ' ∷ b'P' ∷ b'r' ∷ b'o' ∷ b't'
    ∷ b'o' ∷ b'c' ∷ b'o' ∷ b'l' ∷ b's' ∷ 13 ∷ 10 ∷ b'U' ∷ b'p' ∷ b'g' ∷ b'r' ∷ b'a' ∷ b'd' ∷ b'e'
    ∷ b':' ∷ b' ' ∷ b'w' ∷ b'e' ∷ b'b' ∷ b's' ∷ b'o' ∷ b'c' ∷ b'k' ∷ b'e' ∷ b't' ∷ 13 ∷ 10 ∷ b'C'
    ∷ b'o' ∷ b'n' ∷ b'n' ∷ b'e' ∷ b'c' ∷ b't' ∷ b'i' ∷ b'o' ∷ b'n' ∷ b':' ∷ b' ' ∷ b'U' ∷ b'p'
    ∷ b'g' ∷ b'r' ∷ b'a' ∷ b'd' ∷ b'e' ∷ 13 ∷ 10 ∷ b'S' ∷ b'e' ∷ b'r' ∷ b'v' ∷ b'e' ∷ b'r' ∷ b':'
    ∷ b' ' ∷ b'L' ∷ b'A' ∷ b'p' ∷ b'p' ∷ b'S' ∷ b'/' ∷ b'0' ∷ b'.' ∷ b'7' ∷ b'.' ∷ b'0' ∷ 13 ∷ 10
    ∷ []

abbrev pub protocol_name : List ℕ
protocol_name =
    b'S' ∷ b'e' ∷ b'c' ∷ b'-' ∷ b'W' ∷ b'e' ∷ b'b' ∷ b'S' ∷ b'o' ∷ b'c' ∷ b'k' ∷ b'e' ∷ b't' ∷ b'-'
    ∷ b'P' ∷ b'r' ∷ b'o' ∷ b't' ∷ b'o' ∷ b'c' ∷ b'o' ∷ b'l' ∷ b':' ∷ b' ' ∷ []

abbrev pub accept_name : List ℕ
accept_name =
    b'S' ∷ b'e' ∷ b'c' ∷ b'-' ∷ b'W' ∷ b'e' ∷ b'b' ∷ b'S' ∷ b'o' ∷ b'c' ∷ b'k' ∷ b'e' ∷ b't' ∷ b'-'
    ∷ b'A' ∷ b'c' ∷ b'c' ∷ b'e' ∷ b'p' ∷ b't' ∷ b':' ∷ b' ' ∷ []

abbrev pub raw_name : List ℕ
raw_name = b'r' ∷ b'a' ∷ b'w' ∷ []

abbrev pub lapps_name : List ℕ
lapps_name = b'L' ∷ b'A' ∷ b'p' ∷ b'p' ∷ b'S' ∷ []

abbrev pub forbidden : List ℕ
forbidden =
    b'H' ∷ b'T' ∷ b'T' ∷ b'P' ∷ b'/' ∷ b'1' ∷ b'.' ∷ b'1' ∷ b' ' ∷ b'4' ∷ b'0' ∷ b'3' ∷ b' ' ∷ b'F'
    ∷ b'o' ∷ b'r' ∷ b'b' ∷ b'i' ∷ b'd' ∷ b'd' ∷ b'e' ∷ b'n' ∷ []

abbrev pub status_line : List ℕ
status_line =
    b'H' ∷ b'T' ∷ b'T' ∷ b'P' ∷ b'/' ∷ b'1' ∷ b'.' ∷ b'1' ∷ b' ' ∷ b'1' ∷ b'0' ∷ b'1' ∷ b' ' ∷ b'S'
    ∷ b'w' ∷ b'i' ∷ b't' ∷ b'c' ∷ b'h' ∷ b'i' ∷ b'n' ∷ b'g' ∷ b' ' ∷ b'P' ∷ b'r' ∷ b'o' ∷ b't'
    ∷ b'o' ∷ b'c' ∷ b'o' ∷ b'l' ∷ b's' ∷ 13 ∷ 10 ∷ []

abbrev pub accept_key : List ℕ
accept_key =
    b'S' ∷ b'e' ∷ b'c' ∷ b'-' ∷ b'W' ∷ b'e' ∷ b'b' ∷ b'S' ∷ b'o' ∷ b'c' ∷ b'k' ∷ b'e' ∷ b't' ∷ b'-'
    ∷ b'A' ∷ b'c' ∷ b'c' ∷ b'e' ∷ b'p' ∷ b't' ∷ []

abbrev pub websocket_value : List ℕ
websocket_value = b'w' ∷ b'e' ∷ b'b' ∷ b's' ∷ b'o' ∷ b'c' ∷ b'k' ∷ b'e' ∷ b't' ∷ []

abbrev pub http_1_1 : List ℕ
http_1_1 = b'H' ∷ b'T' ∷ b'T' ∷ b'P' ∷ b'/' ∷ b'1' ∷ b'.' ∷ b'1' ∷ []

abbrev pub host_name : List ℕ
host_name = b'H' ∷ b'o' ∷ b's' ∷ b't' ∷ []

abbrev pub agent_name : List ℕ
agent_name = b'U' ∷ b's' ∷ b'e' ∷ b'r' ∷ b'-' ∷ b'A' ∷ b'g' ∷ b'e' ∷ b'n' ∷ b't' ∷ []

abbrev pub agent : List ℕ
agent = b'L' ∷ b'A' ∷ b'p' ∷ b'p' ∷ b'S' ∷ b'/' ∷ b'0' ∷ b'.' ∷ b'7' ∷ b'.' ∷ b'0' ∷ []

abbrev pub origin_name : List ℕ
origin_name = b'O' ∷ b'r' ∷ b'i' ∷ b'g' ∷ b'i' ∷ b'n' ∷ []

abbrev pub http_prefix : List ℕ
http_prefix = b'h' ∷ b't' ∷ b't' ∷ b'p' ∷ b':' ∷ b'/' ∷ b'/' ∷ []

abbrev pub https_prefix : List ℕ
https_prefix = b'h' ∷ b't' ∷ b't' ∷ b'p' ∷ b's' ∷ b':' ∷ b'/' ∷ b'/' ∷ []

-- ===== src/Server/Fragments/Pieces.antt =====
-- What stands between the first frame of a message and its last one, and the caller of `parse`.
use lapp_s.Common.{
  ℕ, ◌+◌, ◌≤◌, ◌<◌, List, [], ◌∷◌, ◌++◌, ◌≡◌, ◌≢◌, ◌⊎◌, arith, length, length-append, IsOctets,
  some,
}
use lapp_s.Protocol.{Four, WsEvent}
use lapp_s.Protocol.OpCode
use lapp_s.Protocol.Supported.{IsControl}
use lapp_s.Parser.{Parser}
use lapp_s.Parser.Copy.Loop.{IsKey}
use lapp_s.Parser.Machine.{Outcome, returned}
use lapp_s.Server
use lapp_s.Server.{server_side, get_message}
use lapp_s.Server.Fragments.{fragment}
use lapp_s.Server.Fragments.Message.{ready_at}

-- What comes between the first frame and the last one.
pub data Piece : Type 0 where
  part : Four → List ℕ → Piece
  control : Four → ℕ → List ℕ → Piece

abbrev pub bytes_of : List Piece → Four → List ℕ → List ℕ
bytes_of [] k src = fragment 128 k src
bytes_of (part j piece ∷ ps) k src = fragment 0 j piece ++ bytes_of ps k src
bytes_of (control j op piece ∷ ps) k src = fragment (128 + op) j piece ++ bytes_of ps k src

abbrev pub text_of : List Piece → List ℕ → List ℕ
text_of [] src = src
text_of (part j piece ∷ ps) src = piece ++ text_of ps src
text_of (control j op piece ∷ ps) src = text_of ps src

abbrev pub events_of : List Piece → WsEvent → List WsEvent
events_of [] e = e ∷ []
events_of (part j piece ∷ ps) e = events_of ps e
events_of (control j op piece ∷ ps) e = record { type = op; message = piece } ∷ events_of ps e

abbrev pub IsPiece : Piece → Type 0
IsPiece (part j piece) = IsKey j × IsOctets piece
IsPiece (control j op piece) =
    IsKey j
    × IsOctets piece
    × IsControl op
    × (length piece ≤ 125)
    × ((op ≢ OpCode.close) ⊎ (0 < length piece))

abbrev pub ArePieces : List Piece → Type 0
ArePieces [] = Unit
ArePieces (x ∷ ps) = IsPiece x × ArePieces ps

-- A caller that takes each message and calls `parse` again where it was reported, until the last of
-- the events.
pub data Reports (s : List ℕ) : Outcome → List WsEvent → ℕ → Parser → Type 0 where
  final :
      (a q : Parser) (e : WsEvent) (j : ℕ)
      → get_message a ≡ some (q, e)
      → Reports s (returned a (ready_at j)) (e ∷ []) j q
  another :
      (a q r : Parser) (e : WsEvent) (es : List WsEvent) (j n : ℕ)
      → get_message a ≡ some (q, e)
      → 0 < j
      → j < length s
      → Reports s (Server.parse s (length s) j q) es n r
      → Reports s (returned a (ready_at j)) (e ∷ es) n r

pub pieces_short :
    (ps : List Piece) (k : Four) (src : List ℕ) → length ps < length (bytes_of ps k src)
pieces_short [] k src = omega arith
pieces_short (part j piece ∷ ps) k src =
    omega (arith, length-append (fragment 0 j piece) (bytes_of ps k src), pieces_short ps k src)
pieces_short (control j op piece ∷ ps) k src =
    omega (
      arith,
      length-append (fragment (128 + op) j piece) (bytes_of ps k src),
      pieces_short ps k src,
    )

-- ===== src/Tests/Headers.antt =====
-- The operations of the parsers' base class.
use lapp_s.Common.{ℕ, ◌≡◌, ◌≢◌, ◌↔◌, List, [], ◌∷◌, refl, arith}
use lapp_s.Protocol.{Directive}
use lapp_s.Protocol.CloseCode
use lapp_s.Parser.{Parser, new_parser, validate_header}
use lapp_s.Parser.Validate.{Legal, validate_header_iff, validate_header_refused}
use lapp_s.Parser.Copy.{Copying, unmask}
use lapp_s.Parser.Copy.Loop.{bytewise, unmask_lem}
use lapp_s.Server.{double_mask}
use lapp_s.Tests.{idle, key}

-- A continuation with no message begun.
abbrev astray : Parser
astray = record idle { header = record (idle.header) { fin = 1; opcode = 0; msg_size = 5 } }

validate_header_iff_example :
    ((validate_header astray).1.directive ≡ Directive.continue) ↔ Legal 1 0 5 []
unfolding new_parser
validate_header_iff_example = validate_header_iff astray

astray-refused : (validate_header astray).1.directive ≢ Directive.continue
unfolding new_parser validate_header
astray-refused h = ground arith

validate_header_refused_example :
    ((validate_header astray).0 ≡ astray)
    × ((validate_header astray).1.directive ≡ Directive.close_with_code)
    × ((validate_header astray).1.c_code ≡ CloseCode.protocol_violation)
unfolding new_parser
validate_header_refused_example = validate_header_refused astray astray-refused

-- Twenty bytes: three of them are copied one by one, sixteen as two words, and the last by itself.
abbrev bytes : List ℕ
bytes =
    9 ∷ 8 ∷ 7 ∷ 6 ∷ 5 ∷ 4 ∷ 3 ∷ 2 ∷ 1 ∷ 0 ∷ 255 ∷ 254 ∷ 253 ∷ 252 ∷ 251 ∷ 250 ∷ 0 ∷ 1 ∷ 2 ∷ 3 ∷ []

abbrev begun : Copying
begun = record {
  ready = 1;
  at = 0;
  out = 9 ∷ 0 ∷ 0 ∷ 0 ∷ 0 ∷ 0 ∷ 0 ∷ 0 ∷ 0 ∷ 0 ∷ 0 ∷ 0 ∷ 0 ∷ 0 ∷ 0 ∷ 0 ∷ 0 ∷ 0 ∷ 0 ∷ 0 ∷ 0 ∷ [];
}

unmask_lem_example :
    unmask bytes 20 21 0 key (double_mask key) begun
    ≡ bytewise bytes 20 21 0 key (double_mask key) begun
unmask_lem_example =
    unmask_lem bytes 20 21 0 key (double_mask key) (omega arith) (omega arith) refl begun

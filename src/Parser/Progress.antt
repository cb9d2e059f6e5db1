-- ===== src/Parser/Progress.antt =====
-- How the operations of the parsers move the cursor.
pub mod Header
pub mod Machine
use lapp_s.Common.{◌≤◌, ◌≡◌, ◌≢◌}
use lapp_s.Protocol.{Directive, Result}
use lapp_s.Parser.{Parser}

-- Where a step goes on, it has not moved back; and no step but the last reports a message.
abbrev pub Forward : Parser → Parser × Result → Type 0
Forward p x =
    (x.1.directive ≡ Directive.continue → p.cursor ≤ x.0.cursor)
    × (x.1.directive ≢ Directive.take_ready_message)

-- ===== src/Tests/Channels.antt =====
-- A channel with two subscribers.
use lapp_s.Common.{List, [], ◌∷◌, ◌≡◌}
use lapp_s.Broadcast.{new_broadcast}
use lapp_s.Broadcast.Deliveries.{
  Call, subscribes, unsubscribes, sends, run, received, promised, run-promised,
}

abbrev calls : List Call
calls =
    subscribes 5
    ∷ subscribes 6
    ∷ sends (1 ∷ [])
    ∷ unsubscribes 5
    ∷ sends (2 ∷ [])
    ∷ subscribes 5
    ∷ sends (3 ∷ [])
    ∷ []

run-promised_example : received 5 (run calls (new_broadcast 1)).1 ≡ promised 5 calls 0 0
run-promised_example = run-promised 5 calls (new_broadcast 1)

-- ===== src/Broadcast.antt =====
-- include/Broadcast.h and include/Broadcasts.h: the channels that services send to. A subscriber
-- is the address of its socket. The mutexes are left out: a call holds one for its whole body.
pub mod Deliveries
use lapp_s.Common.{
  ℕ, Bool, true, false, Option, some, none, List, [], ◌∷◌, ◌++◌, ◌==◌, if◌then◌else◌, Dict, numbers,
  lookup, emplace,
}

pub record Broadcast : Type 0 where
  pub channel_id : ℕ
  pub subscribers : List ℕ
  pub unsubscribers : List ℕ

abbrev pub new_broadcast : ℕ → Broadcast
new_broadcast chid = record { channel_id = chid; subscribers = []; unsubscribers = [] }

-- The inner loop of `purge`: the first subscriber that is equal goes.
abbrev pub erase_first : ℕ → List ℕ → List ℕ
erase_first handler [] = []
erase_first handler (s ∷ ss) = if s == handler then ss else s ∷ erase_first handler ss

abbrev pub erase_each : List ℕ → List ℕ → List ℕ
erase_each [] subscribers = subscribers
erase_each (u ∷ us) subscribers = erase_each us (erase_first u subscribers)

unfoldable pub purge : Broadcast → Broadcast
purge b = record b { subscribers = erase_each b.unsubscribers b.subscribers; unsubscribers = [] }

unfoldable pub subscribe : Broadcast → ℕ → Broadcast
subscribe b handler = record b { subscribers = handler ∷ b.subscribers }

unfoldable pub unsubscribe : Broadcast → ℕ → Broadcast
unsubscribe b handler = record b { unsubscribers = handler ∷ b.unsubscribers }

-- A message to each of the subscribers, in their order.
abbrev pub send_each : List ℕ → List ℕ → List (ℕ × List ℕ)
send_each [] msg = []
send_each (s ∷ ss) msg = (s, msg) ∷ send_each ss msg

unfoldable pub bcast : Broadcast → List ℕ → Broadcast × List (ℕ × List ℕ)
bcast b msg = let q = purge b in (q, send_each q.subscribers msg)

abbrev pub created : ℕ → Dict ℕ Broadcast → Option Broadcast → Dict ℕ Broadcast × Bool
created bcastid broadcasts none = (emplace numbers bcastid (new_broadcast bcastid) broadcasts, true)
created bcastid broadcasts (some b) = (broadcasts, false)

-- `create` of `Broadcasts`
unfoldable pub create : ℕ → Dict ℕ Broadcast → Dict ℕ Broadcast × Bool
create bcastid broadcasts = created bcastid broadcasts (lookup numbers bcastid broadcasts)

-- `find` of `Broadcasts`, which throws where this is `none`.
unfoldable pub find : ℕ → Dict ℕ Broadcast → Option Broadcast
find bcastid broadcasts = lookup numbers bcastid broadcasts

-- ===== src/MessageQueue.antt =====
-- include/MQRegistry.h, and what include/modules/mqr.h does with it: the queues by the hash of
-- their names. The standard hash is a parameter, and so is `itc::tsbqueue`: a queue, with what a
-- new one is, `send` and `try_recv`. A queue is never replaced and never removed, so the shared
-- pointer to it is its entry. A type of messages stands for the JSON values.
pub mod Apart
use lapp_s.Common.{
  ℕ, Bool, true, false, Option, some, none, List, Dict, lookup, emplace, assign, numbers,
}

-- `QueueType`: `itc::tsbqueue` of messages. What `try_recv` gives is `none` when it returns false.
pub record QueueType (M Q : Type 0) : Type 0 where
  pub make : Q
  pub send_to : M → Q → Q
  pub recv_from : Q → Option M × Q

module _ {M Q : Type 0} (tsbqueue : QueueType M Q) where
  -- A queue for an id that has none.
  unfoldable pub absent : ℕ → Option Q → Dict ℕ Q → Dict ℕ Q
  absent id none queues = emplace numbers id tsbqueue.make queues
  absent id (some q) queues = queues

  -- `create` of the registry
  unfoldable pub create : (List ℕ → ℕ) → List ℕ → Dict ℕ Q → ℕ × Dict ℕ Q
  create hash name queues = let id = hash name in (id, absent id (lookup numbers id queues) queues)

module _ {Q : Type 0} where
  -- `find` by name; `none` is the `std::system_error`.
  unfoldable pub find_name : (List ℕ → ℕ) → List ℕ → Dict ℕ Q → Option Q
  find_name hash name queues = lookup numbers (hash name) queues

  -- The operations of a handle, which holds the id, begin with `find` by id.
  unfoldable pub find_id : ℕ → Dict ℕ Q → Option Q
  find_id id queues = lookup numbers id queues

module _ {M Q : Type 0} (tsbqueue : QueueType M Q) where
  -- `post`, and whether it succeeded
  unfoldable pub send : ℕ → M → Option Q → Dict ℕ Q → Bool × Dict ℕ Q
  send id message none queues = (false, queues)
  send id message (some q) queues = (true, assign numbers id (tsbqueue.send_to message q) queues)

  unfoldable pub post : ℕ → M → Dict ℕ Q → Bool × Dict ℕ Q
  post id message queues = send id message (find_id id queues) queues

  -- `try_recv`; `none` is the `nil` of a queue that gives nothing, or the error.
  unfoldable pub take : ℕ → Option Q → Dict ℕ Q → Option M × Dict ℕ Q
  take id none queues = (none, queues)
  take id (some q) queues =
      let (message, left) = tsbqueue.recv_from q in (message, assign numbers id left queues)

  unfoldable pub try_recv : ℕ → Dict ℕ Q → Option M × Dict ℕ Q
  try_recv id queues = take id (find_id id queues) queues

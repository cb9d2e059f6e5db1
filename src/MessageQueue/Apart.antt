-- ===== src/MessageQueue/Apart.antt =====
-- The queues of include/MQRegistry.h, each on its own.
use lapp_s.Common.{
  ℕ, false, Option, some, none, List, [], ◌∷◌, ◌≡◌, refl, ◌∙◌, ◌==◌, if◌then◌else◌, ==_iff,
  Bool-cases, inl, inr, Dict, lookup, numbers, lookup-emplace, lookup-assign_self,
  lookup-assign_other,
}
use lapp_s.MessageQueue.{QueueType, absent, create, find_name, find_id, send, post, take, try_recv}

-- A call of a service.
pub data Action (M : Type 0) : Type 0 where
  creates : List ℕ → Action M
  posts : ℕ → M → Action M
  receives : ℕ → Action M

-- What a call does to one queue.
pub data Use (M : Type 0) : Type 0 where
  sent : M → Use M
  tried : Use M

module _ {M Q : Type 0} (hash : List ℕ → ℕ) (tsbqueue : QueueType M Q) where
  abbrev pub act : Action M → Dict ℕ Q → Dict ℕ Q
  act (creates name) queues = (create tsbqueue hash name queues).1
  act (posts id message) queues = (post tsbqueue id message queues).1
  act (receives id) queues = (try_recv tsbqueue id queues).1

  -- The answers that the calls of `try_recv` with an id get.
  abbrev pub got : ℕ → Action M → Dict ℕ Q → List (Option M) → List (Option M)
  got id (creates name) queues answers = answers
  got id (posts j message) queues answers = answers
  got id (receives j) queues answers =
      if id == j then (try_recv tsbqueue j queues).0 ∷ answers else answers

  -- The answers, and the queue of the id at the end.
  abbrev pub served : ℕ → List (Action M) → Dict ℕ Q → List (Option M) × Option Q
  served id [] queues = ([], find_id id queues)
  served id (a ∷ actions) queues =
      let (answers, q) = served id actions (act a queues) in (got id a queues answers, q)

  -- The calls that name an id, and nothing else.
  abbrev pub uses : ℕ → List (Action M) → List (Use M)
  uses id [] = []
  uses id (creates name ∷ actions) = uses id actions
  uses id (posts j message ∷ actions) =
      let rest = uses id actions in if id == j then sent message ∷ rest else rest
  uses id (receives j ∷ actions) =
      let rest = uses id actions in if id == j then tried ∷ rest else rest

  -- One queue alone, without a registry.
  abbrev pub alone : List (Use M) → Q → List (Option M) × Option Q
  alone [] q = ([], some q)
  alone (sent message ∷ more) q = alone more (tsbqueue.send_to message q)
  alone (tried ∷ more) q =
      let (message, left) = tsbqueue.recv_from q in
      let (answers, end) = alone more left in (message ∷ answers, end)

  absent-find_id :
      (id j : ℕ) (o : Option Q) (queues : Dict ℕ Q) (q : Q)
      → find_id id queues ≡ some q
      → find_id id (absent tsbqueue j o queues) ≡ some q
  unfolding find_id absent
  absent-find_id id j none queues q at =
      lookup-emplace numbers id j tsbqueue.make queues ∙ rw at refl
  absent-find_id id j (some p) queues q at = at

  -- A call with another id.
  send-other :
      (id j : ℕ) (message : M) (o : Option Q) (queues : Dict ℕ Q)
      → (id == j) ≡ false
      → find_id id (send tsbqueue j message o queues).1 ≡ find_id id queues
  unfolding find_id send numbers
  send-other id j message none queues other = refl
  send-other id j message (some p) queues other =
      lookup-assign_other numbers id j (tsbqueue.send_to message p) queues other

  take-other :
      (id j : ℕ) (o : Option Q) (queues : Dict ℕ Q)
      → (id == j) ≡ false
      → find_id id (take tsbqueue j o queues).1 ≡ find_id id queues
  unfolding find_id take numbers
  take-other id j none queues other = refl
  take-other id j (some p) queues other =
      lookup-assign_other numbers id j (tsbqueue.recv_from p).1 queues other

  post-own :
      (id : ℕ) (message : M) (queues : Dict ℕ Q) (q : Q)
      → find_id id queues ≡ some q
      → find_id id (post tsbqueue id message queues).1 ≡ some (tsbqueue.send_to message q)
  unfolding find_id post send
  post-own id message queues q at =
      rw at (lookup-assign_self numbers id (tsbqueue.send_to message q) queues)

  try_recv-own :
      (id : ℕ) (queues : Dict ℕ Q) (q : Q)
      → find_id id queues ≡ some q
      → ((try_recv tsbqueue id queues).0 ≡ (tsbqueue.recv_from q).0)
        × (find_id id (try_recv tsbqueue id queues).1 ≡ some (tsbqueue.recv_from q).1)
  unfolding find_id try_recv take
  try_recv-own id queues q at =
      rw at (refl, lookup-assign_self numbers id (tsbqueue.recv_from q).1 queues)

  served-alone :
      (id : ℕ) (actions : List (Action M)) (queues : Dict ℕ Q) (q : Q)
      → find_id id queues ≡ some q
      → served id actions queues ≡ alone (uses id actions) q
  unfolding create post try_recv
  served-alone id [] queues q at = λ i. ([], at i)
  served-alone id (creates name ∷ actions) queues q at =
      served-alone id actions (act (creates name) queues) q
        (absent-find_id id (hash name) (lookup numbers (hash name) queues) queues q at)
  served-alone id (posts j message ∷ actions) queues q at = elim (Bool-cases (id == j)) [
    | inl same ↦
        let e : id ≡ j = (==_iff id j).0 same in
        rw same (
          rw (← e) (
            served-alone id actions (act (posts id message) queues) (tsbqueue.send_to message q)
              (post-own id message queues q at)))
    | inr other ↦ rw other (
        served-alone id actions (act (posts j message) queues) q
          (send-other id j message (find_id j queues) queues other ∙ at))
  ]
  served-alone id (receives j ∷ actions) queues q at = elim (Bool-cases (id == j)) [
    | inl same ↦
        let e : id ≡ j = (==_iff id j).0 same in
        let (answer, left) = try_recv-own id queues q at in
        let rest =
          served-alone id actions (act (receives id) queues) (tsbqueue.recv_from q).1 left in
        rw same (rw (← e) (λ i. (answer i ∷ (rest i).0, (rest i).1)))
    | inr other ↦ rw other (
        served-alone id actions (act (receives j) queues) q
          (take-other id j (find_id j queues) queues other ∙ at))
  ]

  -- A name under which there is no queue, and whatever is called once it is created: creations,
  -- posts and receives with any names and ids, in any order. The calls of try_recv with the id that
  -- create has returned are answered as by one new queue, of whatever kind, on which only the calls
  -- with that id are made, in their order, and that queue is what the name leads to in the end.
  pub create-served :
      (name : List ℕ) (actions : List (Action M)) (queues : Dict ℕ Q)
      → find_name hash name queues ≡ none
      → (served (create tsbqueue hash name queues).0 actions (create tsbqueue hash name queues).1
          ≡ alone (uses (hash name) actions) tsbqueue.make)
  unfolding find_name find_id create absent
  create-served name actions queues new =
      let id = hash name in
      let made : find_id id (create tsbqueue hash name queues).1 ≡ some tsbqueue.make =
        rw new (
          lookup-emplace numbers id id tsbqueue.make queues
          ∙ rw (new, numbers.reflexive id) refl) in
      served-alone id actions (create tsbqueue hash name queues).1 tsbqueue.make made

-- ===== src/Tests/Queues.antt =====
-- Messages for two queues.
use lapp_s.Common.{ℕ, Option, List, [], ◌∷◌, ◌++◌, ◌≡◌, refl, some, none, length, lookup}
use lapp_s.MessageQueue.{QueueType, create, find_name}
use lapp_s.MessageQueue.Apart.{Action, creates, posts, receives, served, create-served}

abbrev first : List ℕ → Option ℕ × List ℕ
first [] = (none, [])
first (m ∷ q) = (some m, q)

abbrev fifo : QueueType ℕ (List ℕ)
fifo = record { make = []; send_to = λ m q. q ++ (m ∷ []); recv_from = first }

abbrev actions : List (Action ℕ)
actions =
    posts 1 7
    ∷ creates (5 ∷ 6 ∷ [])
    ∷ posts 2 8
    ∷ receives 2
    ∷ receives 1
    ∷ creates (9 ∷ [])
    ∷ posts 1 9
    ∷ receives 3
    ∷ receives 1
    ∷ receives 1
    ∷ posts 1 4
    ∷ []

create-served_example :
    served length fifo 1 actions (create fifo length (5 ∷ []) []).1
    ≡ (some 7 ∷ some 9 ∷ none ∷ [], some (4 ∷ []))
unfolding find_name lookup create
create-served_example = create-served length fifo (5 ∷ []) actions [] refl

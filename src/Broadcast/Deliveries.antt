-- ===== src/Broadcast/Deliveries.antt =====
-- What the subscribers of a channel of include/Broadcast.h get.
use lapp_s.Common.{
  ℕ, suc, ◌-◌, Bool, true, false, List, [], ◌∷◌, ◌++◌, ◌≡◌, ◌==◌, refl, ap, ap₂, ◌∙◌, arith,
  if◌then◌else◌, Bool-cases, inl, inr, replicate,
}
use lapp_s.Broadcast.{
  Broadcast, erase_first, erase_each, purge, subscribe, unsubscribe, send_each, bcast,
}

abbrev pub count : ℕ → List ℕ → ℕ
count h [] = 0
count h (s ∷ ss) = if s == h then suc (count h ss) else count h ss

-- A call of one of the three operations.
pub data Call : Type 0 where
  subscribes : ℕ → Call
  unsubscribes : ℕ → Call
  sends : List ℕ → Call

-- The calls one after another: what is left, and all that is sent.
abbrev pub run : List Call → Broadcast → Broadcast × List (ℕ × List ℕ)
run [] b = (b, [])
run (subscribes h ∷ calls) b = run calls (subscribe b h)
run (unsubscribes h ∷ calls) b = run calls (unsubscribe b h)
run (sends msg ∷ calls) b =
    let (q, sent) = bcast b msg in let (last, more) = run calls q in (last, sent ++ more)

-- The messages of one subscriber.
abbrev pub received : ℕ → List (ℕ × List ℕ) → List (List ℕ)
received h [] = []
received h ((s, msg) ∷ sent) = if s == h then msg ∷ received h sent else received h sent

-- What a subscriber is promised, who knows only of its own calls: `joined` and `left` count its
-- subscriptions and the unsubscriptions that wait. It gets a message as often as it is subscribed.
abbrev pub promised : ℕ → List Call → (joined left : ℕ) → List (List ℕ)
promised h [] joined left = []
promised h (subscribes s ∷ calls) joined left =
    if s == h then promised h calls (suc joined) left else promised h calls joined left
promised h (unsubscribes s ∷ calls) joined left =
    if s == h then promised h calls joined (suc left) else promised h calls joined left
promised h (sends msg ∷ calls) joined left =
    replicate (joined - left) msg ++ promised h calls (joined - left) 0

count-erase_first :
    (h u : ℕ) (ss : List ℕ)
    → count h (erase_first u ss) ≡ (if u == h then count h ss - 1 else count h ss)
count-erase_first h u [] = ground arith
count-erase_first h u (s ∷ ss) = let later = count-erase_first h u ss in ground (arith, later)

count-erase_each : (h : ℕ) (us ss : List ℕ) → count h (erase_each us ss) ≡ count h ss - count h us
count-erase_each h [] ss = omega arith
count-erase_each h (u ∷ us) ss =
    let later = count-erase_each h us (erase_first u ss) in
    let first = count-erase_first h u ss in ground (arith, later, first)

received-send_each :
    (h : ℕ) (ss : List ℕ) (msg : List ℕ)
    → received h (send_each ss msg) ≡ replicate (count h ss) msg
received-send_each h [] msg = refl
received-send_each h (s ∷ ss) msg = elim (Bool-cases (s == h)) [
  | inl here ↦ rw here (ap (λ t. msg ∷ t) (received-send_each h ss msg))
  | inr other ↦ rw other (received-send_each h ss msg)
]

received-append :
    (h : ℕ) (xs ys : List (ℕ × List ℕ)) → received h (xs ++ ys) ≡ received h xs ++ received h ys
received-append h [] ys = refl
received-append h ((s, msg) ∷ xs) ys = elim (Bool-cases (s == h)) [
  | inl here ↦ rw here (ap (λ t. msg ∷ t) (received-append h xs ys))
  | inr other ↦ rw other (received-append h xs ys)
]

-- The channel keeps what it promises, for any calls in any order: each subscriber gets the messages
-- that its own calls entitle it to, in their order, and none else, whoever else subscribes. A
-- subscription counts once for each message, and an unsubscription takes one away at the next
-- message.
pub run-promised :
    (h : ℕ) (calls : List Call) (b : Broadcast)
    → received h (run calls b).1
      ≡ promised h calls (count h b.subscribers) (count h b.unsubscribers)
unfolding subscribe unsubscribe bcast purge
run-promised h [] b = refl
run-promised h (subscribes s ∷ calls) b = run-promised h calls (subscribe b s) ∙ by_test (s == h)
  where
    by_test :
        (t : Bool)
        → promised h calls
            (if t then suc (count h b.subscribers) else count h b.subscribers)
            (count h b.unsubscribers)
          ≡ (if t
              then promised h calls (suc (count h b.subscribers)) (count h b.unsubscribers)
              else promised h calls (count h b.subscribers) (count h b.unsubscribers))
    by_test true = refl
    by_test false = refl
run-promised h (unsubscribes s ∷ calls) b =
    run-promised h calls (unsubscribe b s) ∙ by_test (s == h)
  where
    by_test :
        (t : Bool)
        → promised h calls
            (count h b.subscribers)
            (if t then suc (count h b.unsubscribers) else count h b.unsubscribers)
          ≡ (if t
              then promised h calls (count h b.subscribers) (suc (count h b.unsubscribers))
              else promised h calls (count h b.subscribers) (count h b.unsubscribers))
    by_test true = refl
    by_test false = refl
run-promised h (sends msg ∷ calls) b =
    let q = purge b in
    let left = count-erase_each h b.unsubscribers b.subscribers in
    received-append h (send_each q.subscribers msg) (run calls q).1
    ∙ (ap₂ (λ xs ys. xs ++ ys) (received-send_each h q.subscribers msg) (run-promised h calls q)
        ∙ ap (λ n. replicate n msg ++ promised h calls n 0) left)

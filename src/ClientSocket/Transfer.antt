-- ===== src/ClientSocket/Transfer.antt =====
-- `force_send` and `force_recv` of include/ClientWebSocket.h, without TLS. What the calls of `send`
-- and `recv` of the system give, one after the other, is a list.
use lapp_s.Common.{
  ℕ, zero, suc, ◌-◌, ◌≤◌, Bool, true, false, Option, some, none, List, [], ◌∷◌, ◌++◌, ◌≡◌, ◌≢◌, ◌⊎◌,
  inl, inr, refl, arith, length, take, drop, length-drop, subst, sym, if◌then◌else◌,
}
use lapp_s.ClientSocket.{client_close_frame}

-- `EAGAIN`, or another error, or the bytes that wait to be read.
pub data RecvAnswer : Type 0 where
  recv_again recv_error : RecvAnswer
  recv_some : List ℕ → RecvAnswer

-- The bytes that `force_recv` returns, none of them at the end of the stream, or its -1, for a
-- buffer of `size` bytes; `none` is a loop that still runs when there are no more answers.
unfoldable pub force_recv : ℕ → List RecvAnswer → Option (Option (List ℕ))
force_recv size [] = none
force_recv size (recv_again ∷ more) = force_recv size more
force_recv size (recv_error ∷ more) = some none
force_recv size (recv_some bytes ∷ more) = some (some (take size bytes))

-- `EAGAIN`, or another error, or the number of bytes that were taken.
pub data SendAnswer : Type 0 where
  send_again send_error : SendAnswer
  send_some : ℕ → SendAnswer

-- What a call took before those that follow.
abbrev pub sent_before : List ℕ → Option (Bool × List ℕ) → Option (Bool × List ℕ)
sent_before out none = none
sent_before out (some (all, more)) = some (all, out ++ more)

abbrev pub all_sent : List ℕ → Bool
all_sent [] = true
all_sent (b ∷ bytes) = false

-- `rest` is what is not sent yet. The condition of the loop is evaluated at `continue` too.
unfoldable pub force_send : List SendAnswer → (rest : List ℕ) → Option (Bool × List ℕ)
force_send [] rest = none
force_send (send_again ∷ more) [] = some (true, [])
force_send (send_again ∷ more) (b ∷ rest) = force_send more (b ∷ rest)
force_send (send_error ∷ more) rest = some (false, [])
force_send (send_some n ∷ more) rest =
    let left = drop n rest in
    let later = force_send more left in
    if all_sent left then some (true, rest) else sent_before (take n rest) later

-- `recv` gives something else than `EAGAIN` in the end.
abbrev pub Comes : List RecvAnswer → Type 0
Comes [] = ⊥
Comes (recv_again ∷ more) = Comes more
Comes (recv_error ∷ more) = Unit
Comes (recv_some bytes ∷ more) = Unit

-- `send` takes `n` bytes in the end, or fails.
abbrev pub Goes : ℕ → List SendAnswer → Type 0
Goes n [] = ⊥
Goes n (send_again ∷ more) = Goes n more
Goes n (send_error ∷ more) = Unit
Goes n (send_some k ∷ more) = (n ≤ k) ⊎ Goes (n - k) more

-- Nothing has come at the first `k` calls.
abbrev pub waits : ℕ → List RecvAnswer → List RecvAnswer
waits zero recvs = recvs
waits (suc k) recvs = recv_again ∷ waits k recvs

pub force_recv-ends :
    (size : ℕ) (recvs : List RecvAnswer) → Comes recvs → force_recv size recvs ≢ none
unfolding force_recv
force_recv-ends size [] comes = absurd comes
force_recv-ends size (recv_again ∷ more) comes = force_recv-ends size more comes
force_recv-ends size (recv_error ∷ more) comes = λ e. absurd (ground arith)
force_recv-ends size (recv_some bytes ∷ more) comes = λ e. absurd (ground arith)

pub force_recv-waits :
    (size k : ℕ) (recvs : List RecvAnswer) → force_recv size (waits k recvs) ≡ force_recv size recvs
unfolding force_recv
force_recv-waits size zero recvs = refl
force_recv-waits size (suc k) recvs = force_recv-waits size k recvs

sent_before-ends : (out : List ℕ) (o : Option (Bool × List ℕ)) → o ≢ none → sent_before out o ≢ none
sent_before-ends out none some_answer = absurd (some_answer refl)
sent_before-ends out (some (all, more)) some_answer = λ e. absurd (ground arith)

force_send-ends :
    (sends : List SendAnswer) (rest : List ℕ)
    → Goes (length rest) sends
    → force_send sends rest ≢ none
unfolding force_send
force_send-ends [] rest goes = absurd goes
force_send-ends (send_again ∷ more) [] goes = λ e. absurd (ground arith)
force_send-ends (send_again ∷ more) (b ∷ rest) goes = force_send-ends more (b ∷ rest) goes
force_send-ends (send_error ∷ more) rest goes = λ e. absurd (ground arith)
force_send-ends (send_some n ∷ more) rest goes =
    by_rest (drop n rest) (length-drop n rest) goes (force_send more (drop n rest))
      (force_send-ends more (drop n rest))
  where
    by_rest :
        (left : List ℕ)
        → length left ≡ length rest - n
        → (length rest ≤ n) ⊎ Goes (length rest - n) more
        → (o : Option (Bool × List ℕ)) → (Goes (length left) more → o ≢ none)
        → (if all_sent left then some (true, rest) else sent_before (take n rest) o) ≢ none
    by_rest [] e goes o ends = λ e. absurd (ground arith)
    by_rest (b ∷ l) e (inl all) o ends = absurd (omega (arith, e))
    by_rest (b ∷ l) e (inr later) o ends =
        sent_before-ends (take n rest) o (ends (subst (λ m. Goes m more) (sym e) later))

-- A close frame has eight bytes.
pub force_send-close :
    (sends : List SendAnswer) (ccode : ℕ)
    → Goes 8 sends
    → force_send sends (client_close_frame ccode) ≢ none
unfolding client_close_frame
force_send-close sends ccode goes = force_send-ends sends (client_close_frame ccode) goes

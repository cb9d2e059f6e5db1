-- ===== src/Parser/Progress/Machine.antt =====
-- `parse` returns or throws, whatever the input and the state of the parser: the recursion that
-- follows each fragment of a message ends.
use lapp_s.Common.{ℕ, zero, suc, ◌+◌, ◌-◌, ◌≤◌, ◌<◌, List, ◌≡◌, ◌≢◌, refl, arith}
use native.Mathlib.Nat.{le_refl}
use lapp_s.Protocol.{State, Directive, FrameSeq, Result}
use lapp_s.Parser.{Parser, reset, get_header_1st_byte, read_size, validate_header}
use lapp_s.Parser.Machine.{
  Outcome, Side, returned, thrown, starved, proceed, on_done, decide_on_done, from_payload,
  from_validate, from_mask, from_size, from_second, from_first, enter, parse_on, parse_with,
}
use lapp_s.Parser.Progress.{Forward}
use lapp_s.Parser.Progress.Header.{
  get_header_1st_byte-moves, get_header_1st_byte-quiet, validate_header-Forward, read_size-Forward,
}

-- A message is reported at `c` or behind it.
abbrev pub Says : ℕ → Directive → ℕ → Type 0
Says c Directive.continue i = ⊥
Says c Directive.more i = Unit
Says c Directive.take_ready_message i = c ≤ i
Says c Directive.close_with_code i = Unit

-- The call ends; it does not ask to go on, and it has not moved back to report a message.
abbrev pub Ends : ℕ → Outcome → Type 0
Ends c (returned p r) = Says c r.directive r.cursor
Ends c (thrown p) = Unit
Ends c starved = ⊥

pub Ends-ne : (c : ℕ) (out : Outcome) → Ends c out → out ≢ starved
Ends-ne c (returned p r) ok = λ h. absurd (ground arith)
Ends-ne c (thrown p) ok = λ h. absurd (ground arith)
Ends-ne c starved ok = absurd ok

earlier : (b c : ℕ) (out : Outcome) → b ≤ c → Ends c out → Ends b out
earlier b c (returned p r) le ok = by_directive r.directive ok
  where
    by_directive : (d : Directive) → Says c d r.cursor → Says b d r.cursor
    by_directive Directive.continue ok = ok
    by_directive Directive.more ok = tt
    by_directive Directive.take_ready_message ok = omega arith
    by_directive Directive.close_with_code ok = tt
earlier b c (thrown p) le ok = tt
earlier b c starved le ok = ok

-- A step and what follows it.
proceed-Ends :
    (c : ℕ) (x : Parser × Result) (rest : Parser → Outcome)
    → x.1.directive ≢ Directive.take_ready_message
    → (x.1.directive ≡ Directive.continue → Ends c (rest x.0))
    → Ends c (proceed x rest)
unfolding proceed
proceed-Ends c (q, r) rest quiet next = by_directive r.directive refl
  where
    by_directive : (d : Directive) → r.directive ≡ d → Ends c (proceed (q, r) rest)
    by_directive Directive.continue e = rw e (next e)
    by_directive Directive.more e = rw e (rw e tt)
    by_directive Directive.take_ready_message e = absurd (quiet e)
    by_directive Directive.close_with_code e = rw e (rw e tt)

proceed_on :
    (c : ℕ) (p : Parser) (x : Parser × Result) (rest : Parser → Outcome)
    → c ≤ p.cursor
    → Forward p x
    → ((q : Parser) → c ≤ q.cursor → Ends c (rest q))
    → Ends c (proceed x rest)
proceed_on c p x rest at (forward, quiet) next =
    proceed-Ends c x rest quiet (λ h. next x.0 (omega (arith, forward h)))

-- What `parse` asks of the members that the two classes define.
pub record GoesForward (side : Side) : Type 0 where
  pub second :
      (s : List ℕ) (limit : ℕ) (p : Parser)
      → Forward p (side.get_header_2nd_byte s limit p.cursor p)
  pub mask : (s : List ℕ) (limit : ℕ) (p : Parser) → Forward p (side.read_mask s limit p.cursor p)
  pub payload :
      (s : List ℕ) (limit : ℕ) (p : Parser) → Forward p (side.process_payload s limit p.cursor p)

module _ (side : Side) (ahead : GoesForward side) (s : List ℕ) (limit : ℕ) where
  -- From `c` on, the recursive call ends.
  module _ (again : ℕ → Parser → Outcome) (c : ℕ)
      (later : (j : ℕ) (q : Parser) → c ≤ j → q.state ≡ State.init → Ends c (again j q)) where
    on_done-Ends :
        (fs : FrameSeq) (p : Parser) → c ≤ p.cursor → Ends c (on_done side s limit again fs p)
    unfolding on_done
    on_done-Ends FrameSeq.single p at = at
    on_done-Ends FrameSeq.last p at = at
    on_done-Ends FrameSeq.first p at = later p.cursor (record p { state = State.init }) at refl
    on_done-Ends FrameSeq.middle p at = later p.cursor (record p { state = State.init }) at refl

    done-Ends : (p : Parser) → c ≤ p.cursor → Ends c (decide_on_done side s limit again p)
    unfolding decide_on_done
    done-Ends p at = on_done-Ends p.header.fseq p at

    payload-Ends : (p : Parser) → c ≤ p.cursor → Ends c (from_payload side s limit again p)
    unfolding from_payload
    payload-Ends p at =
        proceed_on c p (side.process_payload s limit p.cursor p) (decide_on_done side s limit again)
          at (ahead.payload s limit p) done-Ends

    validate-Ends : (p : Parser) → c ≤ p.cursor → Ends c (from_validate side s limit again p)
    unfolding from_validate
    validate-Ends p at =
        proceed_on c p (validate_header p) (from_payload side s limit again) at
          (validate_header-Forward p) payload-Ends

    mask-Ends : (p : Parser) → c ≤ p.cursor → Ends c (from_mask side s limit again p)
    unfolding from_mask
    mask-Ends p at =
        proceed_on c p (side.read_mask s limit p.cursor p) (from_validate side s limit again) at
          (ahead.mask s limit p) validate-Ends

    size-Ends : (p : Parser) → c ≤ p.cursor → Ends c (from_size side s limit again p)
    unfolding from_size
    size-Ends p at =
        proceed_on c p (read_size s limit p.cursor p) (from_mask side s limit again) at
          (read_size-Forward s limit p) mask-Ends

    second-Ends : (p : Parser) → c ≤ p.cursor → Ends c (from_second side s limit again p)
    unfolding from_second
    second-Ends p at =
        proceed_on c p (side.get_header_2nd_byte s limit p.cursor p) (from_size side s limit again)
          at (ahead.second s limit p) size-Ends

    first-Ends : (p : Parser) → c ≤ p.cursor → Ends c (from_first side s limit again p)
    unfolding from_first
    first-Ends p at =
        proceed_on c p (get_header_1st_byte s limit p.cursor p) (from_second side s limit again) at
          (
            λ h. omega (arith, get_header_1st_byte-moves s limit p.cursor p h),
            get_header_1st_byte-quiet s limit p.cursor p,
          )
          second-Ends

    enter-Ends : (st : State) (p : Parser) → c ≤ p.cursor → Ends c (enter side s limit again st p)
    unfolding enter reset
    enter-Ends State.init p at = first-Ends (reset p) at
    enter-Ends State.header_1st_byte p at = first-Ends p at
    enter-Ends State.header_2nd_byte p at = second-Ends p at
    enter-Ends State.read_short_size_0 p at = size-Ends p at
    enter-Ends State.read_short_size_1 p at = size-Ends p at
    enter-Ends State.read_long_size_0 p at = size-Ends p at
    enter-Ends State.read_long_size_1 p at = size-Ends p at
    enter-Ends State.read_long_size_2 p at = size-Ends p at
    enter-Ends State.read_long_size_3 p at = size-Ends p at
    enter-Ends State.read_long_size_4 p at = size-Ends p at
    enter-Ends State.read_long_size_5 p at = size-Ends p at
    enter-Ends State.read_long_size_6 p at = size-Ends p at
    enter-Ends State.read_long_size_7 p at = size-Ends p at
    enter-Ends State.read_mask_0 p at = mask-Ends p at
    enter-Ends State.read_mask_1 p at = mask-Ends p at
    enter-Ends State.read_mask_2 p at = mask-Ends p at
    enter-Ends State.read_mask_3 p at = mask-Ends p at
    enter-Ends State.validate p at = validate-Ends p at
    enter-Ends State.payload p at = payload-Ends p at
    enter-Ends State.done p at = done-Ends p at
    enter-Ends State.message_ready p at = tt

  -- At the start of a frame, more fuel than input is enough, and a message is reported behind the
  -- start.
  parse_on-Ends :
      (f i : ℕ) (p : Parser)
      → p.state ≡ State.init
      → limit - i < f
      → Ends (i + 1) (parse_on side f s limit i p)
  unfolding parse_on enter reset from_first
  parse_on-Ends zero i p st enough = absurd (omega arith)
  parse_on-Ends (suc f) i p st enough =
      let begun = reset (record p { cursor = i }) in
      let first = get_header_1st_byte s limit i begun in
      rw st (
        proceed-Ends (i + 1) first (from_second side s limit (parse_on side f s limit))
          (get_header_1st_byte-quiet s limit i begun)
          (λ h.
            let (inside, moved) = get_header_1st_byte-moves s limit i begun h in
            second-Ends (parse_on side f s limit) (i + 1)
              (λ j q at state.
                earlier (i + 1) (j + 1) (parse_on side f s limit j q) (omega arith)
                  (parse_on-Ends f j q state (omega arith)))
              first.0 (omega arith)))

  pub parse_with-Ends : (i : ℕ) (p : Parser) → Ends i (parse_with side s limit i p)
  unfolding parse_on
  parse_with-Ends i p =
      let again = parse_on side (suc (limit - i)) s limit in
      enter-Ends again i
        (λ j q at state.
          earlier i (j + 1) (again j q) (omega arith)
            (parse_on-Ends (suc (limit - i)) j q state (omega arith)))
        p.state (record p { cursor = i }) (le_refl i)

  -- Between two frames.
  pub parse_with-Ends_init :
      (i : ℕ) (p : Parser) → p.state ≡ State.init → Ends (i + 1) (parse_with side s limit i p)
  parse_with-Ends_init i p st = parse_on-Ends (suc (suc (limit - i))) i p st (omega arith)

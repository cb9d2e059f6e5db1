-- ===== src/Http/Progress.antt =====
-- `parse` of include/HTTPRequestParser.h on any input.
use lapp_s.Common.{
  ℕ, zero, suc, ◌-◌, ◌≤◌, ◌<◌, Bool, false, List, [], ◌∷◌, ◌++◌, ◌≡◌, ◌≢◌, refl, arith, ap, ◌∙◌,
  byte_at, length, ltb, Bool-cases, inl, inr, Option, none, some, Dict, strings, emplace, ltb→lt,
}
use native.Mathlib.Nat.{le_refl}
use lapp_s.Http.{
  HttpRequestParser, collect, one_header, collect_headers, in_key, in_separator, in_line, in_gap,
  parse, parse_request, with_headers, accepted, starved, in_target, request_line,
}
use lapp_s.Http.Collect.{collect-bounds, collect-first, collect-run}

pub stays :
    (test : ℕ → Bool) (buff : List ℕ) (left i : ℕ)
    → test (byte_at buff i) ≡ false
    → collect test buff left i ≡ ([], i)
unfolding collect
stays test buff zero i off = refl
stays test buff (suc left) i off = rw off refl

-- Each round of the loop over the headers reads a byte at least, and none beyond the length.
one_header-advances : (buff : List ℕ) (sz i : ℕ) → i < sz → i < (one_header buff sz i).1
unfolding one_header
one_header-advances buff sz i inside =
    let first = collect in_key buff (sz - i) i in
    let i1 = first.1 in
    let i2 = (collect in_separator buff (sz - i1) i1).1 in
    let i3 = (collect in_line buff (sz - i2) i2).1 in
    let b1 = collect-bounds in_key buff (sz - i) i in
    let b2 = collect-bounds in_separator buff (sz - i1) i1 in
    let b3 = collect-bounds in_line buff (sz - i2) i2 in
    let b4 = collect-bounds in_gap buff (sz - i3) i3 in
    elim (Bool-cases (in_key (byte_at buff i))) [
      | inl keyed ↦
          omega (arith, b2, b3, b4, collect-first in_key buff (sz - i) i keyed (omega arith))
      | inr other ↦ rw (stays in_key buff (sz - i) i other) (no_key i inside other)
    ]
  where
    no_key :
        (i : ℕ)
        → i < sz
        → in_key (byte_at buff i) ≡ false
        → let i2 = (collect in_separator buff (sz - i) i).1 in
          let i3 = (collect in_line buff (sz - i2) i2).1 in i < (collect in_gap buff (sz - i3) i3).1
    no_key i inside other = elim (Bool-cases (in_separator (byte_at buff i))) [
      | inl separated ↦
          let i2 = (collect in_separator buff (sz - i) i).1 in
          let i3 = (collect in_line buff (sz - i2) i2).1 in
          omega (
            arith,
            collect-first in_separator buff (sz - i) i separated (omega arith),
            collect-bounds in_line buff (sz - i2) i2,
            collect-bounds in_gap buff (sz - i3) i3,
          )
      | inr plain ↦ rw (stays in_separator buff (sz - i) i plain) (
          rw (stays in_line buff (sz - i) i (ground arith))
            (collect-first in_gap buff (sz - i) i (ground arith) (omega arith)))
    ]

collect_headers-ends :
    (f : ℕ) (buff : List ℕ) (sz i : ℕ) (d : Dict (List ℕ) (List ℕ))
    → sz - i ≤ f
    → collect_headers f buff sz i d ≢ none
unfolding collect_headers
collect_headers-ends zero buff sz i d enough = ground arith
collect_headers-ends (suc f) buff sz i d enough = elim (Bool-cases (ltb i sz)) [
  | inl on ↦
      let ((key, value), next) = one_header buff sz i in
      let later = one_header-advances buff sz i (ltb→lt i sz on) in
      rw on (collect_headers-ends f buff sz next (emplace strings key value d) (omega arith))
  | inr stop ↦ rw stop (λ e. absurd (ground arith))
]

with_headers-ends :
    (q : HttpRequestParser) (o : Option (Dict (List ℕ) (List ℕ)))
    → o ≢ none
    → with_headers q o ≢ starved
with_headers-ends q none some_headers = absurd (some_headers refl)
with_headers-ends q (some []) some_headers = λ e. absurd (ground arith)
with_headers-ends q (some (h ∷ hs)) some_headers = λ e. absurd (ground arith)

request_ends :
    (buffer : List ℕ) (size : ℕ) (p : HttpRequestParser) → parse_request buffer size p ≢ starved
unfolding parse_request
request_ends buffer size p =
    let (q, i4) = request_line buffer size p in
    with_headers-ends q (collect_headers (size - i4) buffer size i4 q.headers)
      (collect_headers-ends (size - i4) buffer size i4 q.headers (le_refl (size - i4)))

-- A call of `parse` accepts its input or throws, whatever the buffer, the length and the state:
-- the loop over the headers ends.
pub parse_ends :
    (buffer : List ℕ) (size : ℕ) (p : HttpRequestParser) → parse buffer size p ≢ starved
unfolding parse
parse_ends buffer size p = let request = request_ends buffer size p in ground arith

with_headers-target :
    (p q : HttpRequestParser) (o : Option (Dict (List ℕ) (List ℕ)))
    → with_headers p o ≡ accepted q
    → q.request_target ≡ p.request_target
with_headers-target p q none e = absurd (ground arith)
with_headers-target p q (some []) e = absurd (ground arith)
with_headers-target p q (some (h ∷ hs)) e = ground arith

request-target :
    (buffer : List ℕ) (size : ℕ) (p q : HttpRequestParser)
    → parse_request buffer size p ≡ accepted q
    → q.request_target ≡ p.request_target ++ (collect in_target buffer (size - 4) 4).0
unfolding parse_request
request-target buffer size p q e =
    let (r, i4) = request_line buffer size p in
    with_headers-target r q (collect_headers (size - i4) buffer size i4 r.headers) e

-- Where the request stands behind a line end, as it may, and is longer than that and the method,
-- parse still takes the target from the fifth byte of the buffer on, so the target of a request
-- that it accepts is the last letter of GET, behind what the parser held.
pub parse-leading_crlf :
    (rest : List ℕ) (size : ℕ) (p q : HttpRequestParser)
    → 5 < size
    → parse (13 ∷ 10 ∷ b'G' ∷ b'E' ∷ b'T' ∷ b' ' ∷ rest) size p ≡ accepted q
    → q.request_target ≡ p.request_target ++ (b'T' ∷ [])
unfolding parse
parse-leading_crlf rest size p q long e =
    let buffer = 13 ∷ 10 ∷ b'G' ∷ b'E' ∷ b'T' ∷ b' ' ∷ rest in
    elim (Bool-cases (ltb (length buffer) p.min_size)) [
      | inl small ↦ absurd (ground arith)
      | inr enough ↦
          request-target buffer size p q (rw enough at e)
          ∙ ap (λ r. p.request_target ++ r.0)
              (collect-run in_target buffer (b'T' ∷ []) b' ' rest (size - 4) 4 (refl, tt) refl
                (omega arith) refl)
    ]

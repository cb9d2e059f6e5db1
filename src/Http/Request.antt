-- ===== src/Http/Request.antt =====
-- `CollectHeaders` of include/HTTPRequestParser.h on header lines that are well formed.
use lapp_s.Common.{
  ℕ, zero, suc, ◌+◌, ◌-◌, ◌<◌, false, List, [], ◌∷◌, ◌++◌, ◌≡◌, refl, sym, arith, ap, ◌∙◌, length,
  length-append, drop, drop-append_at, append_assoc, ltb, lt→ltb, some, Dict, strings, emplace,
}
use lapp_s.Http.{collect, one_header, collect_headers, in_key, in_separator, in_line, in_gap}
use lapp_s.Http.Collect.{All, collect-run, collect-All}

abbrev pub Header : Type 0
Header = List ℕ × List ℕ

-- `Key: value`, and the end of the line
abbrev pub line : Header → List ℕ
line (key, value) = key ++ (b':' ∷ b' ' ∷ (value ++ (13 ∷ 10 ∷ [])))

-- All lines, and the empty line behind them.
abbrev pub lines : List Header → List ℕ
lines [] = 13 ∷ 10 ∷ []
lines ((key, value) ∷ hs) = key ++ (b':' ∷ b' ' ∷ (value ++ (13 ∷ 10 ∷ lines hs)))

abbrev pub Trimmed : List ℕ → Type 0
Trimmed [] = Unit
Trimmed (c ∷ cs) = in_separator c ≡ false

abbrev pub NonEmpty : List ℕ → Type 0
NonEmpty cs = 0 < length cs

-- A key with no space, colon or line end in it, and a value of one line that does not begin with
-- a space, a tab or a colon.
abbrev pub WellFormed : List Header → Type 0
WellFormed [] = Unit
WellFormed ((key, value) ∷ hs) =
    (NonEmpty key × All in_key key × All in_line value × Trimmed value) × WellFormed hs

-- Of two headers with one key, the first counts.
abbrev pub collected : Dict (List ℕ) (List ℕ) → List Header → Dict (List ℕ) (List ℕ)
collected d [] = d
collected d ((key, value) ∷ hs) = collected (emplace strings key value d) hs

-- What stands behind the separator does not belong to it.
value_begins :
    (value rest : List ℕ)
    → Trimmed value
    → (c : ℕ) × (cs : List ℕ) × (value ++ (13 ∷ rest) ≡ c ∷ cs) × (in_separator c ≡ false)
value_begins [] rest t = (13, rest, refl, refl)
value_begins (c ∷ cs) rest t = (c, cs ++ (13 ∷ rest), refl, t)

key_begins :
    (key rest : List ℕ)
    → NonEmpty key
    → All in_key key
    → (c : ℕ) × (cs : List ℕ) × (key ++ rest ≡ c ∷ cs) × (in_gap c ≡ false)
key_begins [] rest some_left all = absurd (omega arith)
key_begins (c ∷ cs) rest some_left (ok, all) = (c, cs ++ rest, refl, ground arith)

-- The lines begin at `i`, and end where the length does.
module _ (buff : List ℕ) (sz : ℕ) (junk : List ℕ) where
  -- Up to the end of the value.
  module _ (i : ℕ) (key value more : List ℕ)
      (here : drop i buff ≡ key ++ (b':' ∷ b' ' ∷ (value ++ (13 ∷ 10 ∷ more))))
      (keyed : All in_key key) (single : All in_line value) (trimmed : Trimmed value)
      (inside : i + length key + 2 + length value < sz) where
    unfoldable pub i1 : ℕ
    i1 = i + length key

    unfoldable pub i2 : ℕ
    i2 = i1 + 2

    unfoldable pub i3 : ℕ
    i3 = i2 + length value

    key_read : collect in_key buff (sz - i) i ≡ (key, i1)
    unfolding i1
    key_read =
        collect-run in_key buff key b':' (b' ' ∷ (value ++ (13 ∷ 10 ∷ more))) (sz - i) i keyed refl
          (omega arith) here

    at1 : drop i1 buff ≡ b':' ∷ b' ' ∷ (value ++ (13 ∷ 10 ∷ more))
    unfolding i1
    at1 = drop-append_at buff i key _ here

    at2 : drop i2 buff ≡ value ++ (13 ∷ 10 ∷ more)
    unfolding i2
    at2 = drop-append_at buff i1 (b':' ∷ b' ' ∷ []) (value ++ (13 ∷ 10 ∷ more)) at1

    at3 : drop i3 buff ≡ 13 ∷ 10 ∷ more
    unfolding i3
    at3 = drop-append_at buff i2 value _ at2

    pub separator_read : (collect in_separator buff (sz - i1) i1).1 ≡ i2
    unfolding i1 i2
    separator_read =
        let (c, cs, e, other) = value_begins value (10 ∷ more) trimmed in
        ap (λ r. r.1)
          (collect-run in_separator buff (b':' ∷ b' ' ∷ []) c cs (sz - i1) i1 (refl, (refl, tt))
            other (omega arith) (at1 ∙ ap (λ t. b':' ∷ b' ' ∷ t) e))

    pub value_read : collect in_line buff (sz - i2) i2 ≡ (value, i3)
    unfolding i1 i2 i3
    value_read =
        collect-run in_line buff value 13 (10 ∷ more) (sz - i2) i2 single refl (omega arith) at2

    one_header_lem :
        (n : ℕ)
        → (collect in_gap buff (sz - i3) i3).1 ≡ n
        → one_header buff sz i ≡ ((key, value), n)
    unfolding one_header
    one_header_lem n gap = rw (key_read, separator_read, value_read, gap) refl

  finished : (f : ℕ) (d : Dict (List ℕ) (List ℕ)) → collect_headers f buff sz sz d ≡ some d
  unfolding collect_headers
  finished zero d = rw (over sz) refl
    where
      over : (n : ℕ) → ltb n n ≡ false
      over n = ground arith
  finished (suc f) d = rw (over sz) refl
    where
      over : (n : ℕ) → ltb n n ≡ false
      over n = ground arith

  -- One round of the loop at a line that another byte than a gap's follows.
  one_round :
      (f i : ℕ) (key value more : List ℕ) (n : ℕ) (d : Dict (List ℕ) (List ℕ))
      → i < sz
      → one_header buff sz i ≡ ((key, value), n)
      → collect_headers (suc f) buff sz i d
        ≡ collect_headers f buff sz n (emplace strings key value d)
  unfolding collect_headers
  one_round f i key value more n d inside e = rw (lt→ltb i sz inside, e) refl

  gap_last :
      (j : ℕ)
      → drop j buff ≡ 13 ∷ 10 ∷ 13 ∷ 10 ∷ junk
      → sz ≡ j + 4
      → (collect in_gap buff (sz - j) j).1 ≡ sz
  gap_last j here ends =
      let four : sz - j ≡ 4 = omega arith in
      rw four (
        ap (λ r. r.1)
          (collect-All in_gap buff (13 ∷ 10 ∷ 13 ∷ 10 ∷ []) junk j
            (refl, (refl, (refl, (refl, tt)))) here)
        ∙ sym ends)

  gap_more :
      (j c : ℕ) (cs : List ℕ)
      → drop j buff ≡ 13 ∷ 10 ∷ c ∷ cs
      → in_gap c ≡ false
      → j + 2 < sz
      → (collect in_gap buff (sz - j) j).1 ≡ j + 2
  gap_more j c cs here other inside =
      ap (λ r. r.1)
        (collect-run in_gap buff (13 ∷ 10 ∷ []) c cs (sz - j) j (refl, (refl, tt)) other
          (omega arith) here)

  pub length-line :
      (key value more : List ℕ)
      → length (key ++ (b':' ∷ b' ' ∷ (value ++ (13 ∷ 10 ∷ more))))
        ≡ length key + 2 + length value + 2 + length more
  length-line key value more = omega (
    arith,
    length-append key (b':' ∷ b' ' ∷ (value ++ (13 ∷ 10 ∷ more))),
    length-append value (13 ∷ 10 ∷ more),
  )

  line_at :
      (i : ℕ) (key value more : List ℕ)
      → drop i buff ≡ (key ++ (b':' ∷ b' ' ∷ (value ++ (13 ∷ 10 ∷ more)))) ++ junk
      → drop i buff ≡ key ++ (b':' ∷ b' ' ∷ (value ++ (13 ∷ 10 ∷ (more ++ junk))))
  line_at i key value more here =
      here
      ∙ (append_assoc key (b':' ∷ b' ' ∷ (value ++ (13 ∷ 10 ∷ more))) junk
          ∙ ap (λ t. key ++ (b':' ∷ b' ' ∷ t)) (append_assoc value (13 ∷ 10 ∷ more) junk))

  -- All lines are collected, the first of two with one key.
  pub collect_headers-lines :
      (f i : ℕ) (h : Header) (hs : List Header) (d : Dict (List ℕ) (List ℕ))
      → WellFormed (h ∷ hs)
      → length hs < f
      → drop i buff ≡ lines (h ∷ hs) ++ junk
      → sz ≡ i + length (lines (h ∷ hs))
      → collect_headers f buff sz i d ≡ some (collected d (h ∷ hs))
  unfolding i1 i2 i3
  collect_headers-lines zero i h hs d wf enough here ends = absurd (omega arith)
  collect_headers-lines (suc f) i (key, value) [] d ((some_key, keyed, single, trimmed), _) enough
        here ends =
      let total = length-line key value (13 ∷ 10 ∷ []) in
      let there = line_at i key value (13 ∷ 10 ∷ []) here in
      let inside : i + length key + 2 + length value < sz = omega arith in
      let at_end = at3 i key value (13 ∷ 10 ∷ junk) there keyed single trimmed inside in
      one_round f i key value junk sz d (omega arith) (
        one_header_lem i key value (13 ∷ 10 ∷ junk) there keyed single trimmed inside sz
          (gap_last (i + length key + 2 + length value) at_end (omega arith)))
      ∙ finished f (emplace strings key value d)
  collect_headers-lines (suc f) i (key, value) ((key', value') ∷ hs) d
        ((some_key, keyed, single, trimmed), wf) enough here ends =
      let more = lines ((key', value') ∷ hs) in
      let total = length-line key value more in
      let next_length = length-line key' value' (lines hs) in
      let there = line_at i key value more here in
      let inside : i + length key + 2 + length value < sz = omega arith in
      let at_end = at3 i key value (more ++ junk) there keyed single trimmed inside in
      let j = i + length key + 2 + length value in
      let begins = key_begins key' (b':' ∷ b' ' ∷ (value' ++ (13 ∷ 10 ∷ lines hs))) wf.0.0 wf.0.1 in
      let (c, cs, e, other) = begins in
      let after = drop-append_at buff j (13 ∷ 10 ∷ []) (more ++ junk) at_end in
      one_round f i key value (more ++ junk) (j + 2) d (omega arith) (
        one_header_lem i key value (more ++ junk) there keyed single trimmed inside (j + 2) (
          gap_more j c (cs ++ junk) (at_end ∙ ap (λ t. 13 ∷ 10 ∷ (t ++ junk)) e) other
            (omega arith)))
      ∙ collect_headers-lines f (j + 2) (key', value') hs (emplace strings key value d) wf
          (omega arith) after (omega arith)

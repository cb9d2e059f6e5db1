-- ===== src/ClientHandshake/Response.antt =====
-- `responseOK` of include/ClientWebSocket.h on header lines that are well formed.
use lapp_s.Common.{
  ℕ, zero, suc, ◌+◌, ◌-◌, ◌<◌, Bool, true, false, List, [], ◌∷◌, ◌++◌, ◌≡◌, ◌==◌, refl, arith, ap,
  ◌∙◌, length, drop, drop-append_at, append_assoc, lt→ltb, some, Dict, strings, emplace,
}
use lapp_s.Http.{collect, is_crlf_byte, in_key, in_line}
use lapp_s.Http.Collect.{All, collect-run, collect-All}
use lapp_s.Http.Request.{
  Header, lines, WellFormed, NonEmpty, Trimmed, collected, i1, i2, i3, separator_read, value_read,
  length-line,
}
use lapp_s.ClientHandshake.{before_colon, kept, response_header, response_headers}

-- The client takes no header without a value.
abbrev pub Filled : List Header → Type 0
Filled [] = Unit
Filled ((key, value) ∷ hs) = NonEmpty value × Filled hs

kept-emplace :
    (key value : List ℕ) (d : Dict (List ℕ) (List ℕ))
    → NonEmpty key
    → NonEmpty value
    → kept key value d ≡ emplace strings key value d
kept-emplace [] value d some_key some_value = absurd (omega arith)
kept-emplace (c ∷ cs) [] d some_key some_value = absurd (omega arith)
kept-emplace (c ∷ cs) (v ∷ vs) d some_key some_value = refl

before_colon-All : (key : List ℕ) → All in_key key → All before_colon key
before_colon-All [] all = tt
before_colon-All (c ∷ cs) (ok, all) = (ground arith, before_colon-All cs all)

-- What stands before a header: nothing before the first one, else the end of a line.
abbrev pub gap : Bool → List ℕ
gap false = []
gap true = 13 ∷ 10 ∷ []

module _ (buff : List ℕ) (sz : ℕ) (junk : List ℕ) where
  header_read :
      (i : ℕ) (key value more : List ℕ)
      → drop i buff ≡ key ++ (b':' ∷ b' ' ∷ (value ++ (13 ∷ 10 ∷ more)))
      → All in_key key
      → All in_line value
      → Trimmed value
      → i + length key + 2 + length value < sz
      → response_header buff sz i ≡ ((key, value), i + length key + 2 + length value)
  unfolding response_header i1 i2 i3
  header_read i key value more here keyed single trimmed inside =
      let key_read =
        collect-run before_colon buff key b':' (b' ' ∷ (value ++ (13 ∷ 10 ∷ more))) (sz - i) i
          (before_colon-All key keyed) refl (omega arith) here in
      rw
        (
          key_read,
          separator_read buff sz junk i key value more here keyed single trimmed inside,
          value_read buff sz junk i key value more here keyed single trimmed inside,
        )
        refl

  -- One round at a header.
  one_round :
      (f i n next cursor : ℕ) (key value : List ℕ) (d : Dict (List ℕ) (List ℕ))
      → i < sz
      → (collect is_crlf_byte buff (sz - i) i).1 ≡ n
      → (n - i == 4) ≡ false
      → response_header buff sz n ≡ ((key, value), next)
      → response_headers (suc f) buff sz i cursor d
        ≡ response_headers f buff sz next cursor (kept key value d)
  unfolding response_headers
  one_round f i n next cursor key value d inside skipped fewer e =
      rw (lt→ltb i sz inside, skipped, fewer, e) refl

  -- The round at the empty line.
  last_round :
      (f i cursor : ℕ) (d : Dict (List ℕ) (List ℕ))
      → drop i buff ≡ 13 ∷ 10 ∷ 13 ∷ 10 ∷ junk
      → sz ≡ i + 4
      → response_headers (suc f) buff sz i cursor d ≡ some (d, 0)
  unfolding response_headers
  last_round f i cursor d here ends =
      let four : sz - i ≡ 4 = omega arith in
      let read =
        ap (λ r. r.1)
          (collect-All is_crlf_byte buff (13 ∷ 10 ∷ 13 ∷ 10 ∷ []) junk i
            (refl, (refl, (refl, (refl, tt)))) here) in
      let counted : (i + 4 - i == 4) ≡ true = ground arith in
      let whole : (i + 4 == sz) ≡ true = ground arith in
      rw (lt→ltb i sz (omega arith), four, read, counted, whole) refl

  skipped :
      (b : Bool) (i c : ℕ) (cs : List ℕ)
      → drop i buff ≡ gap b ++ (c ∷ cs)
      → is_crlf_byte c ≡ false
      → i + length (gap b) < sz
      → (collect is_crlf_byte buff (sz - i) i).1 ≡ i + length (gap b)
  skipped false i c cs here other inside =
      ap (λ r. r.1) (collect-run is_crlf_byte buff [] c cs (sz - i) i tt other (omega arith) here)
  skipped true i c cs here other inside =
      ap (λ r. r.1)
        (collect-run is_crlf_byte buff (13 ∷ 10 ∷ []) c cs (sz - i) i (refl, (refl, tt)) other
          (omega arith) here)

  fewer : (b : Bool) (i : ℕ) → (i + length (gap b) - i == 4) ≡ false
  fewer false i = ground arith
  fewer true i = ground arith

  key_byte : (c : ℕ) → in_key c ≡ true → is_crlf_byte c ≡ false
  key_byte c ok = ground arith

  -- The round at a header, with its line end.
  header_round :
      (f i cursor : ℕ) (b : Bool) (key value more : List ℕ) (d : Dict (List ℕ) (List ℕ))
      → NonEmpty key × All in_key key × All in_line value × Trimmed value
      → NonEmpty value
      → drop i buff ≡ gap b ++ (key ++ (b':' ∷ b' ' ∷ (value ++ (13 ∷ 10 ∷ more))))
      → i + length (gap b) + length key + 2 + length value < sz
      → response_headers (suc f) buff sz i cursor d
        ≡ response_headers f buff sz
            (i + length (gap b) + length key + 2 + length value)
            cursor
            (emplace strings key value d)
  header_round f i cursor b [] value more d (some_key, keyed, single, trimmed) some_value here
        inside =
      absurd (omega arith)
  header_round f i cursor b (c ∷ cs) value more d (some_key, keyed, single, trimmed) some_value here
        inside =
      let rest = b':' ∷ b' ' ∷ (value ++ (13 ∷ 10 ∷ more)) in
      let there = drop-append_at buff i (gap b) ((c ∷ cs) ++ rest) here in
      let n = i + length (gap b) in
      one_round f i n (n + length (c ∷ cs) + 2 + length value) cursor (c ∷ cs) value d (omega arith)
        (skipped b i c (cs ++ rest) here (key_byte c keyed.0) (omega arith)) (fewer b i)
        (header_read n (c ∷ cs) value more there keyed single trimmed inside)
      ∙ ap (λ e. response_headers f buff sz (n + length (c ∷ cs) + 2 + length value) cursor e)
          (kept-emplace (c ∷ cs) value d some_key some_value)

  split_line :
      (key value more : List ℕ)
      → (key ++ (b':' ∷ b' ' ∷ (value ++ (13 ∷ 10 ∷ more)))) ++ junk
        ≡ key ++ (b':' ∷ b' ' ∷ (value ++ (13 ∷ 10 ∷ (more ++ junk))))
  split_line key value more =
      append_assoc key (b':' ∷ b' ' ∷ (value ++ (13 ∷ 10 ∷ more))) junk
      ∙ ap (λ t. key ++ (b':' ∷ b' ' ∷ t)) (append_assoc value (13 ∷ 10 ∷ more) junk)

  -- What stands behind a value.
  behind :
      (i : ℕ) (b : Bool) (key value more : List ℕ)
      → drop i buff ≡ gap b ++ (key ++ (b':' ∷ b' ' ∷ (value ++ (13 ∷ 10 ∷ more))))
      → drop (i + length (gap b) + length key + 2 + length value) buff ≡ 13 ∷ 10 ∷ more
  behind i b key value more here =
      let n = i + length (gap b) in
      let at1 =
        drop-append_at buff i (gap b) (key ++ (b':' ∷ b' ' ∷ (value ++ (13 ∷ 10 ∷ more)))) here in
      let at2 = drop-append_at buff n key (b':' ∷ b' ' ∷ (value ++ (13 ∷ 10 ∷ more))) at1 in
      let at3 =
        drop-append_at buff (n + length key) (b':' ∷ b' ' ∷ []) (value ++ (13 ∷ 10 ∷ more)) at2 in
      drop-append_at buff (n + length key + 2) value (13 ∷ 10 ∷ more) at3

  -- All headers are collected, the first of two with one key, and `cursor` is at the start.
  pub response_headers-lines :
      (f i cursor : ℕ) (b : Bool) (h : Header) (hs : List Header) (d : Dict (List ℕ) (List ℕ))
      → WellFormed (h ∷ hs)
      → Filled (h ∷ hs)
      → suc (length hs) < f
      → drop i buff ≡ gap b ++ (lines (h ∷ hs) ++ junk)
      → sz ≡ i + length (gap b) + length (lines (h ∷ hs))
      → response_headers f buff sz i cursor d ≡ some (collected d (h ∷ hs), 0)
  response_headers-lines zero i cursor b h hs d wf filled enough here ends = absurd (omega arith)
  response_headers-lines (suc zero) i cursor b h hs d wf filled enough here ends =
      absurd (omega arith)
  response_headers-lines (suc (suc f)) i cursor b (key, value) [] d wf filled enough here ends =
      let total = length-line buff sz junk key value (13 ∷ 10 ∷ []) in
      let j = i + length (gap b) + length key + 2 + length value in
      let split = here ∙ ap (λ t. gap b ++ t) (split_line key value (13 ∷ 10 ∷ [])) in
      header_round (suc f) i cursor b key value (13 ∷ 10 ∷ junk) d wf.0 filled.0 split (omega arith)
      ∙ last_round f j cursor (emplace strings key value d)
          (behind i b key value (13 ∷ 10 ∷ junk) split) (omega arith)
  response_headers-lines (suc (suc f)) i cursor b (key, value) (h ∷ hs) d wf filled enough here
        ends =
      let more = lines (h ∷ hs) in
      let total = length-line buff sz junk key value more in
      let next_length = length-line buff sz junk h.0 h.1 (lines hs) in
      let j = i + length (gap b) + length key + 2 + length value in
      let split = here ∙ ap (λ t. gap b ++ t) (split_line key value more) in
      header_round (suc f) i cursor b key value (more ++ junk) d wf.0 filled.0 split (omega arith)
      ∙ response_headers-lines (suc f) j cursor true h hs (emplace strings key value d) wf.1
          filled.1 (omega arith) (behind i b key value (more ++ junk) split) (omega arith)

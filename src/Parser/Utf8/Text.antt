-- ===== src/Parser/Utf8/Text.antt =====
-- `isValidUtf8` of include/WSStreamParser.h against RFC 3629.
use lapp_s.Common.{
  ℕ, zero, suc, ◌+◌, ◌-◌, ◌*◌, ◌≤◌, ◌<◌, Bool, true, false, List, [], ◌∷◌, ◌++◌, ◌≡◌, ◌↔◌, refl,
  sym, ap, subst, ◌∙◌, arith, Option, none, some, ltb, leb, ◌==◌, ==_iff, length, length-drop, drop,
  bit_and, bit_and_octet, of_le_bytes, Bool-cases, inl, inr, IsOctets, utf8_bits,
}
use lapp_s.Parser.Utf8.{
  stopped, skip_ascii, Step, reject, advance, sequence, after_sequence, after_skip, after_word,
  round, scan, is_valid_utf8, word_is_ascii,
}
use lapp_s.Parser.Utf8.Safety.{InText, sequence-InText}
use lapp_s.Parser.Utf8.Scalar.{
  IsUtf8, encode, encode_all, encode_1, encode_2, encode_3, encode_4, Begins,
}
use lapp_s.Parser.Utf8.Sequence.{sequence-Begins}
use lapp_s.Parser.Utf8.Encoded.{encode-Passed, Passed}

IsOctets-drop : (n : ℕ) (m : List ℕ) → IsOctets m → IsOctets (drop n m)
IsOctets-drop zero m h = h
IsOctets-drop (suc n) [] h = h
IsOctets-drop (suc n) (b ∷ m) h = IsOctets-drop n m h.1

-- The first byte of a value's encoding tells whether the value is one of ASCII.
encode-head : (v : ℕ) → 128 ≤ v → (b : ℕ) × (l : List ℕ) × (encode v ≡ b ∷ l) × (128 ≤ b)
encode-head v low = elim (Bool-cases (ltb v 0x800)) [
  | inl two ↦ (_, _, encode_2 v low (ground arith), omega arith)
  | inr from_3 ↦ elim (Bool-cases (ltb v 0x10000)) [
    | inl three ↦ (_, _, encode_3 v (ground arith) (ground arith), omega arith)
    | inr four ↦ (_, _, encode_4 v (ground arith), omega arith)
  ]
]

ascii-IsUtf8 : (a : ℕ) (m : List ℕ) → a < 128 → IsUtf8 (a ∷ m) ↔ IsUtf8 m
ascii-IsUtf8 a m low = (
  from_whole,
  λ (vs, ok, e). (a ∷ vs, (inl (omega arith), ok), rw (encode_1 a low) (ap (λ l. a ∷ l) e)),
)
  where
    from_whole : IsUtf8 (a ∷ m) → IsUtf8 m
    from_whole ([], ok, e) = absurd (ground arith)
    from_whole (v ∷ vs, ok, e) = elim (Bool-cases (ltb v 128)) [
      | inl small ↦
          let same : a ∷ m ≡ v ∷ encode_all vs =
            e ∙ ap (λ l. l ++ encode_all vs) (encode_1 v (ground arith)) in
          (vs, ok.1, ground arith)
      | inr large ↦
          let (b, l, eb, high) = encode-head v (ground arith) in
          let same : a ∷ m ≡ b ∷ (l ++ encode_all vs) = e ∙ ap (λ l. l ++ encode_all vs) eb in
          absurd (ground arith)
    ]

-- A text that begins beyond ASCII begins with a value beyond ASCII.
IsUtf8-Begins :
    (a : ℕ) (m : List ℕ) → 128 ≤ a → IsUtf8 (a ∷ m) → (r : List ℕ) × Begins (a ∷ m) r × IsUtf8 r
IsUtf8-Begins a m high ([], ok, e) = absurd (ground arith)
IsUtf8-Begins a m high (v ∷ vs, ok, e) = elim (Bool-cases (ltb v 128)) [
  | inl small ↦
      let same : a ∷ m ≡ v ∷ encode_all vs =
        e ∙ ap (λ l. l ++ encode_all vs) (encode_1 v (ground arith)) in
      absurd (ground arith)
  | inr large ↦ (encode_all vs, (v, ok.0, ground arith, e), (vs, ok.1, refl))
]

Begins-IsUtf8 : (m r : List ℕ) → Begins m r → IsUtf8 r → IsUtf8 m
Begins-IsUtf8 m r (v, ok, high, e) (vs, oks, er) =
    (v ∷ vs, (ok, oks), e ∙ ap (λ l. encode v ++ l) er)

Begins-Passed : (m r : List ℕ) → Begins m r → Passed m r
Begins-Passed m r (v, ok, high, e) = subst (λ t. Passed t r) (sym e) (encode-Passed v r ok high)

high_bit :
    (a t s : ℕ)
    → a < 256
    → bit_and (a + 256 * t) (128 + 256 * s) ≡ 0
    → (a < 128) × (bit_and t s ≡ 0)
high_bit a t s ok e =
    let split = bit_and_octet a 128 t s ok (omega arith) in
    (ground (arith, (utf8_bits a ok).ascii), omega (arith, split))

-- The test on four bytes at once.
word-ascii :
    (a b c d : ℕ)
    → IsOctets (a ∷ b ∷ c ∷ d ∷ [])
    → bit_and (of_le_bytes (a ∷ b ∷ c ∷ d ∷ [])) 0x80808080 ≡ 0
    → (a < 128) × (b < 128) × (c < 128) × (d < 128)
word-ascii a b c d ok e =
    let (a_low, e1) = high_bit a (of_le_bytes (b ∷ c ∷ d ∷ [])) 0x808080 ok.0 e in
    let (b_low, e2) = high_bit b (of_le_bytes (c ∷ d ∷ [])) 0x8080 ok.1.0 e1 in
    let (c_low, e3) = high_bit c (of_le_bytes (d ∷ [])) 0x80 ok.1.1.0 e2 in
    let (d_low, e4) = high_bit d 0 0 ok.1.1.1.0 e3 in (a_low, b_low, c_low, d_low)

-- An answer of the scan about a text.
abbrev Agrees : Option Bool → List ℕ → Type 0
Agrees answer m = (answer ≡ some true) ↔ IsUtf8 m

module _ (again : List ℕ → ℕ → Option Bool) (n : ℕ)
    (later : (m : List ℕ) → IsOctets m → length m < n → Agrees (again m (length m)) m) where
  after_sequence-Agrees :
      (a : ℕ) (m : List ℕ) (o : Option Step)
      → IsOctets (a ∷ m)
      → 128 ≤ a
      → length (a ∷ m) ≤ n
      → sequence (a ∷ m) (length (a ∷ m)) ≡ o
      → Agrees (after_sequence again (a ∷ m) (length (a ∷ m)) o) (a ∷ m)
  unfolding after_sequence
  after_sequence-Agrees a m none ok high fits e = (
    λ h. absurd (ground arith),
    λ text.
        let (r, begins, behind) = IsUtf8-Begins a m high text in
        let (k, passed, dropped) = Begins-Passed (a ∷ m) r begins in absurd (ground arith),
  )
  after_sequence-Agrees a m (some reject) ok high fits e = (
    λ h. absurd (ground arith),
    λ text.
        let (r, begins, behind) = IsUtf8-Begins a m high text in
        let (k, passed, dropped) = Begins-Passed (a ∷ m) r begins in absurd (ground arith),
  )
  after_sequence-Agrees a m (some (advance k)) ok high fits e =
      let inside : InText (length (a ∷ m)) (some (advance k)) =
        subst (InText (length (a ∷ m))) e
          (sequence-InText (a ∷ m) (length (a ∷ m)) (omega arith) (omega arith)) in
      let left = length-drop k (a ∷ m) in
      let ih = later (drop k (a ∷ m)) (IsOctets-drop k (a ∷ m) ok) (omega (arith, inside)) in
      rw (← left) (
        λ h. Begins-IsUtf8 (a ∷ m) (drop k (a ∷ m)) (sequence-Begins a m k ok high e) (ih.0 h),
        λ text.
            let (r, begins, behind) = IsUtf8-Begins a m high text in
            let (j, passed, dropped) = Begins-Passed (a ∷ m) r begins in
            let same : j ≡ k = ground arith in
            ih.1 (subst IsUtf8 (sym dropped ∙ ap (λ i. drop i (a ∷ m)) same) behind),
      )

  not_ascii-Agrees :
      (a : ℕ) (m : List ℕ)
      → IsOctets (a ∷ m)
      → 128 ≤ a
      → length (a ∷ m) ≤ n
      → Agrees (after_skip again (some (stopped (a ∷ m) (length (a ∷ m))))) (a ∷ m)
  unfolding after_skip
  not_ascii-Agrees a m ok high fits =
      after_sequence-Agrees a m (sequence (a ∷ m) (length (a ∷ m))) ok high fits refl

  -- What the inner loop passes is ASCII.
  skip_ascii-Agrees :
      (a : ℕ) (m : List ℕ)
      → IsOctets (a ∷ m)
      → length (a ∷ m) ≤ n
      → Agrees (after_skip again (skip_ascii (a ∷ m) (length (a ∷ m)))) (a ∷ m)
  unfolding skip_ascii after_skip
  skip_ascii-Agrees a [] ok fits = elim ((utf8_bits a ok.0).ascii) [
    | inl (bits, from_0, low) ↦
        rw bits (λ h. (ascii-IsUtf8 a [] low).1 ([], tt, refl), λ text. refl)
    | inr (bits, off) ↦ rw bits (not_ascii-Agrees a [] ok (ground arith) fits)
  ]
  skip_ascii-Agrees a (b ∷ m) ok fits = elim ((utf8_bits a ok.0).ascii) [
    | inl (bits, from_0, low) ↦
        let ih = skip_ascii-Agrees b m ok.1 (omega arith) in
        let less : length (a ∷ b ∷ m) - 1 ≡ length (b ∷ m) = omega arith in
        let more : (length (a ∷ b ∷ m) == 1) ≡ false = ground arith in
        let whole = ascii-IsUtf8 a (b ∷ m) low in
        rw bits (rw more (rw less (λ h. whole.1 (ih.0 h), λ text. ih.1 (whole.0 text))))
    | inr (bits, off) ↦ rw bits (not_ascii-Agrees a (b ∷ m) ok (ground arith) fits)
  ]

  word-Agrees :
      (a b c d : ℕ) (m : List ℕ)
      → IsOctets (a ∷ b ∷ c ∷ d ∷ m)
      → length (a ∷ b ∷ c ∷ d ∷ m) ≤ n
      → Agrees
          (after_word again
            (a ∷ b ∷ c ∷ d ∷ m)
            (length (a ∷ b ∷ c ∷ d ∷ m))
            (word_is_ascii (a ∷ b ∷ c ∷ d ∷ m)))
          (a ∷ b ∷ c ∷ d ∷ m)
  unfolding after_word
  word-Agrees a b c d m (oa, (ob, (oc, (od, om)))) fits =
      elim (Bool-cases (bit_and (of_le_bytes (a ∷ b ∷ c ∷ d ∷ [])) 0x80808080 == 0)) [
        | inl ascii ↦
            let (la, lb, lc, ld) =
              word-ascii a b c d (oa, (ob, (oc, (od, tt)))) ((==_iff _ _).0 ascii) in
            let ih = later m om (omega arith) in
            let less : length (a ∷ b ∷ c ∷ d ∷ m) - 4 ≡ length m = omega arith in
            let fa = ascii-IsUtf8 a (b ∷ c ∷ d ∷ m) la in
            let fb = ascii-IsUtf8 b (c ∷ d ∷ m) lb in
            let fc = ascii-IsUtf8 c (d ∷ m) lc in
            let fd = ascii-IsUtf8 d m ld in
            rw ascii (
              rw less (
                λ h. fa.1 (fb.1 (fc.1 (fd.1 (ih.0 h)))),
                λ text. ih.1 (fd.0 (fc.0 (fb.0 (fa.0 text)))),
              ))
        | inr other ↦ rw other (skip_ascii-Agrees a (b ∷ c ∷ d ∷ m) (oa, (ob, (oc, (od, om)))) fits)
      ]

  round-Agrees :
      (m : List ℕ) → IsOctets m → 0 < length m → length m ≤ n → Agrees (round again m (length m)) m
  unfolding round
  round-Agrees [] ok some_left fits = absurd (omega arith)
  round-Agrees (a ∷ []) ok some_left fits = skip_ascii-Agrees a [] ok fits
  round-Agrees (a ∷ b ∷ []) ok some_left fits = skip_ascii-Agrees a (b ∷ []) ok fits
  round-Agrees (a ∷ b ∷ c ∷ []) ok some_left fits = skip_ascii-Agrees a (b ∷ c ∷ []) ok fits
  round-Agrees (a ∷ b ∷ c ∷ d ∷ m) ok some_left fits =
      let whole : leb 4 (length (a ∷ b ∷ c ∷ d ∷ m)) ≡ true = ground arith in
      rw whole (word-Agrees a b c d m ok fits)

scan-Agrees : (f : ℕ) (m : List ℕ) → IsOctets m → length m < f → Agrees (scan f m (length m)) m
unfolding scan
scan-Agrees zero m ok enough = absurd (omega arith)
scan-Agrees (suc f) [] ok enough = (λ h. ([], tt, refl), λ text. refl)
scan-Agrees (suc f) (a ∷ m) ok enough =
    let more : (length (a ∷ m) == 0) ≡ false = ground arith in
    rw more (
      round-Agrees (scan f) (length (a ∷ m)) (λ t okt less. scan-Agrees f t okt (omega arith))
        (a ∷ m) ok (omega arith) (omega arith))

-- A text is found valid just when it is the encoding of a sequence of Unicode scalar values, as
-- RFC 3629 defines it: no surrogates, no value above 10FFFF, and no encoding longer than needed.
pub is_valid_utf8_iff :
    (cs : List ℕ) → IsOctets cs → (is_valid_utf8 cs (length cs) ≡ some true) ↔ IsUtf8 cs
unfolding is_valid_utf8
is_valid_utf8_iff cs ok = scan-Agrees (suc (length cs)) cs ok (omega arith)

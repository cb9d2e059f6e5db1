-- ===== src/Parser/Copy/Loop.antt =====
-- The unmasking loops of include/WSStreamServerParser.h: the loops over eight bytes do what the
-- loop over single bytes does.
use lapp_s.Common.{
  ℕ, zero, suc, ◌+◌, ◌-◌, ◌*◌, ◌%◌, ◌≤◌, ◌<◌, Bool, true, false, List, [], ◌∷◌, ◌≡◌, refl, sym, ap,
  ap₂, ◌∙◌, arith, leb, byte_at, byte_at-lt, IsOctets, of_le_bytes, le_bytes, length,
  le_bytes-of_le_bytes, bit_xor, bit_xor-lt, bit_xor_octet, Bool-cases, inl, inr, ◌⊎◌,
}
use lapp_s.Protocol.{Four}
use lapp_s.Parser.Copy.{
  Copying, key_at, while, byte_test, byte_body, align_test, word_test, word_body, load_word,
  store_bytes, unmask,
}

-- Exclusive or of words, octet by octet.
abbrev pub xor_bytes : List ℕ → List ℕ → List ℕ
xor_bytes [] ys = []
xor_bytes (x ∷ xs) [] = []
xor_bytes (x ∷ xs) (y ∷ ys) = bit_xor x y ∷ xor_bytes xs ys

pub xor-IsOctets : (xs ys : List ℕ) → IsOctets xs → IsOctets ys → IsOctets (xor_bytes xs ys)
xor-IsOctets [] ys p q = tt
xor-IsOctets (x ∷ xs) [] p q = tt
xor-IsOctets (x ∷ xs) (y ∷ ys) p q = (bit_xor-lt 8 x y p.0 q.0, xor-IsOctets xs ys p.1 q.1)

pub of_le_bytes-xor :
    (xs ys : List ℕ)
    → length xs ≡ length ys
    → IsOctets xs
    → IsOctets ys
    → bit_xor (of_le_bytes xs) (of_le_bytes ys) ≡ of_le_bytes (xor_bytes xs ys)
of_le_bytes-xor [] [] e p q = refl
of_le_bytes-xor [] (y ∷ ys) e p q = absurd (omega arith)
of_le_bytes-xor (x ∷ xs) [] e p q = absurd (omega arith)
of_le_bytes-xor (x ∷ xs) (y ∷ ys) e p q =
    bit_xor_octet x y (of_le_bytes xs) (of_le_bytes ys) p.0 q.0
    ∙ ap (λ t. bit_xor x y + 256 * t) (of_le_bytes-xor xs ys (omega arith) p.1 q.1)

pub while-true :
    (f : ℕ) (test : Copying → Bool) (body : Copying → Copying) (s : Copying)
    → test s ≡ true
    → while (suc f) test body s ≡ while f test body (body s)
unfolding while
while-true f test body s e = rw (e, while) refl

pub while-false :
    (f : ℕ) (test : Copying → Bool) (body : Copying → Copying) (s : Copying)
    → test s ≡ false
    → while f test body s ≡ s
unfolding while
while-false zero test body s e = refl
while-false (suc f) test body s e = rw (e, while) refl

-- The four mask bytes twice, as a word in memory.
abbrev pub IsDouble : Four → ℕ → Type 0
IsDouble k mask = mask ≡ of_le_bytes (k.b0 ∷ k.b1 ∷ k.b2 ∷ k.b3 ∷ k.b0 ∷ k.b1 ∷ k.b2 ∷ k.b3 ∷ [])

abbrev pub IsKey : Four → Type 0
IsKey k = (k.b0 < 256) × (k.b1 < 256) × (k.b2 < 256) × (k.b3 < 256)

module _ (stream : List ℕ) (limit size used : ℕ) (key : Four) (mask : ℕ) where
  abbrev more_bytes : Copying → Bool
  more_bytes = byte_test stream limit size used key mask

  abbrev one_byte : Copying → Copying
  one_byte = byte_body stream limit size used key mask

  abbrev misaligned : Copying → Bool
  misaligned = align_test stream limit size used key mask

  abbrev more_words : Copying → Bool
  more_words = word_test stream limit size used key mask

  abbrev one_word : Copying → Copying
  one_word = word_body stream limit size used key mask

  -- The loop over single bytes, to its end.
  unfoldable pub bytewise : Copying → Copying
  bytewise s = while (limit - s.at) more_bytes one_byte s

  pub bytewise-step : (s : Copying) → more_bytes s ≡ true → bytewise s ≡ bytewise (one_byte s)
  unfolding bytewise byte_test byte_body while
  bytewise-step s more =
      let left : limit - s.at ≡ suc (limit - (s.at + 1)) = ground arith in
      rw (left, while) (rw more refl)

  at_end : (s : Copying) → limit ≤ s.at → more_bytes s ≡ false
  unfolding byte_test
  at_end s h = ground arith

  at-one_byte : (s : Copying) (n : ℕ) → limit - s.at ≤ suc n → limit - (one_byte s).at ≤ n
  unfolding byte_body
  at-one_byte s n h = omega arith

  while_enough :
      (n m : ℕ) (s : Copying)
      → limit - s.at ≤ n
      → limit - s.at ≤ m
      → while n more_bytes one_byte s ≡ while m more_bytes one_byte s
  unfolding while
  while_enough zero zero s p q = refl
  while_enough zero (suc m) s p q =
      sym (while-false (suc m) more_bytes one_byte s (at_end s (omega arith)))
  while_enough (suc n) zero s p q =
      while-false (suc n) more_bytes one_byte s (at_end s (omega arith))
  while_enough (suc n) (suc m) s p q = elim (Bool-cases (more_bytes s)) [
    | inl more ↦
        rw (while-true n more_bytes one_byte s more, while-true m more_bytes one_byte s more)
          (while_enough n m (one_byte s) (at-one_byte s n p) (at-one_byte s m q))
    | inr over ↦
        rw
          (
            while-false (suc n) more_bytes one_byte s over,
            while-false (suc m) more_bytes one_byte s over,
          )
          refl
  ]

  -- The loop that aligns takes steps of the byte loop.
  aligns : (s : Copying) → misaligned s ≡ true → more_bytes s ≡ true
  unfolding align_test
  aligns s h = ground arith

  bytewise-align : (n : ℕ) (s : Copying) → bytewise (while n misaligned one_byte s) ≡ bytewise s
  unfolding while
  bytewise-align zero s = refl
  bytewise-align (suc n) s = elim (Bool-cases (misaligned s)) [
    | inl more ↦
        rw (while-true n misaligned one_byte s more)
          (bytewise-align n (one_byte s) ∙ sym (bytewise-step s (aligns s more)))
    | inr over ↦ rw (while-false (suc n) misaligned one_byte s over) refl
  ]

  align_ends : (s : Copying) → limit ≤ s.at → misaligned s ≡ false
  unfolding align_test byte_test
  align_ends s h = ground arith

  while-align :
      (n : ℕ) (s : Copying) → limit - s.at ≤ n → misaligned (while n misaligned one_byte s) ≡ false
  unfolding while
  while-align zero s h = align_ends s (omega arith)
  while-align (suc n) s h = elim (Bool-cases (misaligned s)) [
    | inl more ↦
        rw (while-true n misaligned one_byte s more)
          (while-align n (one_byte s) (at-one_byte s n h))
    | inr over ↦ rw (while-false (suc n) misaligned one_byte s over) over
  ]

  -- Where the loop that aligns has ended, the position is aligned or there is no word to copy.
  abbrev WordReady : Copying → Type 0
  WordReady s = (s.ready % 4 ≡ 0) ⊎ (more_words s ≡ false)

  aligned : (s : Copying) → misaligned s ≡ false → WordReady s
  unfolding align_test byte_test word_test
  aligned s h = ground arith

  -- `k` steps of the byte loop at once.
  chunk : ℕ → ℕ → ℕ → List ℕ
  chunk zero at ready = []
  chunk (suc k) at ready =
      bit_xor (byte_at stream at) (key_at key (ready % 4)) ∷ chunk k (at + 1) (ready + 1)

  after : ℕ → Copying → Copying
  after k s = record {
    ready = s.ready + k;
    at = s.at + k;
    out = store_bytes s.out (used + s.ready) (chunk k s.at s.ready);
  }

  after-suc : (k : ℕ) (s : Copying) → after k (one_byte s) ≡ after (suc k) s
  unfolding after chunk byte_body
  after-suc k s =
      let e1 : s.ready + 1 + k ≡ s.ready + suc k = omega arith in
      let e2 : s.at + 1 + k ≡ s.at + suc k = omega arith in
      let e3 : used + (s.ready + 1) ≡ used + s.ready + 1 = omega arith in
      λ i. record {
        ready = e1 i;
        at = e2 i;
        out = store_bytes (one_byte s).out (e3 i) (chunk k (s.at + 1) (s.ready + 1));
      }

  more : (k : ℕ) (s : Copying) → s.ready + suc k ≤ size → s.at + suc k ≤ limit → more_bytes s ≡ true
  unfolding byte_test
  more k s p q = ground arith

  left : (k : ℕ) (s : Copying) → s.ready + suc k ≤ size → (one_byte s).ready + k ≤ size
  unfolding byte_body
  left k s p = omega arith

  left_at : (k : ℕ) (s : Copying) → s.at + suc k ≤ limit → (one_byte s).at + k ≤ limit
  unfolding byte_body
  left_at k s p = omega arith

  bytewise-after :
      (k : ℕ) (s : Copying)
      → s.ready + k ≤ size
      → s.at + k ≤ limit
      → bytewise s ≡ bytewise (after k s)
  unfolding after chunk
  bytewise-after zero s p q = ap bytewise (after-zero s)
    where
      after-zero : (s : Copying) → s ≡ after 0 s
      after-zero s =
          let e1 : s.ready ≡ s.ready + 0 = omega arith in
          let e2 : s.at ≡ s.at + 0 = omega arith in
          λ i. record { ready = e1 i; at = e2 i; out = s.out }
  bytewise-after (suc k) s p q =
      bytewise-step s (more k s p q)
      ∙ (bytewise-after k (one_byte s) (left k s p) (left_at k s q) ∙ ap bytewise (after-suc k s))

  at-align : (n : ℕ) (s : Copying) → s.at ≤ (while n misaligned one_byte s).at
  unfolding byte_body
  at-align zero s = unfold while in omega arith
  at-align (suc n) s = elim (Bool-cases (misaligned s)) [
    | inl more ↦
        rw (while-true n misaligned one_byte s more) (omega (arith, at-align n (one_byte s)))
    | inr over ↦ rw (while-false (suc n) misaligned one_byte s over) (omega arith)
  ]

  at-words : (n : ℕ) (s : Copying) → s.at ≤ (while n more_words one_word s).at
  unfolding word_body
  at-words zero s = unfold while in omega arith
  at-words (suc n) s = elim (Bool-cases (more_words s)) [
    | inl more ↦
        rw (while-true n more_words one_word s more) (omega (arith, at-words n (one_word s)))
    | inr over ↦ rw (while-false (suc n) more_words one_word s over) (omega arith)
  ]

  at-bytes : (n : ℕ) (s : Copying) → s.at ≤ (while n more_bytes one_byte s).at
  unfolding byte_body
  at-bytes zero s = unfold while in omega arith
  at-bytes (suc n) s = elim (Bool-cases (more_bytes s)) [
    | inl more ↦
        rw (while-true n more_bytes one_byte s more) (omega (arith, at-bytes n (one_byte s)))
    | inr over ↦ rw (while-false (suc n) more_bytes one_byte s over) (omega arith)
  ]

  -- The loops never move backwards.
  pub at-unmask : (s : Copying) → s.at ≤ (unmask stream limit size used key mask s).at
  unfolding unmask
  at-unmask s =
      let n = limit - s.at in
      let a = while n misaligned one_byte s in
      let w = while n more_words one_word a in
      elim (Bool-cases (leb 16 n)) [
        | inl long ↦ rw long (omega (arith, at-align n s, at-words n a, at-bytes n w))
        | inr short ↦ rw short (at-bytes n s)
      ]

  -- A word of eight bytes is eight bytes.
  module _ (octets : IsOctets stream) (key_octets : IsKey key) (double : IsDouble key mask) where
    masked :
        (a b r k : ℕ)
        → a ≡ b
        → r % 4 ≡ k
        → bit_xor (byte_at stream a) (key_at key (r % 4))
          ≡ bit_xor (byte_at stream b) (key_at key k)
    masked a b r k e f = ap₂ (λ x y. bit_xor (byte_at stream x) (key_at key y)) e f

    word-chunk :
        (at ready : ℕ)
        → ready % 4 ≡ 0
        → le_bytes 8 (bit_xor (load_word stream limit size used key mask at) mask)
          ≡ chunk 8 at ready
    unfolding chunk
    word-chunk at ready h =
        let d =
          byte_at stream at
          ∷ byte_at stream (at + 1)
          ∷ byte_at stream (at + 2)
          ∷ byte_at stream (at + 3)
          ∷ byte_at stream (at + 4)
          ∷ byte_at stream (at + 5)
          ∷ byte_at stream (at + 6)
          ∷ byte_at stream (at + 7)
          ∷ [] in
        let m = key.b0 ∷ key.b1 ∷ key.b2 ∷ key.b3 ∷ key.b0 ∷ key.b1 ∷ key.b2 ∷ key.b3 ∷ [] in
        let o = λ (i : ℕ). byte_at-lt stream i octets in
        let dp : IsOctets d = (
          o at,
          (
            o (at + 1),
            (o (at + 2), (o (at + 3), (o (at + 4), (o (at + 5), (o (at + 6), (o (at + 7), tt)))))),
          ),
        ) in
        let mp : IsOctets m = omega arith in
        ap (le_bytes 8) (ap (bit_xor (of_le_bytes d)) double ∙ of_le_bytes-xor d m refl dp mp)
        ∙ (le_bytes-of_le_bytes (xor_bytes d m) (xor-IsOctets d m dp mp)
            ∙ sym (
                ap₂ ◌∷◌ (masked at at ready 0 refl h) (
                  ap₂ ◌∷◌ (masked (at + 1) (at + 1) (ready + 1) 1 refl (omega arith)) (
                    ap₂ ◌∷◌
                      (masked (at + 1 + 1) (at + 2) (ready + 1 + 1) 2 (omega arith) (omega arith))
                      (ap₂ ◌∷◌
                        (masked (at + 1 + 1 + 1) (at + 3) (ready + 1 + 1 + 1) 3 (omega arith)
                          (omega arith))
                        (ap₂ ◌∷◌
                          (masked (at + 1 + 1 + 1 + 1) (at + 4) (ready + 1 + 1 + 1 + 1) 0
                            (omega arith) (omega arith))
                          (ap₂ ◌∷◌
                            (masked (at + 1 + 1 + 1 + 1 + 1) (at + 5) (ready + 1 + 1 + 1 + 1 + 1) 1
                              (omega arith) (omega arith))
                            (ap₂ ◌∷◌
                              (masked (at + 1 + 1 + 1 + 1 + 1 + 1) (at + 6)
                                (ready + 1 + 1 + 1 + 1 + 1 + 1) 2 (omega arith) (omega arith))
                              (ap (λ t. t ∷ [])
                                (masked (at + 1 + 1 + 1 + 1 + 1 + 1 + 1) (at + 7)
                                  (ready + 1 + 1 + 1 + 1 + 1 + 1 + 1) 3 (omega arith)
                                  (omega arith)))))))))))

    one_word-after : (s : Copying) → s.ready % 4 ≡ 0 → one_word s ≡ after 8 s
    unfolding word_body after
    one_word-after s h =
        ap
          (λ l. record {
            ready = s.ready + 8;
            at = s.at + 8;
            out = store_bytes s.out (used + s.ready) l;
          })
          (word-chunk s.at s.ready h)

    room : (s : Copying) → more_words s ≡ true → (s.ready + 8 ≤ size) × (s.at + 8 ≤ limit)
    unfolding word_test
    room s h = ground arith

    word-WordReady :
        (s : Copying)
        → WordReady s
        → more_words s ≡ true
        → (s.ready % 4 ≡ 0) × WordReady (one_word s)
    unfolding word_body
    word-WordReady s (inl h) more = (h, inl (omega arith))
    word-WordReady s (inr h) more = cc

    bytewise-words :
        (n : ℕ) (s : Copying) → WordReady s → bytewise (while n more_words one_word s) ≡ bytewise s
    unfolding while
    bytewise-words zero s ready = refl
    bytewise-words (suc n) s ready = elim (Bool-cases (more_words s)) [
      | inl more ↦
          let (at, next) = word-WordReady s ready more in
          let (p, q) = room s more in
          rw (while-true n more_words one_word s more) (
            bytewise-words n (one_word s) next
            ∙ (ap bytewise (one_word-after s at) ∙ sym (bytewise-after 8 s p q)))
      | inr over ↦ rw (while-false (suc n) more_words one_word s over) refl
    ]

    -- For an input of octets, a key of octets and a word that holds the key twice, the three
    -- loops together leave the counters and the buffer as the loop over single bytes does,
    -- whatever the position that the copy starts from.
    pub unmask_lem : (s : Copying) → unmask stream limit size used key mask s ≡ bytewise s
    unfolding unmask bytewise
    unmask_lem s =
        let n = limit - s.at in
        let a = while n misaligned one_byte s in
        let w = while n more_words one_word a in
        let ready = aligned a (while-align n s (omega arith)) in
        let reached : limit - w.at ≤ n = omega (arith, at-align n s, at-words n a) in
        elim (Bool-cases (leb 16 n)) [
          | inl long ↦ rw long (
              while_enough n (limit - w.at) w reached (omega arith)
              ∙ (bytewise-words n a ready ∙ bytewise-align n s))
          | inr short ↦ rw short refl
        ]

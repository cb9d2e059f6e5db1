-- ===== src/Parser/Utf8/Overrun.antt =====
-- `isValidUtf8` of include/WSStreamParser.h on a text, given a length that runs past its end.
use lapp_s.Common.{
  ℕ, zero, suc, ◌+◌, ◌-◌, ◌≤◌, ◌<◌, Bool, true, false, List, [], ◌∷◌, ◌≡◌, ◌≢◌, refl, sym, ap, ◌∙◌,
  subst, arith, Option, none, some, ◌==◌, length, length-drop, drop, bit_and, Bool-cases, inl, inr,
  leb, of_le_bytes, if◌then◌else◌,
}
use lapp_s.Parser.Utf8.{
  Skip, at_end, stopped, skip_ascii, Step, reject, advance, sequence, after_sequence, after_skip,
  after_word, round, scan, is_valid_utf8, word_is_ascii,
}
use lapp_s.Parser.Utf8.Bounds.{sequence_inside, is_valid_utf8-overrun}

-- A sequence that is taken is taken with more bytes to come.
sequence_longer :
    (m : List ℕ) (n l j : ℕ)
    → n ≤ l
    → sequence m n ≡ some (advance j)
    → sequence m l ≡ some (advance j)
unfolding sequence
sequence_longer [] n l j more h = ground arith
sequence_longer (a ∷ []) n l j more h = ground arith
sequence_longer (a ∷ b ∷ []) n l j more h = ground arith
sequence_longer (a ∷ b ∷ c ∷ []) n l j more h = ground arith
sequence_longer (a ∷ b ∷ c ∷ d ∷ m) n l j more h = ground arith

-- The pointer stops at the same byte, or leaves the memory.
abbrev Follows : ℕ → Option Skip → Option Skip → Type 0
Follows k exact none = Unit
Follows k exact (some at_end) = ⊥
Follows k exact (some (stopped m left)) =
    (exact ≡ some (stopped m (length m))) × (left ≡ length m + k)

skip_ascii-Follows :
    (m : List ℕ) (k : ℕ) → 0 < k → Follows k (skip_ascii m (length m)) (skip_ascii m (length m + k))
unfolding skip_ascii
skip_ascii-Follows [] k some_more = tt
skip_ascii-Follows (b ∷ []) k some_more = elim (Bool-cases (bit_and b 128 == 0)) [
  | inl ascii ↦ let on : (1 + k == 1) ≡ false = ground arith in rw ascii (rw on tt)
  | inr other ↦ rw other (refl, refl)
]
skip_ascii-Follows (b ∷ c ∷ m) k some_more = elim (Bool-cases (bit_and b 128 == 0)) [
  | inl ascii ↦
      let on : (length (b ∷ c ∷ m) == 1) ≡ false = ground arith in
      let on' : (length (b ∷ c ∷ m) + k == 1) ≡ false = ground arith in
      let less : length (b ∷ c ∷ m) + k - 1 ≡ length (c ∷ m) + k = omega arith in
      let less' : length (b ∷ c ∷ m) - 1 ≡ length (c ∷ m) = omega arith in
      rw ascii (rw on (rw on' (rw less (rw less' (skip_ascii-Follows (c ∷ m) k some_more)))))
  | inr other ↦ rw other (refl, refl)
]

module _ (k : ℕ) (some_more : 0 < k) (again again' : List ℕ → ℕ → Option Bool)
    (later : (m : List ℕ) (left : ℕ)
      → left ≡ length m + k
      → again m (length m) ≡ some true
      → again' m left ≢ some false) where
  after_drop :
      (j : ℕ) (m : List ℕ) (left : ℕ)
      → j ≤ length m
      → left ≡ length m + k
      → again (drop j m) (length m - j) ≡ some true
      → again' (drop j m) (left - j) ≢ some false
  after_drop j m left inside more taken =
      later (drop j m) (left - j) (omega (arith, length-drop j m))
        (ap (again (drop j m)) (length-drop j m) ∙ taken)

  after_sequence-longer :
      (m : List ℕ) (left : ℕ) (o : Option Step)
      → left ≡ length m + k
      → sequence m (length m) ≡ o
      → after_sequence again m (length m) o ≡ some true
      → after_sequence again' m left (sequence m left) ≢ some false
  unfolding after_sequence
  after_sequence-longer m left none more e taken = absurd (ground arith)
  after_sequence-longer m left (some reject) more e taken = absurd (ground arith)
  after_sequence-longer m left (some (advance j)) more e taken =
      rw (sequence_longer m (length m) left j (omega arith) e)
        (after_drop j m left (sequence_inside m (length m) j e) more taken)

  after_skip-longer :
      (exact longer : Option Skip)
      → Follows k exact longer
      → after_skip again exact ≡ some true
      → after_skip again' longer ≢ some false
  unfolding after_skip
  after_skip-longer exact none follows taken = λ e. absurd (ground arith)
  after_skip-longer exact (some at_end) follows taken = absurd follows
  after_skip-longer exact (some (stopped m left)) (here, more) taken =
      after_sequence-longer m left (sequence m (length m)) more refl
        (sym (ap (after_skip again) here) ∙ taken)

  skipped :
      (m : List ℕ)
      → after_skip again (skip_ascii m (length m)) ≡ some true
      → after_skip again' (skip_ascii m (length m + k)) ≢ some false
  skipped m taken =
      after_skip-longer (skip_ascii m (length m)) (skip_ascii m (length m + k))
        (skip_ascii-Follows m k some_more) taken

  after_word-longer :
      (m : List ℕ)
      → round again m (length m) ≡ some true
      → after_word again' m (length m + k) (word_is_ascii m) ≢ some false
  unfolding round after_word
  after_word-longer [] taken = λ e. absurd (ground arith)
  after_word-longer (a ∷ []) taken = λ e. absurd (ground arith)
  after_word-longer (a ∷ b ∷ []) taken = λ e. absurd (ground arith)
  after_word-longer (a ∷ b ∷ c ∷ []) taken = λ e. absurd (ground arith)
  after_word-longer (a ∷ b ∷ c ∷ d ∷ m) taken =
      by_word (bit_and (of_le_bytes (a ∷ b ∷ c ∷ d ∷ [])) 0x80808080 == 0) (
        ap
          (λ t.
            if t
            then after_word again (a ∷ b ∷ c ∷ d ∷ m) (length (a ∷ b ∷ c ∷ d ∷ m))
                (word_is_ascii (a ∷ b ∷ c ∷ d ∷ m))
            else after_skip again (skip_ascii (a ∷ b ∷ c ∷ d ∷ m) (length (a ∷ b ∷ c ∷ d ∷ m))))
          (sym whole)
        ∙ taken)
    where
      whole : leb 4 (length (a ∷ b ∷ c ∷ d ∷ m)) ≡ true
      whole = ground arith

      by_word :
          (ascii : Bool)
          → after_word again (a ∷ b ∷ c ∷ d ∷ m) (length (a ∷ b ∷ c ∷ d ∷ m)) (some ascii)
            ≡ some true
          → after_word again' (a ∷ b ∷ c ∷ d ∷ m) (length (a ∷ b ∷ c ∷ d ∷ m) + k) (some ascii)
            ≢ some false
      by_word true taken' =
          after_drop 4 (a ∷ b ∷ c ∷ d ∷ m) (length (a ∷ b ∷ c ∷ d ∷ m) + k) (omega arith) refl
            taken'
      by_word false taken' = skipped (a ∷ b ∷ c ∷ d ∷ m) taken'

  round-longer :
      (m : List ℕ)
      → round again m (length m) ≡ some true
      → round again' m (length m + k) ≢ some false
  unfolding round
  round-longer m taken = elim (Bool-cases (leb 4 (length m + k))) [
    | inl whole ↦ rw whole (after_word-longer m taken)
    | inr part ↦
        let part' : leb 4 (length m) ≡ false = ground arith in
        rw part (
          skipped m (
            ap
              (λ b.
                if b
                then after_word again m (length m) (word_is_ascii m)
                else after_skip again (skip_ascii m (length m)))
              (sym part')
            ∙ taken))
  ]

round-nothing : (again : List ℕ → ℕ → Option Bool) (left : ℕ) → round again [] left ≢ some false
unfolding round after_word after_skip skip_ascii
round-nothing again left = elim (Bool-cases (leb 4 left)) [
  | inl whole ↦ rw whole (λ e. absurd (ground arith))
  | inr part ↦ rw part (λ e. absurd (ground arith))
]

-- What is valid with its length is not found to be wrong with a longer one.
scan-longer :
    (f f' k : ℕ) (m : List ℕ)
    → 0 < k
    → scan f m (length m) ≡ some true
    → scan f' m (length m + k) ≢ some false
unfolding scan
scan-longer f zero k m some_more taken = λ e. absurd (ground arith)
scan-longer zero (suc f') k m some_more taken = absurd (ground arith)
scan-longer (suc f) (suc f') k [] some_more taken =
    let on : (0 + k == 0) ≡ false = ground arith in rw on (round-nothing (scan f') (0 + k))
scan-longer (suc f) (suc f') k (b ∷ m) some_more taken =
    let on : (length (b ∷ m) + k == 0) ≡ false = ground arith in
    let on' : (length (b ∷ m) == 0) ≡ false = ground arith in
    rw on (
      round-longer k some_more (scan f) (scan f')
        (λ m left more taken.
          subst (λ l. scan f' m l ≢ some false) (sym more) (scan-longer f f' k m some_more taken))
        (b ∷ m)
        (ap (λ t. if t then some true else round (scan f) (b ∷ m) (length (b ∷ m))) (sym on')
          ∙ taken))

-- A valid text, given a length that runs past its end, is read past its end.
pub is_valid_utf8-longer :
    (cs : List ℕ) (k : ℕ)
    → 0 < k
    → is_valid_utf8 cs (length cs) ≡ some true
    → is_valid_utf8 cs (length cs + k) ≡ none
unfolding is_valid_utf8
is_valid_utf8-longer cs k some_more valid =
    by_answer (is_valid_utf8 cs (length cs + k))
      (is_valid_utf8-overrun cs (length cs + k) (omega arith))
      (scan-longer (suc (length cs)) (suc (length cs + k)) k cs some_more valid)
  where
    by_answer : (o : Option Bool) → o ≢ some true → o ≢ some false → o ≡ none
    by_answer none not_true not_false = refl
    by_answer (some true) not_true not_false = absurd (not_true refl)
    by_answer (some false) not_true not_false = absurd (not_false refl)

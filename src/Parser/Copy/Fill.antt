-- ===== src/Parser/Copy/Fill.antt =====
-- What the unmasking loops leave in the buffer.
use lapp_s.Common.{
  ℕ, suc, ◌+◌, ◌-◌, ◌%◌, ◌≤◌, min, true, false, List, [], ◌∷◌, ◌++◌, ◌≡◌, refl, sym, ap, ap₂, ◌∙◌,
  arith, length, drop, set-append, append_assoc, length-append, drop-suc, drop-length, drop-byte_at,
  byte_at-lt, bit_xor, bit_xor_cancel, IsOctets, ◌⊎◌, inl, inr,
}
use lapp_s.Protocol.{Four}
use lapp_s.Parser.Copy.{Copying, key_at, byte_test, byte_body, unmask}
use lapp_s.Parser.Copy.Loop.{bytewise, bytewise-step, while-false, unmask_lem, IsKey, IsDouble}

-- Section 5.3 of RFC 6455: octet `i` of the payload against octet `i` modulo 4 of the key.
abbrev pub mask_from : Four → ℕ → List ℕ → List ℕ
mask_from key i [] = []
mask_from key i (b ∷ bs) = bit_xor b (key_at key (i % 4)) ∷ mask_from key (i + 1) bs

-- The part `hole` of the buffer, overwritten by as much of the input as fits.
abbrev pub fill : Four → ℕ → List ℕ → List ℕ → List ℕ
fill key i [] bs = []
fill key i (h ∷ hs) [] = h ∷ hs
fill key i (h ∷ hs) (b ∷ bs) = bit_xor b (key_at key (i % 4)) ∷ fill key (i + 1) hs bs

pub fill-whole :
    (key : Four) (i : ℕ) (hole src post : List ℕ)
    → length hole ≡ length src
    → fill key i hole (src ++ post) ≡ mask_from key i src
fill-whole key i [] [] post e = refl
fill-whole key i [] (b ∷ bs) post e = absurd (omega arith)
fill-whole key i (h ∷ hs) [] post e = absurd (omega arith)
fill-whole key i (h ∷ hs) (b ∷ bs) post e =
    ap (λ t. bit_xor b (key_at key (i % 4)) ∷ t) (fill-whole key (i + 1) hs bs post (omega arith))

module _ (stream : List ℕ) (size used : ℕ) (key : Four) (mask : ℕ) where
  abbrev start : ℕ → ℕ → List ℕ → Copying
  start ready at out = record { ready = ready; at = at; out = out }

  moved : {r r' a a' : ℕ} {o o' : List ℕ} → r ≡ r' → a ≡ a' → o ≡ o' → start r a o ≡ start r' a' o'
  moved e f g = λ i. start (e i) (f i) (g i)

  abbrev run : Copying → Copying
  run = bytewise stream (length stream) size used key mask

  stopped : (s : Copying) → (size ≤ s.ready) ⊎ (length stream ≤ s.at) → run s ≡ s
  unfolding bytewise
  stopped s h =
      while-false (length stream - s.at) (byte_test stream (length stream) size used key mask)
        (byte_body stream (length stream) size used key mask) s (over s h)
    where
      over :
          (s : Copying)
          → (size ≤ s.ready) ⊎ (length stream ≤ s.at)
          → byte_test stream (length stream) size used key mask s ≡ false
      over s h = unfold byte_test in ground arith

  more :
      (ready at n b : ℕ) (out tail : List ℕ)
      → ready + suc n ≡ size
      → drop at stream ≡ b ∷ tail
      → byte_test stream (length stream) size used key mask (start ready at out) ≡ true
  unfolding byte_test
  more ready at n b out tail p e = ground (arith, drop-length stream at (b ∷ tail) e)

  step :
      (pre hole tail : List ℕ) (h b ready at : ℕ)
      → used + ready ≡ length pre
      → drop at stream ≡ b ∷ tail
      → byte_body stream (length stream) size used key mask (start ready at (pre ++ (h ∷ hole)))
        ≡ start (ready + 1) (at + 1) ((pre ++ (bit_xor b (key_at key (ready % 4)) ∷ [])) ++ hole)
  unfolding byte_body
  step pre hole tail h b ready at p e =
      let v = bit_xor b (key_at key (ready % 4)) in
      ap (start (ready + 1) (at + 1)) (
        rw (p, drop-byte_at stream at b tail e, set-append pre h hole v)
          (sym (append_assoc pre (v ∷ []) hole)))

  pub bytewise-fill :
      (pre hole tail : List ℕ) (ready at : ℕ)
      → used + ready ≡ length pre
      → ready + length hole ≡ size
      → at ≤ length stream
      → drop at stream ≡ tail
      → run (start ready at (pre ++ hole))
        ≡ start
            (ready + min (length hole) (length tail))
            (at + min (length hole) (length tail))
            (pre ++ fill key ready hole tail)
  bytewise-fill pre [] tail ready at p q r e =
      stopped (start ready at (pre ++ [])) (inl (omega arith))
      ∙ moved (omega arith) (omega arith) refl
  bytewise-fill pre (h ∷ hole) [] ready at p q r e =
      stopped (start ready at (pre ++ (h ∷ hole))) (inr (omega (arith, drop-length stream at [] e)))
      ∙ moved (omega arith) (omega arith) refl
  bytewise-fill pre (h ∷ hole) (b ∷ tail) ready at p q r e =
      let v = bit_xor b (key_at key (ready % 4)) in
      let filled = fill key (ready + 1) hole tail in
      bytewise-step stream (length stream) size used key mask (start ready at (pre ++ (h ∷ hole)))
        (more ready at (length hole) b (pre ++ (h ∷ hole)) tail q e)
      ∙ (ap run (step pre hole tail h b ready at p e)
          ∙ (bytewise-fill (pre ++ (v ∷ [])) hole tail (ready + 1) (at + 1)
                (omega (arith, length-append pre (v ∷ []))) (omega arith)
                (omega (arith, drop-length stream at (b ∷ tail) e)) (drop-suc stream at b tail e)
              ∙ moved (omega arith) (omega arith) (append_assoc pre (v ∷ []) filled)))

  -- For an input of octets, a key of octets and a word that holds the key twice, a call of the
  -- loops unmasks as much of the input as the frame still lacks into the buffer behind what is
  -- there, and moves both counters by that amount. The buffer ends with the part of the frame
  -- that is still to come, and the cursor lies within the input.
  pub unmask-fill :
      IsOctets stream
      → IsKey key
      → IsDouble key mask
      → (pre hole tail : List ℕ) (ready at : ℕ) → used + ready ≡ length pre
      → ready + length hole ≡ size
      → at ≤ length stream
      → drop at stream ≡ tail
      → unmask stream
          (length stream)
          size
          used
          key
          mask
          (record { ready = ready; at = at; out = pre ++ hole })
        ≡ record {
          ready = ready + min (length hole) (length tail);
          at = at + min (length hole) (length tail);
          out = pre ++ fill key ready hole tail;
        }
  unmask-fill octets key_octets double pre hole tail ready at p q r e =
      unmask_lem stream (length stream) size used key mask octets key_octets double
        (start ready at (pre ++ hole))
      ∙ bytewise-fill pre hole tail ready at p q r e

-- Masking twice with one key gives the payload back.
pub mask_twice :
    (key : Four) (i : ℕ) (bs : List ℕ)
    → IsKey key
    → IsOctets bs
    → mask_from key i (mask_from key i bs) ≡ bs
mask_twice key i [] k o = refl
mask_twice key i (b ∷ bs) k o =
    ap₂ ◌∷◌
      (bit_xor_cancel 8 b (key_at key (i % 4)) o.0
        (byte_at-lt (key.b0 ∷ key.b1 ∷ key.b2 ∷ key.b3 ∷ []) (i % 4) (omega arith)))
      (mask_twice key (i + 1) bs k o.1)

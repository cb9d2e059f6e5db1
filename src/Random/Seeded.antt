-- ===== src/Random/Seeded.antt =====
-- The states of `xoshiro128pp` of include/PRNG.h.
use lapp_s.Common.{
  ℕ, ◌+◌, ◌*◌, ◌/◌, ◌%◌, ◌^◌, ◌<◌, Bool, true, false, ◌≡◌, refl, arith, ◌∙◌, ltb, ltb→lt,
  Bool-cases, inl, inr, bit_xor, bit_xor-lt, bit_or_bounds, bit_xor-zero,
}
use lapp_s.Random.{Xoshiro, Generator, rotl, stir, preseed, xoshiro128pp}

-- The four are words, and not all of them are zero.
pub record IsSeeded (s : Xoshiro) : Type 0 where
  pub word_0 : s.state_0 < 2 ^ 32
  pub word_1 : s.state_1 < 2 ^ 32
  pub word_2 : s.state_2 < 2 ^ 32
  pub word_3 : s.state_3 < 2 ^ 32
  pub some_bit : 0 < s.state_0 + s.state_1 + s.state_2 + s.state_3

rotl-11 : (x : ℕ) → x < 2 ^ 32 → (rotl 32 x 11 < 2 ^ 32) × (rotl 32 x 11 ≡ 0 → x ≡ 0)
rotl-11 x word =
    let (below, first, second) =
      bit_or_bounds 32 (x * 2 ^ 11 % 2 ^ 32) (x / 2 ^ 21) (omega arith) (omega arith) in
    (below, λ e. omega arith)

shift-9 : (x : ℕ) → x < 2 ^ 32 → x ≡ x * 2 ^ 9 % 2 ^ 32 → x ≡ 0
shift-9 x word e = omega arith

-- No state but the zero one leads to the zero one.
stir-zero :
    (s : Xoshiro)
    → s.state_0 < 2 ^ 32
    → s.state_1 < 2 ^ 32
    → s.state_2 < 2 ^ 32
    → s.state_3 < 2 ^ 32
    → (stir 32 9 11 s).state_0
        + (stir 32 9 11 s).state_1
        + (stir 32 9 11 s).state_2
        + (stir 32 9 11 s).state_3
      ≡ 0
    → s.state_0 + s.state_1 + s.state_2 + s.state_3 ≡ 0
stir-zero s w0 w1 w2 w3 e =
    let s2 = bit_xor s.state_2 s.state_0 in
    let s3 = bit_xor s.state_3 s.state_1 in
    let t = s.state_1 * 2 ^ 9 % 2 ^ 32 in
    let v2 = bit_xor-lt 32 s.state_2 s.state_0 w2 w0 in
    let v3 = bit_xor-lt 32 s.state_3 s.state_1 w3 w1 in
    let z3 : s3 ≡ 0 = (rotl-11 s3 v3).1 (omega arith) in
    let e0 : s.state_0 ≡ s3 = bit_xor-zero 32 s.state_0 s3 w0 v3 (omega arith) in
    let e1 : s.state_1 ≡ s2 = bit_xor-zero 32 s.state_1 s2 w1 v2 (omega arith) in
    let e2 : s2 ≡ t = bit_xor-zero 32 s2 t v2 (omega arith) (omega arith) in
    let z1 : s.state_1 ≡ 0 = shift-9 s.state_1 w1 (e1 ∙ e2) in
    let d2 : s.state_2 ≡ s.state_0 = bit_xor-zero 32 s.state_2 s.state_0 w2 w0 (omega arith) in
    let d3 : s.state_3 ≡ s.state_1 = bit_xor-zero 32 s.state_3 s.state_1 w3 w1 z3 in omega arith

stir-IsSeeded : (s : Xoshiro) → IsSeeded s → IsSeeded (stir 32 9 11 s)
stir-IsSeeded s ok =
    let v2 = bit_xor-lt 32 s.state_2 s.state_0 ok.word_2 ok.word_0 in
    let v3 = bit_xor-lt 32 s.state_3 s.state_1 ok.word_3 ok.word_1 in
    record {
      word_0 = bit_xor-lt 32 s.state_0 (bit_xor s.state_3 s.state_1) ok.word_0 v3;
      word_1 = bit_xor-lt 32 s.state_1 (bit_xor s.state_2 s.state_0) ok.word_1 v2;
      word_2 =
          bit_xor-lt 32 (bit_xor s.state_2 s.state_0) (s.state_1 * 2 ^ 9 % 2 ^ 32) v2 (omega arith);
      word_3 = (rotl-11 (bit_xor s.state_3 s.state_1) v3).0;
      some_bit = elim (Bool-cases (ltb 0 (total (stir 32 9 11 s)))) [
        | inl some_left ↦ ltb→lt 0 (total (stir 32 9 11 s)) some_left
        | inr none_left ↦ absurd (
            omega (
              arith,
              ok.some_bit,
              stir-zero s ok.word_0 ok.word_1 ok.word_2 ok.word_3
                  (no_bit (total (stir 32 9 11 s)) none_left),
            ))
      ];
    }
  where
    total : Xoshiro → ℕ
    total s = s.state_0 + s.state_1 + s.state_2 + s.state_3

    no_bit : (n : ℕ) → ltb 0 n ≡ false → n ≡ 0
    no_bit n h = ground arith

seeded :
    (g : Generator) (seed : Xoshiro) (b : Bool)
    → g.reseed ≡ b
    → (g.reseed ≡ true → IsSeeded seed)
    → (g.reseed ≡ false → IsSeeded g.state)
    → IsSeeded (preseed g seed).state
seeded g seed true e new old = rw e (new e)
seeded g seed false e new old = rw e (old e)

-- A call gives a number of 32 bits; and it leaves a state of four such words that are not all
-- zero, where it finds one, or is to be seeded and gets one.
pub xoshiro128pp-IsSeeded :
    (g : Generator) (seed : Xoshiro)
    → (g.reseed ≡ true → IsSeeded seed)
    → (g.reseed ≡ false → IsSeeded g.state)
    → ((xoshiro128pp g seed).0 < 2 ^ 32)
      × IsSeeded (xoshiro128pp g seed).1.state
      × ((xoshiro128pp g seed).1.reseed ≡ false)
unfolding xoshiro128pp
xoshiro128pp-IsSeeded g seed new old =
    let s = preseed g seed in
    (omega arith, stir-IsSeeded s.state (seeded g seed g.reseed refl new old), refl)

-- ===== src/Random.antt =====
-- include/PRNG.h: the generators `xoshiro128pp`, which the client takes masking keys from, and
-- `xoshiro256pp`, which it takes the key of its request from. Their text is the same but for the
-- width of a word and four distances. What /dev/urandom gives, or the clock, is an argument.
pub mod Seeded
use lapp_s.Common.{
  ℕ, ◌+◌, ◌-◌, ◌*◌, ◌/◌, ◌%◌, ◌^◌, Bool, true, false, if◌then◌else◌, bit_or, bit_xor,
}

pub record Xoshiro : Type 0 where
  pub state_0 : ℕ
  pub state_1 : ℕ
  pub state_2 : ℕ
  pub state_3 : ℕ

abbrev pub rotl : ℕ → ℕ → ℕ → ℕ
rotl width x k = bit_or (x * 2 ^ k % 2 ^ width) (x / 2 ^ (width - k))

-- The assignments to the state, one after another: `a` is the shift, and `c` the last rotation.
abbrev pub stir : ℕ → ℕ → ℕ → Xoshiro → Xoshiro
stir width a c s =
    let t = s.state_1 * 2 ^ a % 2 ^ width in
    let s2 = bit_xor s.state_2 s.state_0 in
    let s3 = bit_xor s.state_3 s.state_1 in
    let s1 = bit_xor s.state_1 s2 in
    let s0 = bit_xor s.state_0 s3 in
    record { state_0 = s0; state_1 = s1; state_2 = bit_xor s2 t; state_3 = rotl width s3 c }

abbrev pub result : ℕ → ℕ → Xoshiro → ℕ
result width b s = (rotl width ((s.state_0 + s.state_3) % 2 ^ width) b + s.state_0) % 2 ^ width

-- What the thread keeps: `reseed` says that the state is not seeded yet.
pub record Generator : Type 0 where
  pub state : Xoshiro
  pub reseed : Bool

-- `xoshiro128pp_preseed`, `xoshiro256pp_preseed`
abbrev pub preseed : Generator → Xoshiro → Generator
preseed g seed = record { state = if g.reseed then seed else g.state; reseed = false }

unfoldable pub xoshiro128pp : Generator → Xoshiro → ℕ × Generator
xoshiro128pp g seed =
    let q = preseed g seed in (result 32 7 q.state, record q { state = stir 32 9 11 q.state })

unfoldable pub xoshiro256pp : Generator → Xoshiro → ℕ × Generator
xoshiro256pp g seed =
    let q = preseed g seed in (result 64 23 q.state, record q { state = stir 64 17 45 q.state })

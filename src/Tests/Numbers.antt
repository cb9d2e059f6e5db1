-- ===== src/Tests/Numbers.antt =====
-- The generator of masking keys.
use lapp_s.Common.{◌<◌, ◌^◌, true, false, ◌≡◌, arith}
use lapp_s.Random.{Xoshiro, Generator, xoshiro128pp}
use lapp_s.Random.Seeded.{IsSeeded, xoshiro128pp-IsSeeded}

abbrev unseeded : Generator
unseeded = record {
  state = record { state_0 = 0; state_1 = 0; state_2 = 0; state_3 = 0 };
  reseed = true;
}

abbrev seed : Xoshiro
seed = record { state_0 = 1; state_1 = 2; state_2 = 3; state_3 = 4294967295 }

seed-IsSeeded : IsSeeded seed
seed-IsSeeded = record {
  word_0 = omega arith;
  word_1 = omega arith;
  word_2 = omega arith;
  word_3 = omega arith;
  some_bit = omega arith;
}

xoshiro128pp-IsSeeded_example :
    ((xoshiro128pp unseeded seed).0 < 2 ^ 32)
    × IsSeeded (xoshiro128pp unseeded seed).1.state
    × ((xoshiro128pp unseeded seed).1.reseed ≡ false)
xoshiro128pp-IsSeeded_example =
    xoshiro128pp-IsSeeded unseeded seed (λ e. seed-IsSeeded) (λ e. absurd (ground (arith, e)))

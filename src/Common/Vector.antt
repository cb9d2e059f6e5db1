-- ===== src/Common/Vector.antt =====
-- `std::vector<uint8_t>` and `memcpy` on lists, and a buffer read from an index on.
use Prim.Native.Nat.{ℕ, zero, suc, ◌+◌, ◌-◌}
use mathlib.Core.Path.{◌≡◌, ap, ◌∙◌}
use mathlib.Core.List.{List, [], ◌∷◌, ◌++◌, append-nil}
use native.Mathlib.Omega.{arith}
use lapp_s.Common.Lists.{
  length, take, drop, replicate, length-append, length-replicate, length-take, take-append,
  drop-all, take-all,
}
use lapp_s.Common.Octets.{byte_at}

-- `resize`: cut, or extended with zero bytes
abbrev pub resize : ℕ → List ℕ → List ℕ
resize n xs = take n xs ++ replicate (n - length xs) 0

-- `memcpy(dst+at, src, n)`, for `at + n` within `dst`
abbrev pub mem_copy : List ℕ → ℕ → List ℕ → List ℕ
mem_copy dst at src = take at dst ++ (src ++ drop (at + length src) dst)

pub length-resize : (n : ℕ) (xs : List ℕ) → length (resize n xs) ≡ n
length-resize n xs = omega (
  arith,
  length-append (take n xs) (replicate (n - length xs) 0),
  length-take n xs,
  length-replicate {A = ℕ} (n - length xs) 0,
)

-- Growing keeps what is there.
pub resize-grow : (n : ℕ) (xs : List ℕ) → resize (length xs + n) xs ≡ xs ++ replicate n 0
resize-grow n xs =
    rw (take-all (length xs + n) xs (omega arith)) (ap (λ k. xs ++ replicate k 0) (omega arith))

pub mem_copy-append :
    (xs ys src : List ℕ) → length ys ≡ length src → mem_copy (xs ++ ys) (length xs) src ≡ xs ++ src
mem_copy-append xs ys src e = rw (
  take-append xs ys,
  drop-all (length xs + length src) (xs ++ ys) (omega (arith, length-append xs ys)),
  append-nil,
)

-- `push_back` of each byte is `resize` and `memcpy`.
pub resize-mem_copy :
    (xs src : List ℕ) → mem_copy (resize (length xs + length src) xs) (length xs) src ≡ xs ++ src
resize-mem_copy xs src =
    rw (resize-grow (length src) xs)
      (mem_copy-append xs (replicate (length src) 0) src (length-replicate (length src) 0))

-- The buffer holds `b` at index `i`, and `t` behind it.
pub drop-byte_at : (s : List ℕ) (i b : ℕ) (t : List ℕ) → drop i s ≡ b ∷ t → byte_at s i ≡ b
drop-byte_at [] zero b t e = cc
drop-byte_at [] (suc i) b t e = cc
drop-byte_at (x ∷ s) zero b t e = cc
drop-byte_at (x ∷ s) (suc i) b t e = drop-byte_at s i b t e

pub drop-suc : (s : List ℕ) (i b : ℕ) (t : List ℕ) → drop i s ≡ b ∷ t → drop (i + 1) s ≡ t
drop-suc [] zero b t e = cc
drop-suc [] (suc i) b t e = cc
drop-suc (x ∷ s) zero b t e = cc
drop-suc (x ∷ s) (suc i) b t e = ap (λ k. drop k (x ∷ s)) next ∙ drop-suc s i b t e
  where
    next : suc i + 1 ≡ suc (i + 1)
    next = omega arith

pub drop-length : (s : List ℕ) (i : ℕ) (t : List ℕ) → drop i s ≡ t → length s - i ≡ length t
drop-length [] zero t e = ap length e
drop-length [] (suc i) t e = omega (arith, ap length e)
drop-length (x ∷ s) zero t e = omega (arith, ap length e)
drop-length (x ∷ s) (suc i) t e = omega (arith, drop-length s i t e)

pub drop-append_at :
    (s : List ℕ) (i : ℕ) (t u : List ℕ) → drop i s ≡ t ++ u → drop (i + length t) s ≡ u
drop-append_at s i [] u e = ap (λ k. drop k s) (omega arith) ∙ e
drop-append_at s i (x ∷ t) u e =
    ap (λ k. drop k s) (omega arith) ∙ drop-append_at s (i + 1) t u (drop-suc s i x (t ++ u) e)

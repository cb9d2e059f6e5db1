-- ===== src/Common/Octets.antt =====
-- Octets in memory: the bytes of a buffer, and words read and written on a little-endian host.
use Prim.Native.Nat.{ℕ, zero, suc, ◌+◌, ◌*◌, ◌/◌, ◌%◌, ◌^◌, ◌<◌}
use mathlib.Core.Path.{◌≡◌, refl, ap₂}
use mathlib.Core.List.{List, [], ◌∷◌, reverse}
use native.Mathlib.Omega.{arith}
use native.Mathlib.Nat.{pow-suc}
use lapp_s.Common.Lists.{length, get_or}

-- The byte at an index; the programs below read only inside their buffers.
abbrev pub byte_at : List ℕ → ℕ → ℕ
byte_at xs i = get_or xs i 0

abbrev pub IsOctets : List ℕ → Type 0
IsOctets [] = Unit
IsOctets (b ∷ bs) = (b < 256) × IsOctets bs

pub byte_at-lt : (xs : List ℕ) (i : ℕ) → IsOctets xs → byte_at xs i < 256
byte_at-lt [] i h = omega arith
byte_at-lt (x ∷ xs) zero h = h.0
byte_at-lt (x ∷ xs) (suc i) h = byte_at-lt xs i h.1

-- The `n` bytes of a word in memory, lowest first.
abbrev pub le_bytes : ℕ → ℕ → List ℕ
le_bytes zero x = []
le_bytes (suc n) x = (x % 256) ∷ le_bytes n (x / 256)

-- The word that the bytes in memory stand for.
abbrev pub of_le_bytes : List ℕ → ℕ
of_le_bytes [] = 0
of_le_bytes (b ∷ bs) = b + 256 * of_le_bytes bs

-- `htobe16`, `be16toh`, `htobe64` and `be64toh` of endian.h reverse the bytes of the word.
abbrev pub swap_bytes : ℕ → ℕ → ℕ
swap_bytes n x = of_le_bytes (reverse (le_bytes n x))

pub of_le_bytes-le_bytes : (n x : ℕ) → x < 256 ^ n → of_le_bytes (le_bytes n x) ≡ x
of_le_bytes-le_bytes zero x h = omega arith
of_le_bytes-le_bytes (suc n) x h =
    omega (arith, of_le_bytes-le_bytes n (x / 256) (omega (arith, pow-suc 256 n)))

octet_fields : (b t : ℕ) → b < 256 → ((b + 256 * t) % 256 ≡ b) × ((b + 256 * t) / 256 ≡ t)
octet_fields b t h = omega arith

pub le_bytes-of_le_bytes : (bs : List ℕ) → IsOctets bs → le_bytes (length bs) (of_le_bytes bs) ≡ bs
le_bytes-of_le_bytes [] h = refl
le_bytes-of_le_bytes (b ∷ bs) h =
    let (low, high) = octet_fields b (of_le_bytes bs) h.0 in
    ap₂ ◌∷◌ low (rw high (le_bytes-of_le_bytes bs h.1))

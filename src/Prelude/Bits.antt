-- ===== src/Prelude/Bits.antt =====
-- Machine words by their binary digits: `(w >> i) & 1`, `w | (1 << i)`, `w & ~(1 << i)` and `a & b`.
use Prim.Native.Nat.{ℕ, zero, suc, ◌+◌, ◌*◌, ◌/◌, ◌%◌, ◌<◌, min}
use mathlib.Core.Path.{◌≡◌, refl}
use mathlib.Core.Logic.{◌≢◌}
use native.Mathlib.Omega.{arith}
use native.Mathlib.Decide.{ℕ_discrete}

-- `(w >> i) & 1`
unfoldable pub bit : ℕ → ℕ → ℕ
bit w zero = w % 2
bit w (suc i) = bit (w / 2) i

-- `w | (1 << i)`
unfoldable pub set_bit : ℕ → ℕ → ℕ
set_bit w zero = w / 2 * 2 + 1
set_bit w (suc i) = set_bit (w / 2) i * 2 + w % 2

-- `w & ~(1 << i)`
unfoldable pub clear_bit : ℕ → ℕ → ℕ
clear_bit w zero = w / 2 * 2
clear_bit w (suc i) = clear_bit (w / 2) i * 2 + w % 2

-- `a & b`, on words of `k` bits
unfoldable pub and_bits : ℕ → ℕ → ℕ → ℕ
and_bits zero a b = 0
and_bits (suc k) a b = and_bits k (a / 2) (b / 2) * 2 + min (a % 2) (b % 2)

pub bit-lt : (w i : ℕ) → bit w i < 2
unfolding bit
bit-lt w zero = omega arith
bit-lt w (suc i) = bit-lt (w / 2) i

half_double : (a b : ℕ) → b < 2 → (a * 2 + b) / 2 ≡ a
half_double a b h = omega arith

pub bit-set_bit_self : (w i : ℕ) → bit (set_bit w i) i ≡ 1
unfolding bit set_bit
bit-set_bit_self w zero = omega arith
bit-set_bit_self w (suc i) =
    rw (half_double (set_bit (w / 2) i) (w % 2) (omega arith)) (bit-set_bit_self (w / 2) i)

pub bit-set_bit_ne : (w i j : ℕ) → i ≢ j → bit (set_bit w i) j ≡ bit w j
unfolding bit set_bit
bit-set_bit_ne w zero zero h = absurd (h refl)
bit-set_bit_ne w zero (suc j) h = rw (half_double (w / 2) 1 (omega arith))
bit-set_bit_ne w (suc i) zero h = omega arith
bit-set_bit_ne w (suc i) (suc j) h =
    rw (half_double (set_bit (w / 2) i) (w % 2) (omega arith))
      (bit-set_bit_ne (w / 2) i j (omega arith))

pub bit-clear_bit_self : (w i : ℕ) → bit (clear_bit w i) i ≡ 0
unfolding bit clear_bit
bit-clear_bit_self w zero = omega arith
bit-clear_bit_self w (suc i) =
    rw (half_double (clear_bit (w / 2) i) (w % 2) (omega arith)) (bit-clear_bit_self (w / 2) i)

pub bit-clear_bit_ne : (w i j : ℕ) → i ≢ j → bit (clear_bit w i) j ≡ bit w j
unfolding bit clear_bit
bit-clear_bit_ne w zero zero h = absurd (h refl)
bit-clear_bit_ne w zero (suc j) h = let e : w / 2 * 2 / 2 ≡ w / 2 = omega arith in rw e
bit-clear_bit_ne w (suc i) zero h = omega arith
bit-clear_bit_ne w (suc i) (suc j) h =
    rw (half_double (clear_bit (w / 2) i) (w % 2) (omega arith))
      (bit-clear_bit_ne (w / 2) i j (omega arith))

-- A bit of the intersection is the intersection of the bits.
pub bit-and_bits : (k a b i : ℕ) → i < k → bit (and_bits k a b) i ≡ min (bit a i) (bit b i)
unfolding bit and_bits
bit-and_bits zero a b i h = absurd (omega arith)
bit-and_bits (suc k) a b zero h = omega arith
bit-and_bits (suc k) a b (suc i) h =
    rw (half_double (and_bits k (a / 2) (b / 2)) (min (a % 2) (b % 2)) (omega arith))
      (bit-and_bits k (a / 2) (b / 2) i (omega arith))

pub bit-zero : (i : ℕ) → bit 0 i ≡ 0
unfolding bit
bit-zero zero = refl
bit-zero (suc i) = bit-zero i

-- A non-empty intersection has a common bit.
pub common_bit :
    (k a b : ℕ) → and_bits k a b ≢ 0 → (i : ℕ) × (i < k) × (bit a i ≡ 1) × (bit b i ≡ 1)
unfolding bit and_bits
common_bit zero a b h = absurd (h refl)
common_bit (suc k) a b h = elim (ℕ_discrete (and_bits k (a / 2) (b / 2)) 0) [
  | yes e ↦ (0, omega arith, omega arith, omega arith)
  | no n ↦ let (i, lt, p, q) = common_bit k (a / 2) (b / 2) n in (suc i, omega arith, p, q)
]

-- Words with no common bit have an empty intersection.
pub and_bits-eq-zero :
    (k a b : ℕ) → ((i : ℕ) → i < k → bit b i ≡ 1 → bit a i ≡ 0) → and_bits k a b ≡ 0
unfolding bit and_bits
and_bits-eq-zero zero a b h = refl
and_bits-eq-zero (suc k) a b h =
    grind (
      arith,
      and_bits-eq-zero k (a / 2) (b / 2) (λ i lt. h (suc i) (omega arith)),
      h 0 (omega arith),
    )

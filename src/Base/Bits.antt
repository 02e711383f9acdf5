-- ===== src/Base/Bits.antt =====
-- `|` of disjoint fields and `&` with a low mask, as arithmetic, at every width.
use Prim.Native.Nat.{
  ℕ, zero, suc, ◌+◌, ◌-◌, ◌*◌, ◌/◌, ◌%◌, ◌^◌, ◌≤◌, ◌<◌, min, max, bit_and, bit_or, digits,
  bit_and-bitwise, bit_or-bitwise,
}
use mathlib.Core.Path.{◌≡◌, refl, ap}
use native.Mathlib.Nat.{pow-suc, one-le-pow}
use native.Mathlib.Omega.{arith}

abbrev pub shl : ℕ → ℕ → ℕ
shl x k = x * 2 ^ k

abbrev pub shr : ℕ → ℕ → ℕ
shr x k = x / 2 ^ k

abbrev pub u8 : ℕ → ℕ
u8 n = n % 2 ^ 8

abbrev pub u32 : ℕ → ℕ
u32 n = n % 2 ^ 32

-- The fuel of the digit recursion does not matter once it covers the left number.
module _ (z : ℕ → ℕ) (f : ℕ → ℕ → ℕ) where
  digits-fuel : (n m a b : ℕ) → a ≤ n → a ≤ m → digits z f n a b ≡ digits z f m a b
  digits-fuel zero zero a b p q = refl
  digits-fuel zero (suc m) zero b p q = refl
  digits-fuel zero (suc m) (suc a) b p q = absurd (omega arith)
  digits-fuel (suc n) zero zero b p q = refl
  digits-fuel (suc n) zero (suc a) b p q = absurd (omega arith)
  digits-fuel (suc n) (suc m) zero b p q = refl
  digits-fuel (suc n) (suc m) (suc a) b p q =
      omega (arith, digits-fuel n m (suc a / 2) (b / 2) (omega arith) (omega arith))

bit_or_low : (a b : ℕ) → bit_or a b ≡ bit_or (a / 2) (b / 2) * 2 + max (a % 2) (b % 2)
bit_or_low zero b = omega (arith, bit_or-bitwise 0 b, bit_or-bitwise 0 (b / 2))
bit_or_low (suc a) b = omega (
  arith,
  bit_or-bitwise (suc a) b,
  bit_or-bitwise (suc a / 2) (b / 2),
  digits-fuel (λ y. y) max a (suc a / 2) (suc a / 2) (b / 2) (omega arith) (omega arith),
)

bit_and_low : (a b : ℕ) → bit_and a b ≡ bit_and (a / 2) (b / 2) * 2 + min (a % 2) (b % 2)
bit_and_low zero b = omega (arith, bit_and-bitwise 0 b, bit_and-bitwise 0 (b / 2))
bit_and_low (suc a) b = omega (
  arith,
  bit_and-bitwise (suc a) b,
  bit_and-bitwise (suc a / 2) (b / 2),
  digits-fuel (λ y. 0) min a (suc a / 2) (suc a / 2) (b / 2) (omega arith) (omega arith),
)

-- A number is its quotient and its low digit, so a bound on its size serves as fuel.
bit_or-zero_below : (n a : ℕ) → a ≤ n → bit_or a 0 ≡ a
bit_or-zero_below n zero h = refl
bit_or-zero_below zero (suc a) h = absurd (omega arith)
bit_or-zero_below (suc n) (suc a) h =
    omega (arith, bit_or_low (suc a) 0, bit_or-zero_below n (suc a / 2) (omega arith))

bit_and-zero_below : (n a : ℕ) → a ≤ n → bit_and a 0 ≡ 0
bit_and-zero_below n zero h = refl
bit_and-zero_below zero (suc a) h = absurd (omega arith)
bit_and-zero_below (suc n) (suc a) h =
    omega (arith, bit_and_low (suc a) 0, bit_and-zero_below n (suc a / 2) (omega arith))

double_field : (q k : ℕ) → q * 2 ^ suc k ≡ 2 * (q * 2 ^ k)
double_field q k = omega (arith, ap (λ (t : ℕ). q * t) (pow-suc 2 k))

-- `(q << k) | r` is a sum where `r` fits into `k` bits.
pub bit_or-shl : (k q r : ℕ) → r < 2 ^ k → bit_or (shl q k) r ≡ q * 2 ^ k + r
bit_or-shl zero q r h = ground (arith, bit_or-zero_below q q)
bit_or-shl (suc k) q r h = ground (
  arith,
  bit_or_low (q * 2 ^ suc k) r,
  double_field q k,
  pow-suc 2 k,
  bit_or-shl k q (r / 2) (omega (arith, pow-suc 2 k)),
)

low_field : (k q r : ℕ) → r < 2 ^ k → bit_and (q * 2 ^ k + r) (2 ^ k - 1) ≡ r
low_field zero q r h = omega (arith, bit_and-zero_below (q * 2 ^ 0 + r) (q * 2 ^ 0 + r))
low_field (suc k) q r h = ground (
  arith,
  bit_and_low (q * 2 ^ suc k + r) (2 ^ suc k - 1),
  double_field q k,
  pow-suc 2 k,
  one-le-pow k 2,
  low_field k q (r / 2) (omega (arith, pow-suc 2 k)),
)

-- The mask of `k` ones takes the remainder by `2 ^ k`.
pub bit_and_mask : (k a : ℕ) → bit_and a (2 ^ k - 1) ≡ a % 2 ^ k
bit_and_mask k a = ground (arith, one-le-pow k 2, low_field k (a / 2 ^ k) (a % 2 ^ k))

bit_or_comm_below : (n a b : ℕ) → a ≤ n → b ≤ n → bit_or a b ≡ bit_or b a
bit_or_comm_below n zero zero p q = refl
bit_or_comm_below zero (suc a) b p q = absurd (omega arith)
bit_or_comm_below zero zero (suc b) p q = absurd (omega arith)
bit_or_comm_below (suc n) zero (suc b) p q = omega (
  arith,
  bit_or_low zero (suc b),
  bit_or_low (suc b) zero,
  bit_or_comm_below n (zero / 2) (suc b / 2) (omega arith) (omega arith),
)
bit_or_comm_below (suc n) (suc a) b p q = omega (
  arith,
  bit_or_low (suc a) b,
  bit_or_low b (suc a),
  bit_or_comm_below n (suc a / 2) (b / 2) (omega arith) (omega arith),
)

pub bit_or_comm : (a b : ℕ) → bit_or a b ≡ bit_or b a
bit_or_comm a b = bit_or_comm_below (a + b) a b (omega arith) (omega arith)

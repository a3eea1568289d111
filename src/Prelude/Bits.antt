-- ===== src/Prelude/Bits.antt =====
-- Laws of `bit_and`, `bit_or` and `bit_xor` at variables, from one equation for the lowest digit.
use Prim.Native.Nat.{ℕ, zero, suc, ◌+◌, ◌*◌, ◌-◌, ◌/◌, ◌%◌, ◌^◌, ◌≤◌, ◌<◌, min, max}
use Prim.Native.Nat.{bit_and, bit_or, bit_xor, bitwise, digits, differ}
use Prim.Native.Nat.{bit_and-bitwise, bit_or-bitwise, bit_xor-bitwise}
use mathlib.Core.Path.{◌≡◌, refl, ap}
use native.Mathlib.Nat.{pow-suc, one-le-pow}
use native.Mathlib.Omega.{arith}

-- Any fuel that covers the first operand gives the same digits.
module _ (z : ℕ → ℕ) (f : ℕ → ℕ → ℕ) where
  digits_fuel : (n a b : ℕ) → a ≤ n → digits z f n a b ≡ digits z f a a b
  digits_fuel n a b h = go n a a b h (omega arith)
    where
      go : (n m a b : ℕ) → a ≤ n → a ≤ m → digits z f n a b ≡ digits z f m a b
      go zero zero a b p q = refl
      go n m zero b p q = at_zero n m b
        where
          at_zero : (n m b : ℕ) → digits z f n zero b ≡ digits z f m zero b
          at_zero zero zero b = refl
          at_zero zero (suc m) b = refl
          at_zero (suc n) zero b = refl
          at_zero (suc n) (suc m) b = refl
      go zero (suc m) (suc a) b p q = absurd (omega arith)
      go (suc n) zero (suc a) b p q = absurd (omega arith)
      go (suc n) (suc m) (suc a) b p q = rw (go n m (suc a / 2) (b / 2) (omega arith) (omega arith))

  bitwise_step :
      (a b : ℕ)
      → z b ≡ f 0 (b % 2) + 2 * bitwise z f 0 (b / 2)
      → bitwise z f a b ≡ f (a % 2) (b % 2) + 2 * bitwise z f (a / 2) (b / 2)
  bitwise_step zero b h = h
  bitwise_step (suc a) b h = omega (arith, digits_fuel a (suc a / 2) (b / 2) (omega arith))

-- The lowest binary digit, and the digits above it.
pub bit_and_digit : (x y : ℕ) → bit_and x y ≡ min (x % 2) (y % 2) + 2 * bit_and (x / 2) (y / 2)
bit_and_digit x y = simp bit_and-bitwise (bitwise_step (λ b. 0) min x y (omega arith))

pub bit_or_digit : (x y : ℕ) → bit_or x y ≡ max (x % 2) (y % 2) + 2 * bit_or (x / 2) (y / 2)
bit_or_digit x y = simp bit_or-bitwise (bitwise_step (λ b. b) max x y (omega arith))

pub bit_xor_digit : (x y : ℕ) → bit_xor x y ≡ differ (x % 2) (y % 2) + 2 * bit_xor (x / 2) (y / 2)
bit_xor_digit x y = simp bit_xor-bitwise (bitwise_step (λ b. b) differ x y (omega arith))

differ-le-max : (a b : ℕ) → differ a b ≤ max a b
differ-le-max zero b = omega arith
differ-le-max (suc a) zero = omega arith
differ-le-max (suc a) (suc b) = omega (arith, differ-le-max a b)

-- A bitwise result needs no more bits than its operands.
pub bit_or-lt : (k a b : ℕ) → a < 2 ^ k → b < 2 ^ k → bit_or a b < 2 ^ k
bit_or-lt zero a b p q = ground (arith, bit_or_none a b)
  where
    bit_or_none : (a b : ℕ) → a < 1 → b < 1 → bit_or a b ≡ 0
    bit_or_none zero zero p q = refl
    bit_or_none (suc a) b p q = absurd (omega arith)
    bit_or_none zero (suc b) p q = absurd (omega arith)
bit_or-lt (suc k) a b p q = omega (
  arith,
  pow-suc 2 k,
  bit_or_digit a b,
  bit_or-lt k (a / 2) (b / 2) (omega (arith, pow-suc 2 k)) (omega (arith, pow-suc 2 k)),
)

pub bit_xor-lt : (k a b : ℕ) → a < 2 ^ k → b < 2 ^ k → bit_xor a b < 2 ^ k
bit_xor-lt zero a b p q = ground (arith, bit_xor_none a b)
  where
    bit_xor_none : (a b : ℕ) → a < 1 → b < 1 → bit_xor a b ≡ 0
    bit_xor_none zero zero p q = refl
    bit_xor_none (suc a) b p q = absurd (omega arith)
    bit_xor_none zero (suc b) p q = absurd (omega arith)
bit_xor-lt (suc k) a b p q = omega (
  arith,
  pow-suc 2 k,
  bit_xor_digit a b,
  differ-le-max (a % 2) (b % 2),
  bit_xor-lt k (a / 2) (b / 2) (omega (arith, pow-suc 2 k)) (omega (arith, pow-suc 2 k)),
)

bit_and-le_fuel : (n a b : ℕ) → b ≤ n → bit_and a b ≤ b
bit_and-le_fuel n a zero h = omega (arith, bit_and-none n a)
  where
    bit_and-none : (n a : ℕ) → bit_and a 0 ≡ 0
    bit_and-none n a = go a a (omega arith)
      where
        go : (n a : ℕ) → a ≤ n → bit_and a 0 ≡ 0
        go n zero h = refl
        go zero (suc a) h = absurd (omega arith)
        go (suc n) (suc a) h =
            omega (arith, bit_and_digit (suc a) 0, go n (suc a / 2) (omega arith))
bit_and-le_fuel zero a (suc b) h = absurd (omega arith)
bit_and-le_fuel (suc n) a (suc b) h =
    omega (arith, bit_and_digit a (suc b), bit_and-le_fuel n (a / 2) (suc b / 2) (omega arith))

pub bit_and-le : (a b : ℕ) → bit_and a b ≤ b
bit_and-le a b = bit_and-le_fuel b a b (omega arith)

-- `(q << k) | r` is a sum where `r` fits in `k` bits.
pub bit_or_shifted : (k q r : ℕ) → r < 2 ^ k → bit_or (q * 2 ^ k) r ≡ q * 2 ^ k + r
bit_or_shifted zero q r h = ground (arith, bit_or-none q q (omega arith))
  where
    bit_or-none : (n a : ℕ) → a ≤ n → bit_or a 0 ≡ a
    bit_or-none n zero h = refl
    bit_or-none zero (suc a) h = absurd (omega arith)
    bit_or-none (suc n) (suc a) h =
        omega (arith, bit_or_digit (suc a) 0, bit_or-none n (suc a / 2) (omega arith))
bit_or_shifted (suc k) q r h =
    let e : q * 2 ^ suc k ≡ 2 * (q * 2 ^ k) = omega (arith, ap (λ (t : ℕ). q * t) (pow-suc 2 k)) in
    ground (
      arith,
      bit_or_digit (q * 2 ^ suc k) r,
      e,
      bit_or_shifted k q (r / 2) (omega (arith, pow-suc 2 k)),
    )

-- A mask of `k` low bits is the remainder by `2 ^ k`.
pub bit_and_mask : (k a : ℕ) → bit_and a (2 ^ k - 1) ≡ a % 2 ^ k
bit_and_mask zero a = omega (arith, bit_and-le a 0)
bit_and_mask (suc k) a = ground (
  arith,
  pow-suc 2 k,
  one-le-pow k 2,
  bit_and_digit a (2 ^ suc k - 1),
  bit_and_mask k (a / 2),
  mod-double a (2 ^ k),
)
  where
    mod-double : (a m : ℕ) → 1 ≤ m → a % (2 * m) ≡ (a / 2 % m) * 2 + a % 2
    mod-double a m h = grind arith

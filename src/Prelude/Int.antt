-- ===== src/Prelude/Int.antt =====
-- Signed integers over the native numbers, under the library's names (its ℤ stands on the unary ℕ),
-- and the signed reading of a machine word.
use Prim.Native.Nat.{ℕ, suc, ◌+◌, ◌-◌, ◌%◌, ◌^◌, ◌≤◌, ◌<◌}
use mathlib.Core.Path.{◌≡◌}
use mathlib.Core.Bool.{Bool, true, false, not}
use native.Mathlib.Omega.{arith}
use native.Mathlib.Nat.{mod-eq_of_lt}
use mathlib.Core.Logic.{inl, inr}
use telda.Prelude.Tests.{ltb, leb, if◌then◌else◌, Bool-cases}

-- `negsuc n` is -(n + 1).
pub data ℤ : Type 0 where
  pos : ℕ → ℤ
  negsuc : ℕ → ℤ

abbrev pub pos_part : ℤ → ℕ
pos_part (pos n) = n
pos_part (negsuc n) = 0

abbrev pub neg_part : ℤ → ℕ
neg_part (pos n) = 0
neg_part (negsuc n) = suc n

-- a - b, as an integer.
abbrev pub sub_ℕ : ℕ → ℕ → ℤ
sub_ℕ a b = if leb b a then pos (a - b) else negsuc (b - a - 1)

infixl 65 ◌+ℤ◌ ◌-ℤ◌
infix 50 ◌≤ℤ◌ ◌<ℤ◌
unfoldable pub ◌+ℤ◌ : ℤ → ℤ → ℤ
a +ℤ b = sub_ℕ (pos_part a + pos_part b) (neg_part a + neg_part b)

unfoldable pub ◌-ℤ◌ : ℤ → ℤ → ℤ
a -ℤ b = sub_ℕ (pos_part a + neg_part b) (neg_part a + pos_part b)

abbrev pub ◌≤ℤ◌ : ℤ → ℤ → Type 0
a ≤ℤ b = pos_part a + neg_part b ≤ pos_part b + neg_part a

abbrev pub ◌<ℤ◌ : ℤ → ℤ → Type 0
a <ℤ b = pos_part a + neg_part b < pos_part b + neg_part a

abbrev pub ltb_ℤ : ℤ → ℤ → Bool
ltb_ℤ a b = ltb (pos_part a + neg_part b) (pos_part b + neg_part a)

abbrev pub leb_ℤ : ℤ → ℤ → Bool
leb_ℤ a b = leb (pos_part a + neg_part b) (pos_part b + neg_part a)

-- `x.is_negative()`
abbrev pub is_negative : ℤ → Bool
is_negative (pos n) = false
is_negative (negsuc n) = true

-- A word of `k + 1` bits as a signed number (`as i8`, `as i16`), and a signed number's pattern
-- (`as u8`, `as u16`), which is its remainder.
unfoldable pub to_signed : ℕ → ℕ → ℤ
to_signed k w = if ltb w (2 ^ k) then pos w else negsuc (2 ^ k + 2 ^ k - w - 1)

unfoldable pub of_signed : ℕ → ℤ → ℕ
of_signed k (pos n) = n % (2 ^ k + 2 ^ k)
of_signed k (negsuc n) = 2 ^ k + 2 ^ k - 1 - n % (2 ^ k + 2 ^ k)

-- Whether a number has a pattern of `k + 1` bits.
unfoldable pub in_range : ℕ → ℤ → Bool
in_range k (pos n) = ltb n (2 ^ k)
in_range k (negsuc n) = ltb n (2 ^ k)

-- `overflowing_add` and `overflowing_sub` of the signed types: the wrapped result, and whether the
-- true one is out of range.
unfoldable pub overflowing : ℕ → ℤ → ℤ × Bool
unfolding to_signed of_signed in_range
overflowing k z = (to_signed k (of_signed k z), not (in_range k z))

pub of_signed-to_signed : (k w : ℕ) → w < 2 ^ k + 2 ^ k → of_signed k (to_signed k w) ≡ w
unfolding of_signed to_signed
of_signed-to_signed k w h = elim (Bool-cases (ltb w (2 ^ k))) [
  | inl p ↦ rw p (mod-eq_of_lt h)
  | inr p ↦ rw p (complement (2 ^ k + 2 ^ k) w h)
]
  where
    complement : (m w : ℕ) → w < m → m - 1 - (m - w - 1) % m ≡ w
    complement m w h = grind arith

pub of_signed-lt : (k : ℕ) (z : ℤ) → 1 ≤ 2 ^ k → of_signed k z < 2 ^ k + 2 ^ k
unfolding of_signed
of_signed-lt k (pos n) h = omega arith
of_signed-lt k (negsuc n) h = omega arith

-- ===== src/Prelude/Words.antt =====
-- Machine words as native numbers. A `u8`, `u16` or `u32` is a number below 2 ^ 8, 2 ^ 16 or
-- 2 ^ 32; arithmetic wraps, as in the release profile, whose overflow checks are off.
use Prim.Native.Nat.{ℕ, ◌+◌, ◌-◌, ◌*◌, ◌/◌, ◌%◌, ◌^◌, ◌<◌}
use mathlib.Core.Path.{◌≡◌}
use mathlib.Core.List.{List, [], ◌∷◌}
use native.Mathlib.Omega.{arith}

-- `x as u8`, `x as u16`, `x as u32`
abbrev pub u8 : ℕ → ℕ
u8 x = x % 2 ^ 8

abbrev pub u16 : ℕ → ℕ
u16 x = x % 2 ^ 16

abbrev pub u32 : ℕ → ℕ
u32 x = x % 2 ^ 32

abbrev pub IsByte : ℕ → Type 0
IsByte x = x < 2 ^ 8

abbrev pub IsWide : ℕ → Type 0
IsWide x = x < 2 ^ 16

-- Wrapping `+` and `-` at u16 and u32; `-` on ℕ stops at 0, so the modulus is added first.
abbrev pub add16 : ℕ → ℕ → ℕ
add16 a b = u16 (a + b)

abbrev pub sub16 : ℕ → ℕ → ℕ
sub16 a b = u16 (a + 2 ^ 16 - b)

abbrev pub add32 : ℕ → ℕ → ℕ
add32 a b = u32 (a + b)

-- x << k at u32, and x >> k
abbrev pub shl32 : ℕ → ℕ → ℕ
shl32 x k = u32 (x * 2 ^ k)

abbrev pub shr : ℕ → ℕ → ℕ
shr x k = x / 2 ^ k

-- The two bytes of `u16::to_le_bytes`, and `u16::from_le_bytes([l, h])`.
abbrev pub low_byte : ℕ → ℕ
low_byte w = w % 2 ^ 8

abbrev pub high_byte : ℕ → ℕ
high_byte w = w / 2 ^ 8 % 2 ^ 8

abbrev pub wide_of : ℕ → ℕ → ℕ
wide_of l h = l + h * 2 ^ 8

-- `u16::to_le_bytes` and `u32::to_le_bytes` as lists, and `u32::from_le_bytes`.
abbrev pub le_bytes16 : ℕ → List ℕ
le_bytes16 w = low_byte w ∷ high_byte w ∷ []

abbrev pub le_bytes32 : ℕ → List ℕ
le_bytes32 w = w % 2 ^ 8 ∷ w / 2 ^ 8 % 2 ^ 8 ∷ w / 2 ^ 16 % 2 ^ 8 ∷ w / 2 ^ 24 % 2 ^ 8 ∷ []

abbrev pub of_le_bytes32 : ℕ → ℕ → ℕ → ℕ → ℕ
of_le_bytes32 a b c d = a + b * 2 ^ 8 + c * 2 ^ 16 + d * 2 ^ 24

pub wide_of-bytes : (w : ℕ) → IsWide w → wide_of (low_byte w) (high_byte w) ≡ w
wide_of-bytes w h = omega arith

pub wide_of-lt : (l h : ℕ) → IsByte l → IsByte h → IsWide (wide_of l h)
wide_of-lt l h p q = omega arith

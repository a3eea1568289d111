-- ===== src/Isa/Jumps/Compare.antt =====
-- src/blf4/isa/handlers.rs: what the conditional jumps decide after a subtraction.
use native.Mathlib.Nat.{mod-eq_of_lt}
use mathlib.Core.Bool.{beq}
use telda.Prelude.{
  ℕ, ◌∙◌, ◌+◌, ◌-◌, ◌%◌, ◌^◌, ◌≤◌, ◌<◌, ◌≡◌, refl, Bool, true, false, not, ◌&&◌, ltb, leb, ◌==◌,
  arith, Bool-cases, inl, inr,
}
use telda.Prelude.Int.{
  ℤ, pos, negsuc, sub_ℕ, pos_part, neg_part, ◌-ℤ◌, to_signed, of_signed, in_range, overflowing,
  ltb_ℤ, leb_ℤ, is_negative,
}
use telda.Blf4.Flags.{Blf4Flags}
use telda.Isa.Arith.{result_flags}
use telda.Isa.Words.{modulus, overflowing_sub, signed_overflowing_sub}
use telda.Isa.Jumps.{
  jez_taken, jnz_taken, jlt_taken, jle_taken, jgt_taken, jge_taken, ja_taken, jae_taken, jb_taken,
  jbe_taken,
}

-- The flags that `sub_b` (k = 7) and `sub_w` (k = 15) leave.
abbrev pub sub_flags : ℕ → ℕ → ℕ → Blf4Flags → Blf4Flags
sub_flags k x y f =
    result_flags (overflowing_sub k x y) (signed_overflowing_sub k (to_signed k x) (to_signed k y))
      f

mod_lem : (a b : ℕ) → a < b → a % b ≡ a
mod_lem a b h = mod-eq_of_lt h

-- The wrapped difference is zero for equal numbers only.
sub_mod-le : (m x y : ℕ) → x < m → y ≤ x → (x + m - y) % m ≡ x - y
sub_mod-le m x y hx h = grind arith

zero-sub : (m x y : ℕ) → x < m → y < m → ((x + m - y) % m == 0) ≡ (x == y)
zero-sub m x y hx hy = elim (Bool-cases (leb y x)) [
  | inl le ↦ ground (arith, sub_mod-le m x y)
  | inr gt ↦ ground (arith, mod_lem (x + m - y) (m))
]

-- A signed number of `k + 1` bits, and a difference of two such numbers.
abbrev Fits : ℕ → ℤ → Type 0
Fits k (pos n) = n < 2 ^ k
Fits k (negsuc n) = n < 2 ^ k

abbrev FitsTwice : ℕ → ℤ → Type 0
FitsTwice k (pos n) = n < 2 ^ k + 2 ^ k
FitsTwice k (negsuc n) = n + 1 < 2 ^ k + 2 ^ k

to_signed-Fits : (k w : ℕ) → w < 2 ^ k + 2 ^ k → Fits k (to_signed k w)
unfolding to_signed
to_signed-Fits k w h = elim (Bool-cases (ltb w (2 ^ k))) [
  | inl p ↦ rw p (ground arith)
  | inr p ↦ rw p (ground arith)
]

sub_ℕ-FitsTwice : (k a b : ℕ) → a < 2 ^ k + 2 ^ k → b < 2 ^ k + 2 ^ k → FitsTwice k (sub_ℕ a b)
sub_ℕ-FitsTwice k a b h h' = elim (Bool-cases (leb b a)) [
  | inl p ↦ rw p (ground arith)
  | inr p ↦ rw p (ground arith)
]

sub-FitsTwice : (k : ℕ) (a b : ℤ) → Fits k a → Fits k b → FitsTwice k (a -ℤ b)
unfolding ◌-ℤ◌
sub-FitsTwice k (pos a) (pos b) h h' = sub_ℕ-FitsTwice k _ _ (omega arith) (omega arith)
sub-FitsTwice k (pos a) (negsuc b) h h' = sub_ℕ-FitsTwice k _ _ (omega arith) (omega arith)
sub-FitsTwice k (negsuc a) (pos b) h h' = sub_ℕ-FitsTwice k _ _ (omega arith) (omega arith)
sub-FitsTwice k (negsuc a) (negsuc b) h h' = sub_ℕ-FitsTwice k _ _ (omega arith) (omega arith)

is_negative-sub : (a b : ℤ) → is_negative (a -ℤ b) ≡ ltb_ℤ a b
unfolding ◌-ℤ◌
is_negative-sub (pos a) (pos b) = ground arith
is_negative-sub (pos a) (negsuc b) = ground arith
is_negative-sub (negsuc a) (pos b) = ground arith
is_negative-sub (negsuc a) (negsuc b) = ground arith

-- The sign of the wrapped result differs from the overflow flag exactly if the true one is negative.
sign-overflow :
    (k : ℕ) (z : ℤ)
    → FitsTwice k z
    → not (beq (is_negative (overflowing k z).0) (overflowing k z).1) ≡ is_negative z
unfolding overflowing to_signed of_signed in_range
sign-overflow k (pos n) h = ground (arith, mod_lem (n) (2 ^ k + 2 ^ k))
sign-overflow k (negsuc n) h = ground (arith, mod_lem (n) (2 ^ k + 2 ^ k))

-- Words are equal as unsigned numbers exactly if they are as signed ones.
signed-eq :
    (k x y : ℕ)
    → x < modulus k
    → y < modulus k
    → (x == y) ≡ (
        pos_part (to_signed k x) + neg_part (to_signed k y)
        == pos_part (to_signed k y) + neg_part (to_signed k x))
unfolding to_signed
signed-eq k x y hx hy = elim (Bool-cases (ltb x (2 ^ k))) [
  | inl p ↦ elim (Bool-cases (ltb y (2 ^ k))) [
    | inl q ↦ rw (p, q) (ground arith)
    | inr q ↦ rw (p, q) (ground arith)
  ]
  | inr p ↦ elim (Bool-cases (ltb y (2 ^ k))) [
    | inl q ↦ rw (p, q) (ground arith)
    | inr q ↦ rw (p, q) (ground arith)
  ]
]

-- What the two tests of a signed comparison say of a sign test, given that they agree on equality.
compare_lem :
    (s e : Bool) (a b : ℕ)
    → not s ≡ ltb a b
    → e ≡ (a == b)
    → (s ≡ leb b a) × ((s && not e) ≡ ltb b a) × ((not s && e) ≡ false)
compare_lem true true a b h k = ground arith
compare_lem true false a b h k = ground arith
compare_lem false true a b h k = ground arith
compare_lem false false a b h k = ground arith

module _ (k x y : ℕ) (f : Blf4Flags) (hx : x < modulus k) (hy : y < modulus k) where
  signed_lem :
      not (beq (sub_flags k x y f).sign (sub_flags k x y f).overflow)
      ≡ ltb_ℤ (to_signed k x) (to_signed k y)
  unfolding result_flags signed_overflowing_sub
  signed_lem =
      let a = to_signed k x in
      let b = to_signed k y in
      sign-overflow k (a -ℤ b) (sub-FitsTwice k a b (to_signed-Fits k x hx) (to_signed-Fits k y hy))
      ∙ is_negative-sub a b

  comparisons :
      (jge_taken (sub_flags k x y f) ≡ leb_ℤ (to_signed k y) (to_signed k x))
      × (jgt_taken (sub_flags k x y f) ≡ ltb_ℤ (to_signed k y) (to_signed k x))
      × (jle_taken (sub_flags k x y f) ≡ false)
  unfolding result_flags overflowing_sub signed_overflowing_sub
  comparisons =
      compare_lem _ (sub_flags k x y f).zero _ _ signed_lem
        (zero-sub (modulus k) x y hx hy ∙ signed-eq k x y hx hy)

  -- After a subtraction of words of the same width, `jez` and `jnz` test its operands for equality,
  -- and `jb`, `jae`, `ja` and `jbe` compare them as unsigned numbers.
  pub unsigned_jumps-sub :
      (jez_taken (sub_flags k x y f) ≡ (x == y))
      × (jnz_taken (sub_flags k x y f) ≡ not (x == y))
      × (jb_taken (sub_flags k x y f) ≡ ltb x y)
      × (jae_taken (sub_flags k x y f) ≡ leb y x)
      × (ja_taken (sub_flags k x y f) ≡ ltb y x)
      × (jbe_taken (sub_flags k x y f) ≡ leb x y)
  unfolding result_flags overflowing_sub
  unsigned_jumps-sub =
      let e = zero-sub (modulus k) x y hx hy in
      (e, rw e refl, refl, ground arith, rw e (ground arith), rw e (ground arith))

  -- After a subtraction of words of the same width, `jlt`, `jge` and `jgt` compare its operands as
  -- signed numbers.
  pub signed_jumps-sub :
      (jlt_taken (sub_flags k x y f) ≡ ltb_ℤ (to_signed k x) (to_signed k y))
      × (jge_taken (sub_flags k x y f) ≡ leb_ℤ (to_signed k y) (to_signed k x))
      × (jgt_taken (sub_flags k x y f) ≡ ltb_ℤ (to_signed k y) (to_signed k x))
  signed_jumps-sub = (signed_lem, comparisons.0, comparisons.1)

  -- After a subtraction of words of the same width, `jle` is not taken, not even when its operands are equal.
  pub jle-sub : jle_taken (sub_flags k x y f) ≡ false
  jle-sub = comparisons.2

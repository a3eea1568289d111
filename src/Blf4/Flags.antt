-- ===== src/Blf4/Flags.antt =====
-- src/blf4/mod.rs: `Blf4Flags` and its conversions to and from a wide.
use mathlib.Core.Bool.{beq, and-eq-true_iff}
use telda.Prelude.{
  ltb, ltb→lt, ℕ, ◌*◌, ◌^◌, ◌<◌, ◌≡◌, refl, Bool, true, false, not, ◌&&◌, bit_and, bit_or, ◌==◌,
  ==_iff, all_below, all_below-lt, arith,
}

pub record Blf4Flags : Type 0 where
  pub user_mode : Bool
  pub trap : Bool
  pub reserved : Bool
  pub virtual_mode : Bool
  pub carry : Bool
  pub sign : Bool
  pub overflow : Bool
  pub zero : Bool

abbrev pub default_flags : Blf4Flags
default_flags = record {
  user_mode = false;
  trap = false;
  reserved = false;
  virtual_mode = false;
  carry = false;
  sign = false;
  overflow = false;
  zero = false;
}

-- `b as u16`
abbrev pub of_bool : Bool → ℕ
of_bool true = 1
of_bool false = 0

unfoldable pub flags_to_wide : Blf4Flags → ℕ
flags_to_wide f = bit_or (of_bool f.zero * 2 ^ 7) (
    bit_or (of_bool f.overflow * 2 ^ 6) (
      bit_or (of_bool f.sign * 2 ^ 5) (
        bit_or (of_bool f.carry * 2 ^ 4) (
          bit_or (of_bool f.virtual_mode * 2 ^ 3) (
            bit_or (of_bool f.reserved * 2 ^ 2)
              (bit_or (of_bool f.trap * 2 ^ 1) (of_bool f.user_mode)))))))

abbrev pub has_bit : ℕ → ℕ → Bool
has_bit n k = not (bit_and n (2 ^ k) == 0)

unfoldable pub flags_of_wide : ℕ → Blf4Flags
flags_of_wide n = record {
  zero = has_bit n 7;
  overflow = has_bit n 6;
  sign = has_bit n 5;
  carry = has_bit n 4;
  virtual_mode = has_bit n 3;
  reserved = has_bit n 2;
  trap = has_bit n 1;
  user_mode = has_bit n 0;
}

beq→eq : (a b : Bool) → beq a b ≡ true → a ≡ b
beq→eq a b h = ground arith

-- A Boolean test of all values of the eight flags, by evaluation.
every : (Bool → Bool) → Bool
every p = p true && p false

every_sound : (p : Bool → Bool) (b : Bool) → every p ≡ true → p b ≡ true
unfolding every
every_sound p true h = ((and-eq-true_iff _ _).0 h).0
every_sound p false h = ((and-eq-true_iff _ _).0 h).1

flags : (z o s c v r t u : Bool) → Blf4Flags
flags z o s c v r t u = record {
  user_mode = u;
  trap = t;
  reserved = r;
  virtual_mode = v;
  carry = c;
  sign = s;
  overflow = o;
  zero = z;
}

module _ (p : Blf4Flags → Bool) where
  all_flags : Bool
  unfolding every flags
  all_flags = every λ z. every λ o.
      every λ s. every λ c. every λ v. every λ r. every λ t. every λ u. p (flags z o s c v r t u)

  all_flags_sound : (f : Blf4Flags) → all_flags ≡ true → p f ≡ true
  unfolding all_flags
  all_flags_sound f h =
      every_sound
        (λ u. p (flags f.zero f.overflow f.sign f.carry f.virtual_mode f.reserved f.trap u))
        f.user_mode
        (every_sound
          (λ t.
            every (λ u. p (flags f.zero f.overflow f.sign f.carry f.virtual_mode f.reserved t u)))
          f.trap
          (every_sound
            (λ r.
              every
                (λ t. every (λ u. p (flags f.zero f.overflow f.sign f.carry f.virtual_mode r t u))))
            f.reserved
            (every_sound
              (λ v.
                every (λ r.
                  every (λ t. every (λ u. p (flags f.zero f.overflow f.sign f.carry v r t u)))))
              f.virtual_mode
              (every_sound
                (λ c. every (λ v.
                  every
                    (λ r. every (λ t. every (λ u. p (flags f.zero f.overflow f.sign c v r t u))))))
                f.carry
                (every_sound
                  (λ s. every (λ c. every (λ v.
                    every
                      (λ r. every (λ t. every (λ u. p (flags f.zero f.overflow s c v r t u)))))))
                  f.sign
                  (every_sound
                    (λ o. every (λ s. every (λ c. every (λ v.
                      every (λ r. every (λ t. every (λ u. p (flags f.zero o s c v r t u))))))))
                    f.overflow
                    (every_sound
                      (λ z. every (λ o. every (λ s. every (λ c.
                        every (λ v.
                          every (λ r. every (λ t. every (λ u. p (flags z o s c v r t u)))))))))
                      f.zero (h))))))))

-- Saving the flags as a wide and restoring them loses none of the eight.
-- Flags that are saved as a wide and restored are the same.
pub flags_of_wide-flags_to_wide : (f : Blf4Flags) → flags_of_wide (flags_to_wide f) ≡ f
unfolding flags_of_wide flags_to_wide all_flags
flags_of_wide-flags_to_wide f = λ i. record {
  zero = same (λ g. g.zero) refl i;
  overflow = same (λ g. g.overflow) refl i;
  sign = same (λ g. g.sign) refl i;
  carry = same (λ g. g.carry) refl i;
  virtual_mode = same (λ g. g.virtual_mode) refl i;
  reserved = same (λ g. g.reserved) refl i;
  trap = same (λ g. g.trap) refl i;
  user_mode = same (λ g. g.user_mode) refl i;
}
  where
    same :
        (get : Blf4Flags → Bool)
        → all_flags (λ g. beq (get (flags_of_wide (flags_to_wide g))) (get g)) ≡ true
        → get (flags_of_wide (flags_to_wide f)) ≡ get f
    same get h =
        beq→eq _ _ (all_flags_sound (λ g. beq (get (flags_of_wide (flags_to_wide g))) (get g)) f h)

-- A wide of eight bits that is restored to flags and saved is the same.
pub flags_to_wide-flags_of_wide : (n : ℕ) → n < 2 ^ 8 → flags_to_wide (flags_of_wide n) ≡ n
flags_to_wide-flags_of_wide n h = (==_iff _ n).0 (
    all_below-lt (λ n. flags_to_wide (flags_of_wide n) == n) 256
      (unfold flags_to_wide flags_of_wide all_below in refl) n h)

pub flags_to_wide-lt : (f : Blf4Flags) → flags_to_wide f < 2 ^ 8
flags_to_wide-lt f = ltb→lt _ _ (
    all_flags_sound (λ g. ltb (flags_to_wide g) (2 ^ 8)) f (unfold all_flags flags_to_wide in refl))

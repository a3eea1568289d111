-- ===== src/Blf4/Registers/Laws.antt =====
-- src/blf4/mod.rs: reading a register after writing one.
use telda.Prelude.{
  ℕ, ◌+◌, ◌-◌, ◌*◌, ◌<◌, ◌≤◌, ◌≡◌, refl, ap, arith, Bool, true, false, ◌&&◌, ◌||◌, ◌==◌, leb,
  IsWide, low_byte, high_byte, wide_of, Bool-cases, inl, inr,
}
use telda.Blf4.Action.{done, trap}
use telda.Blf4.Trap.{illegal_operation}
use telda.Blf4.Registers.{Blf4, set_gp, read_br, read_wr, write_wr}

-- Two neighbouring bytes are written and read as a wide.
joined :
    (f : ℕ → ℕ) (i v : ℕ)
    → IsWide v
    → wide_of
        (set_gp (i + 1) (high_byte v) (set_gp i (low_byte v) f) i)
        (set_gp (i + 1) (high_byte v) (set_gp i (low_byte v) f) (i + 1))
      ≡ v
joined f i v h = ground arith

-- The registers that user mode may not write.
abbrev pub is_forbidden : ℕ → Blf4 → Bool
is_forbidden r c = (r == 14 || r == 15) && c.flags.user_mode

-- A write that the mode forbids traps and changes nothing; any other one is done, and the register
-- then reads as the value, without a further change.
pub data WriteRead (r v : ℕ) (c : Blf4) : Type 0 where
  forbidden : is_forbidden r c ≡ true → write_wr r v c ≡ trap illegal_operation c → WriteRead r v c
  written :
      {d : Blf4}
      → is_forbidden r c ≡ false
      → write_wr r v c ≡ done tt d
      → read_wr r d ≡ done v d
      → WriteRead r v c

low_register : (r : ℕ) (c : Blf4) → r ≤ 13 → is_forbidden r c ≡ false
low_register r c h = ground arith

module _ (r v : ℕ) (c : Blf4) (n0 : (r == 0) ≡ false) where
  of_pair : leb r 10 ≡ true → IsWide v → WriteRead r v c
  unfolding write_wr read_wr
  of_pair e h =
      let i = (r - 1) * 2 in
      let d = record c {
        general_purposes = set_gp (i + 1) (high_byte v) (set_gp i (low_byte v) c.general_purposes);
      } in
      written {d = d} (low_register r c (ground arith)) (rw (n0, e) refl)
        (rw (n0, e) (ap (λ w. done w d) (joined c.general_purposes i v h)))

  module _ (n10 : leb r 10 ≡ false) where
    of_stack : (r == 11) ≡ true → WriteRead r v c
    unfolding write_wr read_wr
    of_stack e =
        written {d = record c { stack = v }} (low_register r c (ground arith))
          (rw (n0, n10, e) refl) (rw (n0, n10, e) refl)

    module _ (n11 : (r == 11) ≡ false) where
      of_link : (r == 12) ≡ true → WriteRead r v c
      unfolding write_wr read_wr
      of_link e =
          written {d = record c { link = v }} (low_register r c (ground arith))
            (rw (n0, n10, n11, e) refl) (rw (n0, n10, n11, e) refl)

      module _ (n12 : (r == 12) ≡ false) where
        of_frame : (r == 13) ≡ true → WriteRead r v c
        unfolding write_wr read_wr
        of_frame e =
            written {d = record c { frame = v }} (low_register r c (ground arith))
              (rw (n0, n10, n11, n12, e) refl) (rw (n0, n10, n11, n12, e) refl)

        module _ (n13 : (r == 13) ≡ false) where
          of_user : ((r == 14 || r == 15) && c.flags.user_mode) ≡ true → WriteRead r v c
          unfolding write_wr
          of_user e = forbidden e (rw (n0, n10, n11, n12, n13, e) refl)

          module _ (s : ((r == 14 || r == 15) && c.flags.user_mode) ≡ false) where
            of_page : (r == 14) ≡ true → WriteRead r v c
            unfolding write_wr read_wr
            of_page e =
                written {d = record c { page = v }} s (rw (n0, n10, n11, n12, n13, s, e) refl)
                  (rw (n0, n10, n11, n12, n13, s, e) refl)

            of_trap_handler : (r == 14) ≡ false → (r == 15) ≡ true → WriteRead r v c
            unfolding write_wr read_wr
            of_trap_handler n14 e =
                written {d = record c { trap_handler = v }} s
                  (rw (n0, n10, n11, n12, n13, s, n14, e) refl)
                  (rw (n0, n10, n11, n12, n13, s, n14, e) refl)

-- Writing a wide to a register other than R0 succeeds, and the register then reads as the wide;
-- only registers 14 and 15 in user mode are refused, by an illegal operation that changes
-- nothing.
pub write_wr-read_wr : (r v : ℕ) (c : Blf4) → 1 ≤ r → r < 16 → IsWide v → WriteRead r v c
write_wr-read_wr r v c h1 h16 w =
    let n0 : (r == 0) ≡ false = ground arith in
    elim (Bool-cases (leb r 10)) [
      | inl e ↦ of_pair r v c n0 e w
      | inr n10 ↦ elim (Bool-cases (r == 11)) [
        | inl e ↦ of_stack r v c n0 n10 e
        | inr n11 ↦ elim (Bool-cases (r == 12)) [
          | inl e ↦ of_link r v c n0 n10 n11 e
          | inr n12 ↦ elim (Bool-cases (r == 13)) [
            | inl e ↦ of_frame r v c n0 n10 n11 n12 e
            | inr n13 ↦ elim (Bool-cases ((r == 14 || r == 15) && c.flags.user_mode)) [
              | inl e ↦ of_user r v c n0 n10 n11 n12 n13 e
              | inr s ↦ elim (Bool-cases (r == 14)) [
                | inl e ↦ of_page r v c n0 n10 n11 n12 n13 s e
                | inr n14 ↦ of_trap_handler r v c n0 n10 n11 n12 n13 s n14 (ground arith)
              ]
            ]
          ]
        ]
      ]
    ]

-- Writing a wide to one of R1 to R5 succeeds, in every mode, and it is then read bytewise: its
-- low byte by the byte register with an odd number, its high byte by the next one.
pub write_wr-read_br :
    (r v : ℕ) (c : Blf4)
    → 1 ≤ r
    → r ≤ 5
    → (d : Blf4) × (write_wr r v c ≡ done tt d)
      × (read_br (2 * r - 1) d ≡ done (low_byte v) d)
      × (read_br (2 * r) d ≡ done (high_byte v) d)
unfolding write_wr read_br
write_wr-read_br r v c h1 h5 =
    let n0 : (r == 0) ≡ false = ground arith in
    let e : leb r 10 ≡ true = ground arith in
    let l0 : (2 * r - 1 == 0) ≡ false = ground arith in
    let l10 : leb (2 * r - 1) 10 ≡ true = ground arith in
    let k0 : (2 * r == 0) ≡ false = ground arith in
    let k10 : leb (2 * r) 10 ≡ true = ground arith in
    let i = (r - 1) * 2 in
    let f = set_gp (i + 1) (high_byte v) (set_gp i (low_byte v) c.general_purposes) in
    let d = record c { general_purposes = f } in
    let low : f (2 * r - 1 - 1) ≡ low_byte v = ground arith in
    let high : f (2 * r - 1) ≡ high_byte v = ground arith in
    (
      d,
      rw (n0, e) refl,
      rw (l0, l10) (ap (λ w. done w d) low),
      rw (k0, k10) (ap (λ w. done w d) high),
    )

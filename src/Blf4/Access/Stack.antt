-- ===== src/Blf4/Access/Stack.antt =====
-- src/blf4/mod.rs: the stack, in direct mode and in the RAM of `LazyMain`.
use telda.Prelude.{
  ℕ, ◌+◌, ◌-◌, ◌^◌, ◌<◌, ◌≤◌, ◌≡◌, refl, ap, ◌∙◌, arith, true, false, ltb, ◌==◌, shr, IsWide,
  low_byte, high_byte, wide_of, add16, sub16,
}
use telda.Align.{page_size}
use telda.Mem.Io.{Io}
use telda.Mem.Lazy.{LazyMain, lazy_main, lazy_read, lazy_write, half_cell, store}
use telda.Blf4.Action.{done, and_then, ◌>>◌}
use telda.Blf4.Context.{HandlerContext, physical_read, physical_write}
use telda.Blf4.Paging.{addr_resolve}
use telda.Blf4.Access.{read, write, read_wide, write_wide, pushw, popw}

module _ {P : Type 0} ⦃io : Io P⦄ where
  -- The context after a byte is written to RAM.
  abbrev with_byte : HandlerContext (LazyMain P) → ℕ → ℕ → HandlerContext (LazyMain P)
  with_byte c a v = record c { mem = record c.mem { ram0 = store c.mem.ram0 (a - half_cell) v } }

  module _ (c : HandlerContext (LazyMain P)) (a : ℕ) (direct : c.cpu.flags.virtual_mode ≡ false)
      (ha : half_cell ≤ a) (ka : a < 2 ^ 16) where
    ram-write : (v : ℕ) → write a v c ≡ done tt (with_byte c a v)
    unfolding write addr_resolve physical_write lazy_write
    ram-write v =
        let p : ltb a page_size ≡ false = ground arith in
        let r : ltb a half_cell ≡ false = ground arith in
        let w : ltb a 0x1_0000 ≡ true = ground arith in rw (direct, p, r, w) refl

    ram-read : read a c ≡ done (c.mem.ram0 (a - half_cell)) c
    unfolding read addr_resolve physical_read lazy_read
    ram-read =
        let i : (shr a 16 == 0) ≡ true = ground arith in
        let p : ltb a page_size ≡ false = ground arith in
        let r : ltb a half_cell ≡ false = ground arith in rw (direct, i, p, r) refl

  -- The context after a wide is pushed.
  abbrev pushed : ℕ → HandlerContext (LazyMain P) → HandlerContext (LazyMain P)
  pushed w c =
      let a = sub16 c.cpu.stack 2 in
      with_byte (with_byte (record c { cpu = record c.cpu { stack = a } }) a (low_byte w))
        (add16 a 1) (high_byte w)

  module _ (c : HandlerContext (LazyMain P)) (direct : c.cpu.flags.virtual_mode ≡ false) where
    ram-pushw :
        (w : ℕ)
        → half_cell + 2 ≤ c.cpu.stack
        → IsWide c.cpu.stack
        → pushw w c ≡ done tt (pushed w c)
    unfolding pushw write_wide
    ram-pushw w h k =
        let a = sub16 c.cpu.stack 2 in
        let c1 : HandlerContext (LazyMain P) = record c { cpu = record c.cpu { stack = a } } in
        ap (λ o. and_then o (λ _. write (add16 a 1) (high_byte w)))
          (ram-write c1 a direct (omega arith) (omega arith) (low_byte w))
        ∙ ram-write (with_byte c1 a (low_byte w)) (add16 a 1) direct (omega arith) (omega arith)
            (high_byte w)

    ram-popw :
        half_cell ≤ c.cpu.stack
        → c.cpu.stack + 1 < 2 ^ 16
        → popw c
          ≡ done
              (wide_of
                (c.mem.ram0 (c.cpu.stack - half_cell))
                (c.mem.ram0 (add16 c.cpu.stack 1 - half_cell)))
              (record c { cpu = record c.cpu { stack = add16 c.cpu.stack 2 } })
    unfolding popw read_wide
    ram-popw h k =
        rw
          (
            ram-read c c.cpu.stack direct h (omega arith),
            ram-read c (add16 c.cpu.stack 1) direct (omega arith) (omega arith),
          )
          refl

stored_pair :
    (f : ℕ → ℕ) (a w : ℕ)
    → half_cell ≤ a
    → a + 1 < 2 ^ 16
    → IsWide w
    → wide_of
        (store
          (store f (a - half_cell) (low_byte w))
          (add16 a 1 - half_cell)
          (high_byte w)
          (a - half_cell))
        (store
          (store f (a - half_cell) (low_byte w))
          (add16 a 1 - half_cell)
          (high_byte w)
          (add16 a 1 - half_cell))
      ≡ w
stored_pair f a w h k hw = ground arith

-- In direct mode, with the stack in the RAM of the first block and room for two bytes, popping after
-- pushing a wide gives the wide, and leaves the processor as it was.
pub pushw-popw :
    {P : Type 0} ⦃io : Io P⦄ (c : HandlerContext (LazyMain P)) (w : ℕ)
    → c.cpu.flags.virtual_mode ≡ false
    → half_cell + 2 ≤ c.cpu.stack
    → IsWide c.cpu.stack
    → IsWide w
    → (m : LazyMain P) × ((pushw w >> popw) c ≡ done w (record c { mem = m }))
pushw-popw c w direct h k hw =
    let d = pushed w c in
    let a = sub16 c.cpu.stack 2 in
    let back : add16 a 2 ≡ c.cpu.stack = omega arith in
    (
      d.mem,
      ap (λ o. and_then o (λ _. popw)) (ram-pushw c direct w h k)
          ∙ ram-popw d direct (omega arith) (omega arith)
          ∙ ap (λ x. done x (record d { cpu = record d.cpu { stack = add16 a 2 } }))
              (stored_pair c.mem.ram0 a w (omega arith) (omega arith) hw)
          ∙ ap (λ (s : ℕ). done w (record d { cpu = record d.cpu { stack = s } })) back,
    )

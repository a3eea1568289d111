-- ===== src/Safety/Steady.antt =====
-- src/blf4/mod.rs: invariants of the processor, and the operations on registers under them.
use telda.Prelude.{
  ℕ, ◌+◌, ◌-◌, ◌*◌, ◌<◌, ◌≡◌, arith, false, ◌&&◌, ◌||◌, IsByte, IsWide, ◌==◌, leb, low_byte,
  high_byte, wide_of-lt,
}
use telda.Mem.{MainMemory, MemoryLaws}
use telda.Blf4.Action.{Action, Outcome, Ensures, Ensures-if, returns, traps, Keeps, Any}
use telda.Blf4.Flags.{Blf4Flags}
use telda.Blf4.Registers.{Blf4, IsBlf4, read_br, write_br, read_wr, write_wr, set_gp}
use telda.Blf4.Context.{HandlerContext, in_context, on_cpu}

-- `J` implies that the registers are in range, and survives the updates of the program counter, the
-- stack and link pointers and of the flags that arithmetic sets.
pub record IsSteady (J : Blf4 → Type 0) : Type 0 where
  pub cpu : (c : Blf4) → J c → IsBlf4 c
  pub program_counter : (c : Blf4) (w : ℕ) → J c → IsWide w → J (record c { program_counter = w })
  pub stack : (c : Blf4) (w : ℕ) → J c → IsWide w → J (record c { stack = w })
  pub link : (c : Blf4) (w : ℕ) → J c → IsWide w → J (record c { link = w })
  pub flags :
      (c : Blf4) (f : Blf4Flags)
      → J c
      → f.user_mode ≡ c.flags.user_mode
      → f.virtual_mode ≡ c.flags.virtual_mode
      → f.trap ≡ c.flags.trap
      → J (record c { flags = f })

-- Beyond that, `J` survives the writes of registers by number.
pub record IsWritable (J : Blf4 → Type 0) : Type 0 where
  pub steady : IsSteady J
  pub write_br : (r v : ℕ) → r < 16 → IsByte v → Keeps J Any (write_br r v)
  pub write_wr : (r v : ℕ) → r < 16 → IsWide v → Keeps J Any (write_wr r v)

-- A context whose processor satisfies `J` and whose memory is valid.
pub record Holds {M : Type 0} {mm : MainMemory M} (laws : MemoryLaws mm) (J : Blf4 → Type 0)
    (c : HandlerContext M) : Type 0 where
  pub cpu : J c.cpu
  pub mem : laws.IsValid c.mem

abbrev pub valid :
    {M : Type 0} {mm : MainMemory M} {laws : MemoryLaws mm} {J : Blf4 → Type 0}
    {c : HandlerContext M}
    → J c.cpu
    → laws.IsValid c.mem
    → Holds laws J c
valid j v = record { cpu = j; mem = v }

module _ {M : Type 0} {mm : MainMemory M} (laws : MemoryLaws mm) {J : Blf4 → Type 0} where
  Ensures-in_context :
      {A : Type 0} {R : A → Type 0} (m : M) (o : Outcome Blf4 A)
      → laws.IsValid m
      → Ensures J R o
      → Ensures (Holds laws J) R (in_context m o)
  Ensures-in_context m _ v (returns r j) = returns r (valid j v)
  Ensures-in_context m _ v (traps j) = traps (valid j v)

  -- An operation of the processor leaves the memory alone.
  pub Keeps-on_cpu :
      {A : Type 0} {R : A → Type 0} (op : Action Blf4 A)
      → Keeps J R op
      → Keeps (Holds laws J) R (on_cpu op)
  Keeps-on_cpu op k c h = Ensures-in_context c.mem (op c.cpu) h.mem (k c.cpu h.cpu)

-- Reading a register gives a value of its width.
module _ {J : Blf4 → Type 0} (steady : IsSteady J) where
  pub read_br-IsByte : (r : ℕ) → r < 16 → Keeps J IsByte (read_br r)
  unfolding read_br
  read_br-IsByte r h c j =
      Ensures-if (r == 0) (λ _. returns (omega arith) j)
        λ n1.
          Ensures-if (leb r 10) (λ _. returns ((steady.cpu c j).bytes _) j)
            λ e.
              Ensures-if (leb r 15) (λ _. returns ((steady.cpu c j).bytes _) j)
                λ f. absurd (ground arith)

  pub read_wr-IsWide : (r : ℕ) → r < 16 → Keeps J IsWide (read_wr r)
  unfolding read_wr
  read_wr-IsWide r h c j =
      let ok = steady.cpu c j in
      Ensures-if (r == 0) (λ _. returns (omega arith) j)
        λ n2.
          Ensures-if (leb r 10) (λ _. returns (wide_of-lt _ _ (ok.bytes _) (ok.bytes _)) j)
            λ n3.
              Ensures-if (r == 11) (λ _. returns ok.stack j)
                λ n4.
                  Ensures-if (r == 12) (λ _. returns ok.link j)
                    λ n5.
                      Ensures-if (r == 13) (λ _. returns ok.frame j)
                        λ n6.
                          Ensures-if ((r == 14 || r == 15) && c.flags.user_mode) (λ _. traps j)
                            λ n7.
                              Ensures-if (r == 14) (λ _. returns ok.page j)
                                λ n8.
                                  Ensures-if (r == 15) (λ _. returns ok.trap_handler j)
                                    λ n9. absurd (ground arith)

pub set_gp-IsByte :
    (f : ℕ → ℕ) (i v : ℕ) → ((j : ℕ) → IsByte (f j)) → IsByte v → (j : ℕ) → IsByte (set_gp i v f j)
set_gp-IsByte f i v h b j = ground (arith, h j)

-- In a mode where they may be written at all, every register takes a value of its width. `J` is
-- known to survive the writes of the fields; `page` and `trap_handler` are asked for only outside
-- user mode.
module _ {J : Blf4 → Type 0} (ranges : (c : Blf4) → J c → IsBlf4 c)
    (gp : (c : Blf4) (f : ℕ → ℕ)
      → J c
      → ((i : ℕ) → IsByte (f i))
      → J (record c { general_purposes = f }))
    (stack : (c : Blf4) (w : ℕ) → J c → IsWide w → J (record c { stack = w }))
    (link : (c : Blf4) (w : ℕ) → J c → IsWide w → J (record c { link = w }))
    (frame : (c : Blf4) (w : ℕ) → J c → IsWide w → J (record c { frame = w }))
    (page : (c : Blf4) (w : ℕ)
      → J c
      → IsWide w
      → c.flags.user_mode ≡ false
      → J (record c { page = w }))
    (trap_handler : (c : Blf4) (w : ℕ)
      → J c
      → IsWide w
      → c.flags.user_mode ≡ false
      → J (record c { trap_handler = w })) where
  pub write_br-Keeps : (r v : ℕ) → r < 16 → IsByte v → Keeps J Any (write_br r v)
  unfolding write_br
  write_br-Keeps r v h b c j =
      let bytes = (ranges c j).bytes in
      Ensures-if (r == 0) (λ _. returns tt j)
        λ n10.
          Ensures-if (leb r 10) (λ _. returns tt (gp c _ j (set_gp-IsByte _ (r - 1) v bytes b)))
            λ e.
              Ensures-if (leb r 15)
                (λ _. returns tt (
                  gp c _ j (
                    set_gp-IsByte _ _ 0 (set_gp-IsByte _ (10 + (r - 11) * 2) v bytes b)
                      (omega arith))))
                λ f. absurd (ground arith)

  pub write_wr-Keeps : (r v : ℕ) → r < 16 → IsWide v → Keeps J Any (write_wr r v)
  unfolding write_wr
  write_wr-Keeps r v h w c j =
      let bytes = (ranges c j).bytes in
      Ensures-if (r == 0) (λ _. returns tt j)
        λ n11.
          Ensures-if (leb r 10)
            (λ _. returns tt (
              gp c _ j (
                set_gp-IsByte _ _ (high_byte v)
                  (set_gp-IsByte _ ((r - 1) * 2) (low_byte v) bytes (omega arith)) (omega arith))))
            λ n12.
              Ensures-if (r == 11) (λ _. returns tt (stack c v j w))
                λ n13.
                  Ensures-if (r == 12) (λ _. returns tt (link c v j w))
                    λ n14.
                      Ensures-if (r == 13) (λ _. returns tt (frame c v j w))
                        λ n15.
                          Ensures-if ((r == 14 || r == 15) && c.flags.user_mode) (λ _. traps j)
                            λ u.
                              Ensures-if (r == 14) (λ e. returns tt (page c v j w (ground arith)))
                                λ n16.
                                  Ensures-if (r == 15)
                                    (λ e. returns tt (trap_handler c v j w (ground arith)))
                                    λ n17. absurd (ground arith)

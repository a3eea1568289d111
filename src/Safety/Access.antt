-- ===== src/Safety/Access.antt =====
-- src/blf4/mod.rs and isa/handlers.rs: what fetching, reading, writing and the stack keep.
use telda.Prelude.{ℕ, ◌<◌, ◌≡◌, arith, List, [], ◌∷◌, IsByte, IsWide, All, wide_of-lt, add16, sub16}
use telda.U4.{paired-lt}
use telda.Mem.{MainMemory, MemoryLaws}
use telda.Blf4.Action.{returns, Keeps, Any, bind, bind_const, Keeps-pure, gets}
use telda.Blf4.Flags.{Blf4Flags, flags_to_wide}
use telda.Blf4.Registers.{Blf4, read_br, write_br, read_wr, write_wr}
use telda.Blf4.Context.{
  HandlerContext, get_br, put_br, get_wr, put_wr, the_flags, set_flags, the_stack, set_stack,
  the_program_counter, set_program_counter, set_link,
}
use telda.Blf4.Paging.{AccessMode}
use telda.Blf4.Access.{
  fetch, read, write, read_wide, write_wide, pushw, pushb, popw, popb, push_each, pop_each,
  saved_registers, push_registers,
}
use telda.Isa.System.{Handler}
use telda.Isa.Args.{arg_pair, arg_imm_byte, arg_imm_wide}
use telda.Safety.Steady.{
  IsSteady, IsWritable, Holds, valid, Keeps-on_cpu, read_br-IsByte, read_wr-IsWide,
}
use telda.Safety.Memory.{addr_resolve-IsPhysical, physical_read-IsByte, physical_write-Keeps}

abbrev pub IsRegister : ℕ → Type 0
IsRegister r = r < 16

module _ {M : Type 0} ⦃mm : MainMemory M⦄ (laws : MemoryLaws mm) {J : Blf4 → Type 0}
    (steady : IsSteady J) where
  -- The invariant that every action below keeps.
  abbrev pub I : HandlerContext M → Type 0
  I = Holds laws J

  pub get_br-IsByte : (r : ℕ) → IsRegister r → Keeps I IsByte (get_br r)
  get_br-IsByte r h = Keeps-on_cpu laws (read_br r) (read_br-IsByte steady r h)

  pub get_wr-IsWide : (r : ℕ) → IsRegister r → Keeps I IsWide (get_wr r)
  get_wr-IsWide r h = Keeps-on_cpu laws (read_wr r) (read_wr-IsWide steady r h)

  pub set_stack-Keeps : (w : ℕ) → IsWide w → Keeps I Any (set_stack w)
  set_stack-Keeps w h c i = returns tt (valid (steady.stack c.cpu w i.cpu h) i.mem)

  pub set_link-Keeps : (w : ℕ) → IsWide w → Keeps I Any (set_link w)
  set_link-Keeps w h c i = returns tt (valid (steady.link c.cpu w i.cpu h) i.mem)

  pub set_program_counter-Keeps : (w : ℕ) → IsWide w → Keeps I Any (set_program_counter w)
  set_program_counter-Keeps w h c i =
      returns tt (valid (steady.program_counter c.cpu w i.cpu h) i.mem)

  -- Flags may change, but for the two modes and the trap flag.
  pub set_flags-Keeps :
      (f : Blf4Flags → Blf4Flags)
      → ((x : Blf4Flags)
          → ((f x).user_mode ≡ x.user_mode)
            × ((f x).virtual_mode ≡ x.virtual_mode)
            × ((f x).trap ≡ x.trap))
      → Keeps I Any (set_flags f)
  set_flags-Keeps f h c i = returns tt (
      valid
        (steady.flags c.cpu (f c.cpu.flags) i.cpu (h c.cpu.flags).0 (h c.cpu.flags).1
          (h c.cpu.flags).2)
        i.mem)

  pub the_flags-Keeps : Keeps I Any the_flags
  the_flags-Keeps c i = returns tt i

  pub the_stack-IsWide : Keeps I IsWide the_stack
  the_stack-IsWide c i = returns (steady.cpu c.cpu i.cpu).stack i

  pub the_program_counter-IsWide : Keeps I IsWide the_program_counter
  the_program_counter-IsWide c i = returns (steady.cpu c.cpu i.cpu).program_counter i

  pub the_link-IsWide : Keeps I IsWide (gets λ c. c.cpu.link)
  the_link-IsWide c i = returns (steady.cpu c.cpu i.cpu).link i

  pub fetch-IsByte : Keeps I IsByte fetch
  unfolding fetch
  fetch-IsByte = bind the_program_counter-IsWide λ pc h.
      bind_const (set_program_counter-Keeps (add16 pc 1) (omega arith)) (
        bind (addr_resolve-IsPhysical laws steady pc AccessMode.execute h)
          λ a p. physical_read-IsByte laws a p)

  pub read-IsByte : (addr : ℕ) → IsWide addr → Keeps I IsByte (read addr)
  unfolding read
  read-IsByte addr h =
      bind (addr_resolve-IsPhysical laws steady addr AccessMode.read h)
        λ a p. physical_read-IsByte laws a p

  pub write-Keeps : (addr v : ℕ) → IsWide addr → IsByte v → Keeps I Any (write addr v)
  unfolding write
  write-Keeps addr v h b =
      bind (addr_resolve-IsPhysical laws steady addr AccessMode.write h)
        λ a p. physical_write-Keeps laws a v p b

  pub read_wide-IsWide : (addr : ℕ) → IsWide addr → Keeps I IsWide (read_wide addr)
  unfolding read_wide
  read_wide-IsWide addr h = bind (read-IsByte addr h) λ l hl.
      bind (read-IsByte (add16 addr 1) (omega arith)) λ k hk. Keeps-pure (wide_of-lt l k hl hk)

  pub write_wide-Keeps : (addr v : ℕ) → IsWide addr → Keeps I Any (write_wide addr v)
  unfolding write_wide
  write_wide-Keeps addr v h =
      bind_const (write-Keeps addr _ h (omega arith))
        (write-Keeps (add16 addr 1) _ (omega arith) (omega arith))

  pub pushw-Keeps : (w : ℕ) → Keeps I Any (pushw w)
  unfolding pushw
  pushw-Keeps w = bind the_stack-IsWide λ s h.
      bind_const (set_stack-Keeps (sub16 s 2) (omega arith))
        (bind the_stack-IsWide λ s h. write_wide-Keeps s w h)

  pub pushb-Keeps : (b : ℕ) → IsByte b → Keeps I Any (pushb b)
  unfolding pushb
  pushb-Keeps b hb = bind the_stack-IsWide λ s h.
      bind_const (set_stack-Keeps (sub16 s 1) (omega arith))
        (bind the_stack-IsWide λ s h. write-Keeps s b h hb)

  pub popw-IsWide : Keeps I IsWide popw
  unfolding popw
  popw-IsWide = bind the_stack-IsWide λ s h. bind (read_wide-IsWide s h) λ w hw.
      bind the_stack-IsWide
        λ s h. bind_const (set_stack-Keeps (add16 s 2) (omega arith)) (Keeps-pure hw)

  pub popb-IsByte : Keeps I IsByte popb
  unfolding popb
  popb-IsByte = bind the_stack-IsWide λ s h. bind (read-IsByte s h) λ b hb.
      bind the_stack-IsWide
        λ s h. bind_const (set_stack-Keeps (add16 s 1) (omega arith)) (Keeps-pure hb)

  push_each-Keeps : (rs : List ℕ) → All IsRegister rs → Keeps I Any (push_each rs)
  unfolding push_each
  push_each-Keeps [] h = Keeps-pure tt
  push_each-Keeps (r ∷ rs) h =
      bind (get_wr-IsWide r h.0) λ w _. bind_const (pushw-Keeps w) (push_each-Keeps rs h.1)

  pub push_registers-Keeps : Keeps I Any push_registers
  unfolding push_registers
  push_registers-Keeps = bind the_flags-Keeps λ f _.
      bind_const (pushw-Keeps (flags_to_wide f)) (push_each-Keeps saved_registers (omega arith))

  -- The operands of an instruction are register numbers, bytes and wides.
  pub arg_pair-IsRegister : Keeps I (λ (a, b). IsRegister a × IsRegister b) arg_pair
  unfolding arg_pair
  arg_pair-IsRegister = bind fetch-IsByte λ v h. Keeps-pure (paired-lt v h)

  pub arg_imm_byte-IsByte : Keeps I IsByte arg_imm_byte
  unfolding arg_imm_byte
  arg_imm_byte-IsByte = fetch-IsByte

  pub arg_imm_wide-IsWide : Keeps I IsWide arg_imm_wide
  unfolding arg_imm_wide
  arg_imm_wide-IsWide =
      bind fetch-IsByte λ l hl. bind fetch-IsByte λ h hh. Keeps-pure (wide_of-lt l h hl hh)

module _ {M : Type 0} ⦃mm : MainMemory M⦄ (laws : MemoryLaws mm) {J : Blf4 → Type 0}
    (writable : IsWritable J) where
  -- A handler that keeps the invariant and does not panic.
  abbrev pub Safe : Handler M → Type 0
  Safe = Keeps (Holds laws J) Any

  pub put_br-Keeps : (r v : ℕ) → IsRegister r → IsByte v → Keeps (Holds laws J) Any (put_br r v)
  put_br-Keeps r v h b = Keeps-on_cpu laws (write_br r v) (writable.write_br r v h b)

  pub put_wr-Keeps : (r v : ℕ) → IsRegister r → IsWide v → Keeps (Holds laws J) Any (put_wr r v)
  put_wr-Keeps r v h w = Keeps-on_cpu laws (write_wr r v) (writable.write_wr r v h w)

  pub pop_each-Keeps : (rs : List ℕ) → All IsRegister rs → Keeps (Holds laws J) Any (pop_each rs)
  unfolding pop_each
  pop_each-Keeps [] h = Keeps-pure tt
  pop_each-Keeps (r ∷ rs) h =
      bind (popw-IsWide laws writable.steady)
        λ w hw. bind_const (put_wr-Keeps r w h.0 hw) (pop_each-Keeps rs h.1)

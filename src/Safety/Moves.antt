-- ===== src/Safety/Moves.antt =====
-- src/blf4/isa/handlers.rs: stack, memory and jump instructions, under the steady invariants.
use telda.Prelude.{arith, Bool, not, ◌==◌, add16}
use telda.Mem.{MainMemory, MemoryLaws}
use telda.Blf4.Trap.{invalid}
use telda.Blf4.Action.{bind, bind_const, Keeps-pure, Keeps-raise, Keeps-raise_if, Keeps-if}
use telda.Blf4.Registers.{Blf4, r0}
use telda.Isa.Moves.{
  nop, push_b, push_w, pop_b, pop_w, call, ret, store_bi, store_br, store_wi, store_wr, load_bi,
  load_br, load_wi, load_wr, ldi_b, ldi_w,
}
use telda.Isa.Jumps.{
  jez, jlt, jle, jgt, jge, jnz, jo, jno, ja, jae, jb, jbe, jif, jez_taken, jlt_taken, jle_taken,
  jgt_taken, jge_taken, jnz_taken, jo_taken, jno_taken, ja_taken, jae_taken, jb_taken, jbe_taken,
}
use telda.Safety.Steady.{IsWritable}
use telda.Safety.Access.{
  Safe, get_br-IsByte, get_wr-IsWide, put_br-Keeps, put_wr-Keeps, set_stack-Keeps, set_link-Keeps,
  set_program_counter-Keeps, the_flags-Keeps, the_stack-IsWide, the_program_counter-IsWide,
  the_link-IsWide, read-IsByte, write-Keeps, read_wide-IsWide, write_wide-Keeps, pushw-Keeps,
  pushb-Keeps, popw-IsWide, popb-IsByte, arg_pair-IsRegister, arg_imm_byte-IsByte,
  arg_imm_wide-IsWide,
}

module _ {M : Type 0} ⦃mm : MainMemory M⦄ (laws : MemoryLaws mm) {J : Blf4 → Type 0}
    (writable : IsWritable J) where
  pub nop-Keeps : Safe laws writable nop
  unfolding nop
  nop-Keeps = Keeps-pure tt

  pub push_b-Keeps : Safe laws writable push_b
  unfolding push_b
  push_b-Keeps = bind (arg_pair-IsRegister laws writable.steady) λ (r, z) h.
      bind (get_br-IsByte laws writable.steady r h.0) λ b hb.
        bind_const (Keeps-raise_if (not (z == 0)) invalid) (pushb-Keeps laws writable.steady b hb)

  pub push_w-Keeps : Safe laws writable push_w
  unfolding push_w
  push_w-Keeps = bind (arg_pair-IsRegister laws writable.steady) λ (r, z) h.
      bind (get_wr-IsWide laws writable.steady r h.0) λ w _.
        bind_const (Keeps-raise_if (not (z == 0)) invalid) (pushw-Keeps laws writable.steady w)

  pub pop_b-Keeps : Safe laws writable pop_b
  unfolding pop_b
  pop_b-Keeps = bind (arg_pair-IsRegister laws writable.steady) λ (r, z) h.
      bind_const (Keeps-raise_if (not (z == 0)) invalid)
        (bind (popb-IsByte laws writable.steady) λ b hb. put_br-Keeps laws writable r b h.0 hb)

  pub pop_w-Keeps : Safe laws writable pop_w
  unfolding pop_w
  pop_w-Keeps = bind (arg_pair-IsRegister laws writable.steady) λ (r, z) h.
      bind_const (Keeps-raise_if (not (z == 0)) invalid)
        (bind (popw-IsWide laws writable.steady) λ w hw. put_wr-Keeps laws writable r w h.0 hw)

  pub call-Keeps : Safe laws writable call
  unfolding call
  call-Keeps = bind (arg_imm_wide-IsWide laws writable.steady) λ w hw.
      bind (the_program_counter-IsWide laws writable.steady) λ pc hpc.
        bind_const (set_link-Keeps laws writable.steady pc hpc)
          (set_program_counter-Keeps laws writable.steady w hw)

  pub ret-Keeps : Safe laws writable ret
  unfolding ret
  ret-Keeps = bind (arg_imm_byte-IsByte laws writable.steady) λ b hb.
      bind (the_stack-IsWide laws writable.steady) λ s hs.
        bind_const (set_stack-Keeps laws writable.steady (add16 s b) (omega arith)) (
          bind (the_link-IsWide laws writable.steady)
            λ l hl. set_program_counter-Keeps laws writable.steady l hl)

  pub store_bi-Keeps : Safe laws writable store_bi
  unfolding store_bi
  store_bi-Keeps = bind (arg_pair-IsRegister laws writable.steady) λ (r1, r2) h.
      bind (arg_imm_wide-IsWide laws writable.steady) λ offset hoffset.
        bind (get_wr-IsWide laws writable.steady r1 h.0) λ base hbase.
          bind (get_br-IsByte laws writable.steady r2 h.1)
            λ v hv. write-Keeps laws writable.steady (add16 base offset) v (omega arith) hv

  pub store_wi-Keeps : Safe laws writable store_wi
  unfolding store_wi
  store_wi-Keeps = bind (arg_pair-IsRegister laws writable.steady) λ (r1, r2) h.
      bind (arg_imm_wide-IsWide laws writable.steady) λ offset hoffset.
        bind (get_wr-IsWide laws writable.steady r1 h.0) λ base hbase.
          bind (get_wr-IsWide laws writable.steady r2 h.1)
            λ v _. write_wide-Keeps laws writable.steady (add16 base offset) v (omega arith)

  pub store_br-Keeps : Safe laws writable store_br
  unfolding store_br
  store_br-Keeps = bind (arg_pair-IsRegister laws writable.steady) λ (r1, r2) h.
      bind (arg_pair-IsRegister laws writable.steady) λ (r3, z) k.
        bind_const (Keeps-raise_if (not (z == 0)) invalid) (
          bind (get_wr-IsWide laws writable.steady r2 h.1) λ offset hoffset.
            bind (get_wr-IsWide laws writable.steady r1 h.0) λ base hbase.
              bind (get_br-IsByte laws writable.steady r3 k.0)
                λ v hv. write-Keeps laws writable.steady (add16 base offset) v (omega arith) hv)

  pub store_wr-Keeps : Safe laws writable store_wr
  unfolding store_wr
  store_wr-Keeps = bind (arg_pair-IsRegister laws writable.steady) λ (r1, r2) h.
      bind (arg_pair-IsRegister laws writable.steady) λ (r3, z) k.
        bind_const (Keeps-raise_if (not (z == 0)) invalid) (
          bind (get_wr-IsWide laws writable.steady r2 h.1) λ offset hoffset.
            bind (get_wr-IsWide laws writable.steady r1 h.0) λ base hbase.
              bind (get_wr-IsWide laws writable.steady r3 k.0)
                λ v _. write_wide-Keeps laws writable.steady (add16 base offset) v (omega arith))

  pub load_bi-Keeps : Safe laws writable load_bi
  unfolding load_bi
  load_bi-Keeps = bind (arg_pair-IsRegister laws writable.steady) λ (r1, r2) h.
      bind (arg_imm_wide-IsWide laws writable.steady) λ offset hoffset.
        bind (get_wr-IsWide laws writable.steady r2 h.1) λ base hbase.
          bind (read-IsByte laws writable.steady (add16 base offset) (omega arith))
            λ v hv. put_br-Keeps laws writable r1 v h.0 hv

  pub load_wi-Keeps : Safe laws writable load_wi
  unfolding load_wi
  load_wi-Keeps = bind (arg_pair-IsRegister laws writable.steady) λ (r1, r2) h.
      bind (arg_imm_wide-IsWide laws writable.steady) λ offset hoffset.
        bind (get_wr-IsWide laws writable.steady r2 h.1) λ base hbase.
          bind (read_wide-IsWide laws writable.steady (add16 base offset) (omega arith))
            λ v hv. put_wr-Keeps laws writable r1 v h.0 hv

  pub load_br-Keeps : Safe laws writable load_br
  unfolding load_br
  load_br-Keeps = bind (arg_pair-IsRegister laws writable.steady) λ (r1, r2) h.
      bind (arg_pair-IsRegister laws writable.steady) λ (r3, z) k.
        bind_const (Keeps-raise_if (not (z == 0)) invalid) (
          bind (get_wr-IsWide laws writable.steady r3 k.0) λ offset hoffset.
            bind (get_wr-IsWide laws writable.steady r2 h.1) λ base hbase.
              bind (read-IsByte laws writable.steady (add16 base offset) (omega arith))
                λ v hv. put_br-Keeps laws writable r1 v h.0 hv)

  pub load_wr-Keeps : Safe laws writable load_wr
  unfolding load_wr
  load_wr-Keeps = bind (arg_pair-IsRegister laws writable.steady) λ (r1, r2) h.
      bind (arg_pair-IsRegister laws writable.steady) λ (r3, z) k.
        bind_const (Keeps-raise_if (not (z == 0)) invalid) (
          bind (get_wr-IsWide laws writable.steady r3 k.0) λ offset hoffset.
            bind (get_wr-IsWide laws writable.steady r2 h.1) λ base hbase.
              bind (read_wide-IsWide laws writable.steady (add16 base offset) (omega arith))
                λ v hv. put_wr-Keeps laws writable r1 v h.0 hv)

  pub ldi_b-Keeps : Safe laws writable ldi_b
  unfolding ldi_b
  ldi_b-Keeps = bind (arg_pair-IsRegister laws writable.steady) λ (r, z) h.
      bind_const (Keeps-raise_if (not (z == 0)) invalid) (
        bind (arg_imm_byte-IsByte laws writable.steady)
          λ b hb. put_br-Keeps laws writable r b h.0 hb)

  pub ldi_w-Keeps : Safe laws writable ldi_w
  unfolding ldi_w
  ldi_w-Keeps = bind (arg_pair-IsRegister laws writable.steady) λ (r, o) h.
      bind (arg_imm_wide-IsWide laws writable.steady) λ w hw.
        Keeps-if (o == 0) (put_wr-Keeps laws writable r w h.0 hw) (
          Keeps-if (o == 1)
            (Keeps-if (r == r0) (set_program_counter-Keeps laws writable.steady w hw) (
              bind (get_wr-IsWide laws writable.steady r h.0)
                λ d hd. set_program_counter-Keeps laws writable.steady d hd))
            Keeps-raise)

  jif-Keeps : (taken : Bool) → Safe laws writable (jif taken)
  unfolding jif
  jif-Keeps taken =
      bind (arg_imm_wide-IsWide laws writable.steady)
        λ w hw. Keeps-if taken (set_program_counter-Keeps laws writable.steady w hw) (Keeps-pure tt)

  pub jez-Keeps : Safe laws writable jez
  unfolding jez
  jez-Keeps = bind (the_flags-Keeps laws writable.steady) λ f _. jif-Keeps (jez_taken f)

  pub jlt-Keeps : Safe laws writable jlt
  unfolding jlt
  jlt-Keeps = bind (the_flags-Keeps laws writable.steady) λ f _. jif-Keeps (jlt_taken f)

  pub jle-Keeps : Safe laws writable jle
  unfolding jle
  jle-Keeps = bind (the_flags-Keeps laws writable.steady) λ f _. jif-Keeps (jle_taken f)

  pub jgt-Keeps : Safe laws writable jgt
  unfolding jgt
  jgt-Keeps = bind (the_flags-Keeps laws writable.steady) λ f _. jif-Keeps (jgt_taken f)

  pub jge-Keeps : Safe laws writable jge
  unfolding jge
  jge-Keeps = bind (the_flags-Keeps laws writable.steady) λ f _. jif-Keeps (jge_taken f)

  pub jnz-Keeps : Safe laws writable jnz
  unfolding jnz
  jnz-Keeps = bind (the_flags-Keeps laws writable.steady) λ f _. jif-Keeps (jnz_taken f)

  pub jo-Keeps : Safe laws writable jo
  unfolding jo
  jo-Keeps = bind (the_flags-Keeps laws writable.steady) λ f _. jif-Keeps (jo_taken f)

  pub jno-Keeps : Safe laws writable jno
  unfolding jno
  jno-Keeps = bind (the_flags-Keeps laws writable.steady) λ f _. jif-Keeps (jno_taken f)

  pub ja-Keeps : Safe laws writable ja
  unfolding ja
  ja-Keeps = bind (the_flags-Keeps laws writable.steady) λ f _. jif-Keeps (ja_taken f)

  pub jae-Keeps : Safe laws writable jae
  unfolding jae
  jae-Keeps = bind (the_flags-Keeps laws writable.steady) λ f _. jif-Keeps (jae_taken f)

  pub jb-Keeps : Safe laws writable jb
  unfolding jb
  jb-Keeps = bind (the_flags-Keeps laws writable.steady) λ f _. jif-Keeps (jb_taken f)

  pub jbe-Keeps : Safe laws writable jbe
  unfolding jbe
  jbe-Keeps = bind (the_flags-Keeps laws writable.steady) λ f _. jif-Keeps (jbe_taken f)

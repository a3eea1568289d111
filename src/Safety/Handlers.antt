-- ===== src/Safety/Handlers.antt =====
-- src/blf4/isa/handlers.rs: the table of the handlers that are not reserved to the supervisor or to
-- a trap handler, under the steady invariants.
use telda.Prelude.{All, ◌&◌}
use telda.Mem.{MainMemory, MemoryLaws}
use telda.Blf4.Registers.{Blf4}
use telda.Isa.Table.{user_handlers}
use telda.Safety.Steady.{IsWritable}
use telda.Safety.Access.{Safe}
use telda.Safety.Arith.{
  add_b-Keeps, add_w-Keeps, sub_b-Keeps, sub_w-Keeps, and_b-Keeps, and_w-Keeps, or_b-Keeps,
  or_w-Keeps, xor_b-Keeps, xor_w-Keeps, shl_b-Keeps, shl_w-Keeps, asr_b-Keeps, asr_w-Keeps,
  lsr_b-Keeps, lsr_w-Keeps, div_b-Keeps, div_w-Keeps, mul_b-Keeps, mul_w-Keeps,
}
use telda.Safety.Moves.{
  nop-Keeps, push_b-Keeps, push_w-Keeps, pop_b-Keeps, pop_w-Keeps, call-Keeps, ret-Keeps,
  store_bi-Keeps, store_wi-Keeps, store_br-Keeps, store_wr-Keeps, load_bi-Keeps, load_wi-Keeps,
  load_br-Keeps, load_wr-Keeps, jez-Keeps, jlt-Keeps, jle-Keeps, jgt-Keeps, jge-Keeps, jnz-Keeps,
  jo-Keeps, jno-Keeps, jb-Keeps, jae-Keeps, ja-Keeps, jbe-Keeps, ldi_b-Keeps, ldi_w-Keeps,
}

module _ {M : Type 0} ⦃mm : MainMemory M⦄ (laws : MemoryLaws mm) {J : Blf4 → Type 0}
    (writable : IsWritable J) where
  -- The handlers of the table, in its order.
  pub user_handlers-Keeps : All (λ e. Safe laws writable e.1) user_handlers
  user_handlers-Keeps =
      nop-Keeps laws writable
      & push_b-Keeps laws writable
      & push_w-Keeps laws writable
      & pop_b-Keeps laws writable
      & pop_w-Keeps laws writable
      & call-Keeps laws writable
      & ret-Keeps laws writable
      & store_bi-Keeps laws writable
      & store_wi-Keeps laws writable
      & store_br-Keeps laws writable
      & store_wr-Keeps laws writable
      & load_bi-Keeps laws writable
      & load_wi-Keeps laws writable
      & load_br-Keeps laws writable
      & load_wr-Keeps laws writable
      & jez-Keeps laws writable
      & jlt-Keeps laws writable
      & jle-Keeps laws writable
      & jgt-Keeps laws writable
      & jge-Keeps laws writable
      & jnz-Keeps laws writable
      & jo-Keeps laws writable
      & jno-Keeps laws writable
      & jb-Keeps laws writable
      & jae-Keeps laws writable
      & ja-Keeps laws writable
      & jbe-Keeps laws writable
      & ldi_b-Keeps laws writable
      & ldi_w-Keeps laws writable
      & add_b-Keeps laws writable
      & add_w-Keeps laws writable
      & sub_b-Keeps laws writable
      & sub_w-Keeps laws writable
      & and_b-Keeps laws writable
      & and_w-Keeps laws writable
      & or_b-Keeps laws writable
      & or_w-Keeps laws writable
      & xor_b-Keeps laws writable
      & xor_w-Keeps laws writable
      & shl_b-Keeps laws writable
      & shl_w-Keeps laws writable
      & asr_b-Keeps laws writable
      & asr_w-Keeps laws writable
      & lsr_b-Keeps laws writable
      & lsr_w-Keeps laws writable
      & div_b-Keeps laws writable
      & div_w-Keeps laws writable
      & mul_b-Keeps laws writable
      & mul_w-Keeps laws writable
      & tt

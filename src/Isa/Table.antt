-- ===== src/Isa/Table.antt =====
-- src/blf4/isa/handlers.rs: `OP_HANDLERS`, the handler of each opcode.
use telda.Prelude.{ℕ, List, [], ◌∷◌, ◌==◌, if◌then◌else◌}
use telda.Mem.{MainMemory}
use telda.Isa.Opcode
use telda.Isa.System.{Handler, n, halt, ctf, syscall, reth, usr, vmon, vmoff, pstore, pload}
use telda.Isa.Arith.{
  add_b, add_w, sub_b, sub_w, and_b, and_w, or_b, or_w, xor_b, xor_w, shl_b, shl_w, asr_b, asr_w,
  lsr_b, lsr_w, div_b, div_w, mul_b, mul_w,
}
use telda.Isa.Moves.{
  nop, push_b, push_w, pop_b, pop_w, call, ret, store_bi, store_wi, store_br, store_wr, load_bi,
  load_wi, load_br, load_wr, ldi_b, ldi_w,
}
use telda.Isa.Jumps.{jez, jlt, jle, jgt, jge, jnz, jo, jno, jb, jae, ja, jbe}

-- The entry of an opcode in a table, or the default entry.
module _ {A : Type 0} where
  unfoldable pub entry_at : List (ℕ × A) → A → ℕ → A
  entry_at [] default opcode = default
  entry_at ((o, h) ∷ rest) default opcode = if o == opcode then h else entry_at rest default opcode

module _ {M : Type 0} ⦃mm : MainMemory M⦄ where
  -- The entries that only the supervisor or a trap handler may run, or that trap.
  abbrev pub system_handlers : List (ℕ × Handler M)
  system_handlers =
      (Opcode.null, n)
      ∷ (Opcode.halt, halt)
      ∷ (Opcode.ctf, ctf)
      ∷ (Opcode.syscall, syscall)
      ∷ (Opcode.reth, reth)
      ∷ (Opcode.usr, usr)
      ∷ (Opcode.vmon, vmon)
      ∷ (Opcode.vmoff, vmoff)
      ∷ (Opcode.pstore, pstore)
      ∷ (Opcode.pload, pload)
      ∷ []

  -- All others.
  abbrev pub user_handlers : List (ℕ × Handler M)
  user_handlers =
      (Opcode.nop, nop)
      ∷ (Opcode.push_b, push_b)
      ∷ (Opcode.push_w, push_w)
      ∷ (Opcode.pop_b, pop_b)
      ∷ (Opcode.pop_w, pop_w)
      ∷ (Opcode.call, call)
      ∷ (Opcode.ret, ret)
      ∷ (Opcode.store_bi, store_bi)
      ∷ (Opcode.store_wi, store_wi)
      ∷ (Opcode.store_br, store_br)
      ∷ (Opcode.store_wr, store_wr)
      ∷ (Opcode.load_bi, load_bi)
      ∷ (Opcode.load_wi, load_wi)
      ∷ (Opcode.load_br, load_br)
      ∷ (Opcode.load_wr, load_wr)
      ∷ (Opcode.jez, jez)
      ∷ (Opcode.jlt, jlt)
      ∷ (Opcode.jle, jle)
      ∷ (Opcode.jgt, jgt)
      ∷ (Opcode.jge, jge)
      ∷ (Opcode.jnz, jnz)
      ∷ (Opcode.jo, jo)
      ∷ (Opcode.jno, jno)
      ∷ (Opcode.jb, jb)
      ∷ (Opcode.jae, jae)
      ∷ (Opcode.ja, ja)
      ∷ (Opcode.jbe, jbe)
      ∷ (Opcode.ldi_b, ldi_b)
      ∷ (Opcode.ldi_w, ldi_w)
      ∷ (Opcode.add_b, add_b)
      ∷ (Opcode.add_w, add_w)
      ∷ (Opcode.sub_b, sub_b)
      ∷ (Opcode.sub_w, sub_w)
      ∷ (Opcode.and_b, and_b)
      ∷ (Opcode.and_w, and_w)
      ∷ (Opcode.or_b, or_b)
      ∷ (Opcode.or_w, or_w)
      ∷ (Opcode.xor_b, xor_b)
      ∷ (Opcode.xor_w, xor_w)
      ∷ (Opcode.shl_b, shl_b)
      ∷ (Opcode.shl_w, shl_w)
      ∷ (Opcode.asr_b, asr_b)
      ∷ (Opcode.asr_w, asr_w)
      ∷ (Opcode.lsr_b, lsr_b)
      ∷ (Opcode.lsr_w, lsr_w)
      ∷ (Opcode.div_b, div_b)
      ∷ (Opcode.div_w, div_w)
      ∷ (Opcode.mul_b, mul_b)
      ∷ (Opcode.mul_w, mul_w)
      ∷ []

  -- Opcodes without an entry have the handler `n`.
  unfoldable pub op_handler : ℕ → Handler M
  op_handler opcode = entry_at system_handlers (entry_at user_handlers n opcode) opcode

-- ===== src/Source/Ins/Fetches/Moves.antt =====
-- src/blf4/isa/handlers.rs: the operands that the handlers of the stack, calls, loads and
-- stores, and immediate values fetch.
use telda.Prelude.{refl, ◌==◌, if◌then◌else◌, add16}
use telda.Mem.{MainMemory}
use telda.Blf4.Trap.{invalid}
use telda.Blf4.Action.{gets, raise, ◌>>=◌, ◌>>◌}
use telda.Blf4.Context.{set_link, the_stack, set_stack, the_program_counter, set_program_counter}
use telda.Blf4.Access.{read, write, read_wide, write_wide, pushb, pushw, popb, popw}
use telda.Isa.Opcode
use telda.Isa.Moves.{
  push_b, push_w, pop_b, pop_w, call, ret, store_bi, store_wi, store_br, store_wr, load_bi, load_wi,
  load_br, load_wr, ldi_b, ldi_w, jump_to,
}
use telda.Isa.Table.{entry_at, op_handler}
use telda.Source.Ins.Fetches.{
  Operand, Operands, operand, fetch_number, check, with_operands, Fetches,
}
use telda.Source.Operand.Format.{
  byte_field, wide_field, option_number, unused, byte_number, wide_number, one, pair, pair_with,
  two_pairs, three_wides,
}

module _ (M : Type 0) ⦃mm : MainMemory M⦄ where
  pub push_b-Fetches : Fetches M (Opcode.push_b, pair byte_field unused)
  unfolding op_handler entry_at Operands Operand operand fetch_number check with_operands push_b
  push_b-Fetches = (λ _ (r, check_zero). do b ← r.get; check_zero; pushb b, λ c. refl)

  pub push_w-Fetches : Fetches M (Opcode.push_w, pair wide_field unused)
  unfolding op_handler entry_at Operands Operand operand fetch_number check with_operands push_w
  push_w-Fetches = (λ _ (r, check_zero). do w ← r.get; check_zero; pushw w, λ c. refl)

  pub pop_b-Fetches : Fetches M (Opcode.pop_b, pair byte_field unused)
  unfolding op_handler entry_at Operands Operand operand fetch_number check with_operands pop_b
  pop_b-Fetches = (λ _ (r, check_zero). do check_zero; b ← popb; r.put b, λ c. refl)

  pub pop_w-Fetches : Fetches M (Opcode.pop_w, pair wide_field unused)
  unfolding op_handler entry_at Operands Operand operand fetch_number check with_operands pop_w
  pop_w-Fetches = (λ _ (r, check_zero). do check_zero; w ← popw; r.put w, λ c. refl)

  pub call-Fetches : Fetches M (Opcode.call, one wide_number)
  unfolding op_handler entry_at Operands Operand operand fetch_number check with_operands call
  call-Fetches = (λ _ w. do pc ← the_program_counter; set_link pc; set_program_counter w, λ c. refl)

  pub ret-Fetches : Fetches M (Opcode.ret, one byte_number)
  unfolding op_handler entry_at Operands Operand operand fetch_number check with_operands ret
  ret-Fetches = (
    λ _ b. do
      stack ← the_stack
      set_stack (add16 stack b)
      link ← gets (λ c. c.cpu.link)
      set_program_counter link,
    λ c. refl,
  )

  pub store_bi-Fetches : Fetches M (Opcode.store_bi, pair_with wide_field byte_field wide_number)
  unfolding op_handler entry_at Operands Operand operand fetch_number check with_operands store_bi
  store_bi-Fetches =
      (λ _ (r, s, offset). do base ← r.get; b ← s.get; write (add16 base offset) b, λ c. refl)

  pub store_wi-Fetches : Fetches M (Opcode.store_wi, pair_with wide_field wide_field wide_number)
  unfolding op_handler entry_at Operands Operand operand fetch_number check with_operands store_wi
  store_wi-Fetches =
      (λ _ (r, s, offset). do base ← r.get; w ← s.get; write_wide (add16 base offset) w, λ c. refl)

  pub store_br-Fetches :
      Fetches M (Opcode.store_br, two_pairs wide_field wide_field byte_field unused)
  unfolding op_handler entry_at Operands Operand operand fetch_number check with_operands store_br
  store_br-Fetches = (
    λ _ (r, q, s, check_zero). do
      check_zero
      offset ← q.get
      base ← r.get
      b ← s.get
      write (add16 base offset) b,
    λ c. refl,
  )

  pub store_wr-Fetches : Fetches M (Opcode.store_wr, three_wides)
  unfolding op_handler entry_at Operands Operand operand fetch_number check with_operands store_wr
  store_wr-Fetches = (
    λ _ (r, q, s, check_zero). do
      check_zero
      offset ← q.get
      base ← r.get
      w ← s.get
      write_wide (add16 base offset) w,
    λ c. refl,
  )

  pub load_bi-Fetches : Fetches M (Opcode.load_bi, pair_with byte_field wide_field wide_number)
  unfolding op_handler entry_at Operands Operand operand fetch_number check with_operands load_bi
  load_bi-Fetches =
      (λ _ (r, s, offset). do base ← s.get; b ← read (add16 base offset); r.put b, λ c. refl)

  pub load_wi-Fetches : Fetches M (Opcode.load_wi, pair_with wide_field wide_field wide_number)
  unfolding op_handler entry_at Operands Operand operand fetch_number check with_operands load_wi
  load_wi-Fetches =
      (λ _ (r, s, offset). do base ← s.get; w ← read_wide (add16 base offset); r.put w, λ c. refl)

  pub load_br-Fetches :
      Fetches M (Opcode.load_br, two_pairs byte_field wide_field wide_field unused)
  unfolding op_handler entry_at Operands Operand operand fetch_number check with_operands load_br
  load_br-Fetches = (
    λ _ (r, s, q, check_zero). do
      check_zero
      offset ← q.get
      base ← s.get
      b ← read (add16 base offset)
      r.put b,
    λ c. refl,
  )

  pub load_wr-Fetches : Fetches M (Opcode.load_wr, three_wides)
  unfolding op_handler entry_at Operands Operand operand fetch_number check with_operands load_wr
  load_wr-Fetches = (
    λ _ (r, s, q, check_zero). do
      check_zero
      offset ← q.get
      base ← s.get
      w ← read_wide (add16 base offset)
      r.put w,
    λ c. refl,
  )

  pub ldi_b-Fetches : Fetches M (Opcode.ldi_b, pair_with byte_field unused byte_number)
  unfolding op_handler entry_at Operands Operand operand fetch_number check with_operands ldi_b
  ldi_b-Fetches = (λ _ (r, _, b). r.put b, λ c. refl)

  pub ldi_w-Fetches : Fetches M (Opcode.ldi_w, pair_with wide_field option_number wide_number)
  unfolding op_handler entry_at Operands Operand operand fetch_number check with_operands ldi_w
      jump_to
  ldi_w-Fetches = (
    λ _ (r, o, w).
        if o == 0
        then r.put w
        else if o == 1
        then (if r.is_r0
            then set_program_counter w
            else (do dest ← r.get; set_program_counter dest))
        else raise invalid,
    λ c. refl,
  )

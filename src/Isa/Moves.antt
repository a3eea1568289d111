-- ===== src/Isa/Moves.antt =====
-- src/blf4/isa/handlers.rs: the stack, calls, loads and stores, and immediate values.
use telda.Prelude.{ℕ, not, ◌==◌, if◌then◌else◌, add16}
use telda.Mem.{MainMemory}
use telda.Blf4.Trap.{invalid}
use telda.Blf4.Action.{pure, gets, raise, raise_if, ◌>>=◌, ◌>>◌}
use telda.Blf4.Registers.{r0}
use telda.Blf4.Context.{
  get_br, put_br, get_wr, put_wr, the_stack, set_stack, the_program_counter, set_program_counter,
  set_link,
}
use telda.Blf4.Access.{read, write, read_wide, write_wide, pushb, pushw, popb, popw}
use telda.Isa.Args.{arg_pair, arg_imm_byte, arg_imm_wide}
use telda.Isa.System.{Handler}

module _ {M : Type 0} ⦃mm : MainMemory M⦄ where
  unfoldable pub nop : Handler M
  nop = pure tt

  unfoldable pub push_b : Handler M
  push_b = do (b, z) ← arg_pair; b ← get_br b; raise_if (not (z == 0)) invalid; pushb b

  unfoldable pub push_w : Handler M
  push_w = do (w, z) ← arg_pair; w ← get_wr w; raise_if (not (z == 0)) invalid; pushw w

  unfoldable pub pop_b : Handler M
  pop_b = do (r1, z) ← arg_pair; raise_if (not (z == 0)) invalid; b ← popb; put_br r1 b

  unfoldable pub pop_w : Handler M
  pop_w = do (r1, z) ← arg_pair; raise_if (not (z == 0)) invalid; w ← popw; put_wr r1 w

  unfoldable pub call : Handler M
  call = do w ← arg_imm_wide; pc ← the_program_counter; set_link pc; set_program_counter w

  unfoldable pub ret : Handler M
  ret = do
    b ← arg_imm_byte
    stack ← the_stack
    set_stack (add16 stack b)
    link ← gets (λ c. c.cpu.link)
    set_program_counter link

  unfoldable pub store_bi : Handler M
  store_bi = do
    (r1, r2) ← arg_pair
    offset ← arg_imm_wide
    base ← get_wr r1
    b ← get_br r2
    write (add16 base offset) b

  unfoldable pub store_br : Handler M
  store_br = do
    (r1, r2) ← arg_pair
    (r3, z) ← arg_pair
    raise_if (not (z == 0)) invalid
    offset ← get_wr r2
    base ← get_wr r1
    b ← get_br r3
    write (add16 base offset) b

  unfoldable pub store_wi : Handler M
  store_wi = do
    (r1, r2) ← arg_pair
    offset ← arg_imm_wide
    base ← get_wr r1
    w ← get_wr r2
    write_wide (add16 base offset) w

  unfoldable pub store_wr : Handler M
  store_wr = do
    (r1, r2) ← arg_pair
    (r3, z) ← arg_pair
    raise_if (not (z == 0)) invalid
    offset ← get_wr r2
    base ← get_wr r1
    w ← get_wr r3
    write_wide (add16 base offset) w

  unfoldable pub load_bi : Handler M
  load_bi = do
    (r1, r2) ← arg_pair
    offset ← arg_imm_wide
    base ← get_wr r2
    val ← read (add16 base offset)
    put_br r1 val

  unfoldable pub load_br : Handler M
  load_br = do
    (r1, r2) ← arg_pair
    (r3, z) ← arg_pair
    raise_if (not (z == 0)) invalid
    offset ← get_wr r3
    base ← get_wr r2
    val ← read (add16 base offset)
    put_br r1 val

  unfoldable pub load_wi : Handler M
  load_wi = do
    (r1, r2) ← arg_pair
    offset ← arg_imm_wide
    base ← get_wr r2
    val ← read_wide (add16 base offset)
    put_wr r1 val

  unfoldable pub load_wr : Handler M
  load_wr = do
    (r1, r2) ← arg_pair
    (r3, z) ← arg_pair
    raise_if (not (z == 0)) invalid
    offset ← get_wr r3
    base ← get_wr r2
    val ← read_wide (add16 base offset)
    put_wr r1 val

  unfoldable pub ldi_b : Handler M
  ldi_b = do (r1, z) ← arg_pair; raise_if (not (z == 0)) invalid; b ← arg_imm_byte; put_br r1 b

  -- The second operand chooses between a load and a jump.
  unfoldable pub jump_to : ℕ → ℕ → Handler M
  jump_to r1 w =
      if r1 == r0 then set_program_counter w else do dest ← get_wr r1; set_program_counter dest

  unfoldable pub ldi_w : Handler M
  unfolding jump_to
  ldi_w = do
    (r1, o) ← arg_pair
    w ← arg_imm_wide
    if o == 0 then put_wr r1 w else if o == 1 then jump_to r1 w else raise invalid

-- ===== src/Source/Ins/Fetches.antt =====
-- src/blf4/isa/handlers.rs with src/source/mod.rs: the operands that the handlers fetch, and the
-- operand formats of the assembler.
pub mod Handlers
pub mod Moves
use telda.Prelude.{ℕ, ◌≡◌, Bool, not, ◌==◌, if◌then◌else◌, ◌&◌}
use telda.Mem.{MainMemory}
use telda.Blf4.Trap.{invalid}
use telda.Blf4.Action.{Action, pure, raise_if, ◌>>=◌, ◌>>◌}
use telda.Blf4.Flags.{Blf4Flags}
use telda.Blf4.Registers.{r0}
use telda.Blf4.Context.{HandlerContext, get_br, put_br, get_wr, put_wr}
use telda.Isa.Opcode
use telda.Isa.Args.{arg_pair, arg_imm_byte, arg_imm_wide}
use telda.Isa.System.{Handler}
use telda.Isa.Table.{op_handler}
use telda.Source.Operand.Format.{
  Field, byte_field, wide_field, option_number, unused, byte_number, wide_number, Form, bare, one,
  pair, pair_with, two_pairs,
}

-- A register that an instruction names: whether it is R0, its value, and the setting of it.
pub record Register (M : Type 0) : Type 0 where
  pub is_r0 : Bool
  pub get : Action (HandlerContext M) ℕ
  pub put : ℕ → Handler M

-- What a field gives to an instruction: a register, the check that it is zero, or a number.
unfoldable pub Operand : Type 0 → Field → Type 0
Operand M byte_field = Register M
Operand M wide_field = Register M
Operand M unused = Handler M
Operand M option_number = ℕ
Operand M byte_number = ℕ
Operand M wide_number = ℕ

unfoldable pub Operands : Type 0 → Form → Type 0
Operands M bare = Unit
Operands M (one f) = Operand M f
Operands M (pair f g) = Operand M f × Operand M g
Operands M (pair_with f g number) = Operand M f × Operand M g × Operand M number
Operands M (two_pairs f g h k) = Operand M f × Operand M g × Operand M h × Operand M k

module _ (M : Type 0) ⦃mm : MainMemory M⦄ where
  unfoldable pub operand : (f : Field) → ℕ → Operand M f
  unfolding Operand
  operand byte_field r = record { is_r0 = r == r0; get = get_br r; put = put_br r }
  operand wide_field r = record { is_r0 = r == r0; get = get_wr r; put = put_wr r }
  operand unused z = raise_if (not (z == 0)) invalid
  operand option_number o = o
  operand byte_number b = b
  operand wide_number w = w

  unfoldable pub fetch_number : Field → Action (HandlerContext M) ℕ
  fetch_number byte_number = arg_imm_byte
  fetch_number _ = arg_imm_wide

  -- A half byte that is not used is checked before a number is fetched.
  unfoldable pub check : Field → ℕ → Handler M
  check unused z = raise_if (not (z == 0)) invalid
  check _ _ = pure tt

  -- The operands of a form are fetched, half bytes first, and given to an instruction.
  unfoldable pub with_operands : (shape : Form) → (Operands M shape → Handler M) → Handler M
  unfolding Operands operand fetch_number check
  with_operands bare act = act tt
  with_operands (one f) act = do n ← fetch_number f; act (operand f n)
  with_operands (pair f g) act = do (a, b) ← arg_pair; act (operand f a, operand g b)
  with_operands (pair_with f g number) act = do
    (a, b) ← arg_pair
    check g b
    n ← fetch_number number
    act (operand f a, operand g b, operand number n)
  with_operands (two_pairs f g h k) act = do
    (a, b) ← arg_pair
    (c, d) ← arg_pair
    act (operand f a, operand g b, operand h c, operand k d)

  -- An instruction is what it does with operands of a form, under the flags that it starts with.
  abbrev pub Fetches : ℕ × Form → Type 0
  Fetches (opcode, shape) =
      (act : Blf4Flags → Operands M shape → Handler M) × ((c : HandlerContext M)
        → op_handler opcode c ≡ with_operands shape (act c.cpu.flags) c)

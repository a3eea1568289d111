-- ===== src/Source/Ins.antt =====
-- src/source/mod.rs: `parse_ins`, the opcode and the operands of an instruction's line.
pub mod Fetches
pub mod Format
use telda.Prelude.{ℕ, List, [], ◌∷◌, Option, some, none, ◌==◌, if◌then◌else◌}
use telda.Isa.Opcode
use telda.Blf4.Registers.{r0, r1}
use telda.Source.{
  Text, chars, same_text, SourceOperand, SourceLocation, Wide, DataOperand, immediate_byte,
  immediate_wide, wide_register, wide_imm, two_wide_imm,
}
use telda.Source.Symbols.{Symbols}
use telda.Source.Operand.{
  Reader, ◌>>=◌, pure, parse_nothing, parse_breg, parse_wreg, parse_imm_byte, parse_imm_wide,
  parse_byte_imm, parse_wide_imm,
}
use telda.Source.Operand.Forms.{
  parse_three_byte, parse_three_wide, parse_wide_imm_byte, parse_wide_imm_wide,
  parse_two_wide_one_byte, parse_byte_wide_imm, parse_two_wide_imm, parse_byte_two_wide,
  parse_four_byte, parse_four_wide,
}

-- `Ok(Some(..))`, `Ok(None)` and `Err(..)`; `panics` is `unreachable!()`.
pub data ParsedIns : Type 0 where
  parsed : ℕ → DataOperand → ParsedIns
  unknown : ParsedIns
  incorrect : Text → ParsedIns
  panics : ParsedIns

abbrev pub Arm : Type 0
Arm = List SourceOperand → Symbols → ParsedIns × Symbols

-- `return Err(..)`
unfoldable pub expected : Text → Arm
expected message ops sym = (incorrect message, sym)

-- What an arm does with the operands that it read, or else.
unfoldable pub arm_with :
    (DataOperand → ParsedIns)
    → Arm
    → List SourceOperand
    → Option (DataOperand × List SourceOperand) × Symbols
    → ParsedIns × Symbols
arm_with made otherwise ops (some (dat_op, left), sym) = (made dat_op, sym)
arm_with made otherwise ops (none, sym) = otherwise ops sym

-- `if let Some(dat_op) = reader(ops.clone()) { made(dat_op) } else { .. }`
unfoldable pub attempt_as : (DataOperand → ParsedIns) → Reader DataOperand → Arm → Arm
unfolding arm_with
attempt_as made reader otherwise ops sym = arm_with made otherwise ops (reader ops sym)

-- `if let Some(dat_op) = reader(ops.clone()) { (opcode, dat_op) } else { .. }`
unfoldable pub attempt : ℕ → Reader DataOperand → Arm → Arm
unfolding attempt_as
attempt opcode reader otherwise = attempt_as (parsed opcode) reader otherwise

abbrev no_operands : Text
no_operands = chars "no operands"

abbrev one_register : Text
one_register = chars "one register"

abbrev an_address : Text
an_address = chars "a wide (addr like a label or just a number)"

abbrev four_registers : Text
four_registers = chars "four registers"

unfoldable pub parse_binop : ℕ → ℕ → Arm
parse_binop bop wop =
    attempt bop parse_three_byte
      (attempt wop parse_three_wide (expected (chars "three regs of same size")))

unfoldable pub arm_ret : Arm
arm_ret =
    attempt Opcode.ret (do _ ← parse_nothing; pure (immediate_byte 0))
      (attempt Opcode.ret parse_imm_byte (expected (chars "either nothing or a byte")))

abbrev store_operands : Text
store_operands =
    chars "a wide and another wide or immediate for destination and a source register (any size)"

unfoldable pub arm_store : SourceLocation → Arm
arm_store sl = attempt Opcode.store_bi (parse_wide_imm_byte sl) (
    attempt Opcode.store_wi (parse_wide_imm_wide sl) (
      attempt Opcode.store_br parse_two_wide_one_byte
        (attempt Opcode.store_wr parse_three_wide (expected store_operands))))

abbrev load_operands : Text
load_operands =
    chars "a destination register (any size) and then a wide and a wide or immediate for source"

unfoldable pub arm_load : SourceLocation → Arm
arm_load sl = attempt Opcode.load_bi (parse_byte_wide_imm sl) (
    attempt Opcode.load_wi (parse_two_wide_imm sl) (
      attempt Opcode.load_br parse_byte_two_wide
        (attempt Opcode.load_wr parse_three_wide (expected load_operands))))

unfoldable pub load_wide : DataOperand → ParsedIns
load_wide (wide_imm r w) = parsed Opcode.ldi_w (two_wide_imm r r0 w)
load_wide _ = panics

unfoldable pub arm_ldi : SourceLocation → Arm
arm_ldi sl =
    attempt Opcode.ldi_b parse_byte_imm
      (attempt_as load_wide (parse_wide_imm sl) (expected (chars "one register and one immediate")))

unfoldable pub jump_to : DataOperand → ParsedIns
jump_to (immediate_wide w) = parsed Opcode.ldi_w (two_wide_imm r0 r1 w)
jump_to _ = panics

unfoldable pub jump_register : DataOperand → ParsedIns
jump_register (wide_register wr) =
    if wr == r0
    then incorrect (chars "any other register; r0 is not a valid jmp destination")
    else parsed Opcode.ldi_w (two_wide_imm wr r1 (Wide.number 0))
jump_register _ = panics

unfoldable pub arm_jmp : SourceLocation → Arm
arm_jmp sl =
    attempt_as jump_to (parse_imm_wide sl)
      (attempt_as jump_register parse_wreg (expected (chars "address or wide register")))

-- The arms of the match, in its order.
abbrev pub arms : SourceLocation → List (Text × Arm)
arms sl =
    (chars "null", attempt Opcode.null parse_nothing (expected no_operands))
    ∷ (chars "halt", attempt Opcode.halt parse_nothing (expected no_operands))
    ∷ (chars "ctf", attempt Opcode.ctf parse_nothing (expected no_operands))
    ∷ (chars "syscall", attempt Opcode.syscall parse_nothing (expected no_operands))
    ∷ (chars "reth", attempt Opcode.reth parse_nothing (expected no_operands))
    ∷ (chars "nop", attempt Opcode.nop parse_nothing (expected no_operands))
    ∷ (
      chars "push",
      attempt Opcode.push_b parse_breg (attempt Opcode.push_w parse_wreg (expected one_register)),
    )
    ∷ (
      chars "pop",
      attempt Opcode.pop_b parse_breg (attempt Opcode.pop_w parse_wreg (expected one_register)),
    )
    ∷ (chars "call", attempt Opcode.call (parse_imm_wide sl) (expected an_address))
    ∷ (chars "ret", arm_ret)
    ∷ (chars "store", arm_store sl)
    ∷ (chars "str", arm_store sl)
    ∷ (chars "load", arm_load sl)
    ∷ (chars "jez", attempt Opcode.jez (parse_imm_wide sl) (expected an_address))
    ∷ (chars "jlt", attempt Opcode.jlt (parse_imm_wide sl) (expected an_address))
    ∷ (chars "jle", attempt Opcode.jle (parse_imm_wide sl) (expected an_address))
    ∷ (chars "jgt", attempt Opcode.jgt (parse_imm_wide sl) (expected an_address))
    ∷ (chars "jge", attempt Opcode.jge (parse_imm_wide sl) (expected an_address))
    ∷ (chars "jnz", attempt Opcode.jnz (parse_imm_wide sl) (expected an_address))
    ∷ (chars "jne", attempt Opcode.jnz (parse_imm_wide sl) (expected an_address))
    ∷ (chars "jo", attempt Opcode.jo (parse_imm_wide sl) (expected an_address))
    ∷ (chars "jno", attempt Opcode.jno (parse_imm_wide sl) (expected an_address))
    ∷ (chars "jb", attempt Opcode.jb (parse_imm_wide sl) (expected an_address))
    ∷ (chars "jc", attempt Opcode.jb (parse_imm_wide sl) (expected an_address))
    ∷ (chars "jae", attempt Opcode.jae (parse_imm_wide sl) (expected an_address))
    ∷ (chars "jnc", attempt Opcode.jae (parse_imm_wide sl) (expected an_address))
    ∷ (chars "ja", attempt Opcode.ja (parse_imm_wide sl) (expected an_address))
    ∷ (chars "jbe", attempt Opcode.jbe (parse_imm_wide sl) (expected an_address))
    ∷ (chars "ldi", arm_ldi sl)
    ∷ (chars "jmp", arm_jmp sl)
    ∷ (chars "jump", arm_jmp sl)
    ∷ (chars "add", parse_binop Opcode.add_b Opcode.add_w)
    ∷ (chars "sub", parse_binop Opcode.sub_b Opcode.sub_w)
    ∷ (chars "and", parse_binop Opcode.and_b Opcode.and_w)
    ∷ (chars "or", parse_binop Opcode.or_b Opcode.or_w)
    ∷ (chars "xor", parse_binop Opcode.xor_b Opcode.xor_w)
    ∷ (chars "shl", parse_binop Opcode.shl_b Opcode.shl_w)
    ∷ (chars "asr", parse_binop Opcode.asr_b Opcode.asr_w)
    ∷ (chars "lsr", parse_binop Opcode.lsr_b Opcode.lsr_w)
    ∷ (
      chars "mul",
      attempt Opcode.mul_b parse_four_byte
          (attempt Opcode.mul_w parse_four_wide (expected four_registers)),
    )
    ∷ (
      chars "div",
      attempt Opcode.div_b parse_four_byte
          (attempt Opcode.div_w parse_four_wide (expected four_registers)),
    )
    ∷ []

unfoldable pub select : Text → List (Text × Arm) → Arm
select s [] ops sym = (unknown, sym)
select s ((name, arm) ∷ rest) ops sym =
    if same_text name s then arm ops sym else select s rest ops sym

unfoldable pub parse_ins :
    Text → List SourceOperand → SourceLocation → Symbols → ParsedIns × Symbols
parse_ins s ops sl sym = select s (arms sl) ops sym

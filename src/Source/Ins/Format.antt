-- ===== src/Source/Ins/Format.antt =====
-- src/source/mod.rs: what it is for an instruction to have the format of its opcode, for each way in
-- which an arm of `parse_ins` reads operands.
pub mod Arms
use telda.Prelude.{
  ℕ, ◌≡◌, refl, sym, ◌∙◌, List, [], ◌∷◌, Option, none, some, Bool, true, false, arith, ◌==◌,
  if◌then◌else◌, All, inl, inr, Bool-cases,
}
use telda.Isa.Opcode
use telda.Isa.Table.{entry_at}
use telda.Source.{
  Text, same_text, SourceOperand, SourceLocation, Wide, DataOperand, nothing, byte_register,
  wide_register, immediate_byte, immediate_wide, byte_imm, wide_imm, wide_imm_byte, wide_imm_wide,
  two_wide_one_byte, byte_wide_imm, two_wide_imm, byte_two_wide, three_byte, three_wide, four_byte,
  four_wide,
}
use telda.Blf4.Registers.{r0}
use telda.Source.Symbols.{Symbols, size}
use telda.Source.Symbols.Growth.{IsSymbols, Grown}
use telda.Source.Operand.{Reader, ◌>>=◌, pure, parse_nothing}
use telda.Source.Operand.Format.{
  Form, form, form_for, operand_form, Fits, bare, one, pair, pair_with, two_pairs, byte_field,
  wide_field, unused, byte_number, wide_number, three_bytes, three_wides, four_bytes, four_wides,
}
use telda.Source.Operand.Reading.{
  Holds, Holds-after, Formed, Forms, Grown-refl, parse_nothing-Forms, after_nothing,
}
use telda.Source.Operand.Readers
use telda.Source.Ins.{
  ParsedIns, parsed, unknown, incorrect, panics, Arm, arm_with, attempt_as, attempt, expected,
  parse_binop, arm_ret, arm_store, arm_load, load_wide, arm_ldi, jump_to, jump_register, arm_jmp,
  arms, select, parse_ins,
}

-- An opcode with operands of a shape.
abbrev pub Takes : ℕ → Form → Type 0
Takes opcode shape = ((opcode == Opcode.ldi_w) ≡ false) × (shape ≡ operand_form opcode)

-- An instruction has the operands that its opcode takes, with labels in range.
abbrev pub Formatted : ℕ → ParsedIns → Type 0
Formatted n (parsed opcode d) = Fits n d × (form_for opcode d ≡ operand_form opcode)
Formatted n unknown = Unit
Formatted n (incorrect message) = Unit
Formatted n panics = ⊥

abbrev pub Parses : Symbols → ParsedIns × Symbols → Type 0
Parses s (r, t) = Grown s t × Formatted (size t) r

abbrev pub IsArm : Arm → Type 0
IsArm arm = (ops : List SourceOperand) (s : Symbols) → IsSymbols s → Parses s (arm ops s)

pub expected-IsArm : (message : Text) → IsArm (expected message)
unfolding expected
expected-IsArm message ops s kept = (Grown-refl s kept, tt)

Parses-after : (s t : Symbols) (r : ParsedIns × Symbols) → Grown s t → Parses t r → Parses s r
Parses-after s t (r, u) h k = ((k.0.0, omega (arith, h.1, k.0.1)), k.1)

arm_with-Parses :
    (shape : Form) (made : DataOperand → ParsedIns)
    → ((n : ℕ) (d : DataOperand) → Formed shape n d → Formatted n (made d))
    → (otherwise : Arm) → IsArm otherwise
    → (ops : List SourceOperand) (s : Symbols)
      (r : Option (DataOperand × List SourceOperand) × Symbols)
    → Holds (Formed shape) s r
    → Parses s (arm_with made otherwise ops r)
unfolding arm_with
arm_with-Parses shape made fine otherwise rest ops s (none, t) h =
    Parses-after s t (otherwise ops t) h (rest ops t h.0)
arm_with-Parses shape made fine otherwise rest ops s (some (d, left), t) h =
    (h.0, fine (size t) d h.1)

pub attempt_as-IsArm :
    (shape : Form) (made : DataOperand → ParsedIns)
    → ((n : ℕ) (d : DataOperand) → Formed shape n d → Formatted n (made d))
    → (reader : Reader DataOperand) → Forms shape reader
    → (otherwise : Arm) → IsArm otherwise
    → IsArm (attempt_as made reader otherwise)
unfolding attempt_as
attempt_as-IsArm shape made fine reader forms otherwise rest ops s kept =
    arm_with-Parses shape made fine otherwise rest ops s (reader ops s) (forms ops s kept)

pub attempt-IsArm :
    (opcode : ℕ) (shape : Form)
    → Takes opcode shape
    → (reader : Reader DataOperand) → Forms shape reader
    → (otherwise : Arm) → IsArm otherwise
    → IsArm (attempt opcode reader otherwise)
unfolding attempt
attempt-IsArm opcode shape e reader forms otherwise rest =
    attempt_as-IsArm shape (parsed opcode) (λ n d h. (h.0, rw e.0 (h.1 ∙ e.1))) reader forms
      otherwise rest

pub load_wide-Formatted :
    (n : ℕ) (d : DataOperand)
    → Formed (pair_with wide_field unused wide_number) n d
    → Formatted n (load_wide d)
unfolding load_wide form operand_form
load_wide-Formatted n nothing h = absurd (ground (arith, h.1))
load_wide-Formatted n (byte_register a) h = absurd (ground (arith, h.1))
load_wide-Formatted n (wide_register a) h = absurd (ground (arith, h.1))
load_wide-Formatted n (immediate_byte a) h = absurd (ground (arith, h.1))
load_wide-Formatted n (immediate_wide a) h = absurd (ground (arith, h.1))
load_wide-Formatted n (byte_imm a b) h = absurd (ground (arith, h.1))
load_wide-Formatted n (wide_imm a b) h = (h.0, refl)
load_wide-Formatted n (wide_imm_byte a b c) h = absurd (ground (arith, h.1))
load_wide-Formatted n (wide_imm_wide a b c) h = absurd (ground (arith, h.1))
load_wide-Formatted n (two_wide_one_byte a b c) h = absurd (ground (arith, h.1))
load_wide-Formatted n (byte_wide_imm a b c) h = absurd (ground (arith, h.1))
load_wide-Formatted n (two_wide_imm a b c) h = absurd (ground (arith, h.1))
load_wide-Formatted n (byte_two_wide a b c) h = absurd (ground (arith, h.1))
load_wide-Formatted n (three_byte a b c) h = absurd (ground (arith, h.1))
load_wide-Formatted n (three_wide a b c) h = absurd (ground (arith, h.1))
load_wide-Formatted n (four_byte a b c d) h = absurd (ground (arith, h.1))
load_wide-Formatted n (four_wide a b c d) h = absurd (ground (arith, h.1))

pub jump_to-Formatted :
    (n : ℕ) (d : DataOperand) → Formed (one wide_number) n d → Formatted n (jump_to d)
unfolding jump_to form operand_form
jump_to-Formatted n nothing h = absurd (ground (arith, h.1))
jump_to-Formatted n (byte_register a) h = absurd (ground (arith, h.1))
jump_to-Formatted n (wide_register a) h = absurd (ground (arith, h.1))
jump_to-Formatted n (immediate_byte a) h = absurd (ground (arith, h.1))
jump_to-Formatted n (immediate_wide a) h = (h.0, refl)
jump_to-Formatted n (byte_imm a b) h = absurd (ground (arith, h.1))
jump_to-Formatted n (wide_imm a b) h = absurd (ground (arith, h.1))
jump_to-Formatted n (wide_imm_byte a b c) h = absurd (ground (arith, h.1))
jump_to-Formatted n (wide_imm_wide a b c) h = absurd (ground (arith, h.1))
jump_to-Formatted n (two_wide_one_byte a b c) h = absurd (ground (arith, h.1))
jump_to-Formatted n (byte_wide_imm a b c) h = absurd (ground (arith, h.1))
jump_to-Formatted n (two_wide_imm a b c) h = absurd (ground (arith, h.1))
jump_to-Formatted n (byte_two_wide a b c) h = absurd (ground (arith, h.1))
jump_to-Formatted n (three_byte a b c) h = absurd (ground (arith, h.1))
jump_to-Formatted n (three_wide a b c) h = absurd (ground (arith, h.1))
jump_to-Formatted n (four_byte a b c d) h = absurd (ground (arith, h.1))
jump_to-Formatted n (four_wide a b c d) h = absurd (ground (arith, h.1))

pub jump_register-Formatted :
    (n : ℕ) (d : DataOperand) → Formed (pair wide_field unused) n d → Formatted n (jump_register d)
unfolding jump_register form operand_form
jump_register-Formatted n nothing h = absurd (ground (arith, h.1))
jump_register-Formatted n (byte_register a) h = absurd (ground (arith, h.1))
jump_register-Formatted n (wide_register a) h = elim (Bool-cases (a == r0)) [
  | inl e ↦ rw e tt
  | inr e ↦ rw e (tt, refl)
]
jump_register-Formatted n (immediate_byte a) h = absurd (ground (arith, h.1))
jump_register-Formatted n (immediate_wide a) h = absurd (ground (arith, h.1))
jump_register-Formatted n (byte_imm a b) h = absurd (ground (arith, h.1))
jump_register-Formatted n (wide_imm a b) h = absurd (ground (arith, h.1))
jump_register-Formatted n (wide_imm_byte a b c) h = absurd (ground (arith, h.1))
jump_register-Formatted n (wide_imm_wide a b c) h = absurd (ground (arith, h.1))
jump_register-Formatted n (two_wide_one_byte a b c) h = absurd (ground (arith, h.1))
jump_register-Formatted n (byte_wide_imm a b c) h = absurd (ground (arith, h.1))
jump_register-Formatted n (two_wide_imm a b c) h = absurd (ground (arith, h.1))
jump_register-Formatted n (byte_two_wide a b c) h = absurd (ground (arith, h.1))
jump_register-Formatted n (three_byte a b c) h = absurd (ground (arith, h.1))
jump_register-Formatted n (three_wide a b c) h = absurd (ground (arith, h.1))
jump_register-Formatted n (four_byte a b c d) h = absurd (ground (arith, h.1))
jump_register-Formatted n (four_wide a b c d) h = absurd (ground (arith, h.1))

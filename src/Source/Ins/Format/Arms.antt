-- ===== src/Source/Ins/Format/Arms.antt =====
-- src/source/mod.rs: the format of the instructions that the arms of `parse_ins` yield.
use telda.Prelude.{ℕ, refl, List, [], ◌∷◌, Bool-cases, inl, inr, All, ◌&◌}
use telda.Isa.Opcode
use telda.Source.{Text, same_text, SourceOperand, SourceLocation, immediate_byte}
use telda.Source.Symbols.{Symbols}
use telda.Source.Symbols.Growth.{IsSymbols}
use telda.Source.Operand.{◌>>=◌, pure, parse_nothing, parse_imm_wide}
use telda.Source.Operand.Format.{
  form, operand_form, bare, one, pair, pair_with, two_pairs, byte_field, wide_field, unused,
  byte_number, wide_number, three_bytes, three_wides, four_bytes, four_wides,
}
use telda.Source.Operand.Reading.{Forms, Grown-refl, parse_nothing-Forms}
use telda.Source.Operand.Readers.{
  parse_breg-Forms, parse_wreg-Forms, parse_imm_byte-Forms, parse_imm_wide-Forms,
  parse_byte_imm-Forms, parse_wide_imm-Forms, parse_three_byte-Forms, parse_three_wide-Forms,
  parse_wide_imm_byte-Forms, parse_wide_imm_wide-Forms, parse_two_wide_one_byte-Forms,
  parse_byte_wide_imm-Forms, parse_two_wide_imm-Forms, parse_byte_two_wide-Forms,
  parse_four_byte-Forms, parse_four_wide-Forms,
}
use telda.Source.Ins.{
  Arm, attempt, expected, parse_binop, arm_ret, arm_store, arm_load, load_wide, arm_ldi, jump_to,
  jump_register, arm_jmp, arms, select, parse_ins,
}
use telda.Source.Ins.Format.{
  Parses, IsArm, Takes, expected-IsArm, attempt-IsArm, attempt_as-IsArm, load_wide-Formatted,
  jump_to-Formatted, jump_register-Formatted,
}

parse_binop-IsArm :
    (bop wop : ℕ) → Takes bop three_bytes → Takes wop three_wides → IsArm (parse_binop bop wop)
unfolding parse_binop
parse_binop-IsArm bop wop b w =
    attempt-IsArm bop three_bytes b _ parse_three_byte-Forms _
      (attempt-IsArm wop three_wides w _ parse_three_wide-Forms _ (expected-IsArm _))

no_byte-Forms : Forms (one byte_number) (do _ ← parse_nothing; pure (immediate_byte 0))
unfolding parse_nothing form
no_byte-Forms [] s kept = (Grown-refl s kept, (tt, refl))
no_byte-Forms (op ∷ ops) s kept = Grown-refl s kept

arm_ret-IsArm : IsArm arm_ret
unfolding arm_ret operand_form
arm_ret-IsArm =
    attempt-IsArm Opcode.ret (one byte_number) (refl, refl) _ (no_byte-Forms) _
      (attempt-IsArm Opcode.ret (one byte_number) (refl, refl) _ (parse_imm_byte-Forms) _
        (expected-IsArm _))

arm_store-IsArm : (sl : SourceLocation) → IsArm (arm_store sl)
unfolding arm_store operand_form
arm_store-IsArm sl =
    attempt-IsArm Opcode.store_bi (pair_with wide_field byte_field wide_number) (refl, refl) _
      (parse_wide_imm_byte-Forms sl) _
      (attempt-IsArm Opcode.store_wi (pair_with wide_field wide_field wide_number) (refl, refl) _
        (parse_wide_imm_wide-Forms sl) _
        (attempt-IsArm Opcode.store_br (two_pairs wide_field wide_field byte_field unused)
          (refl, refl) _ (parse_two_wide_one_byte-Forms) _
          (attempt-IsArm Opcode.store_wr (three_wides) (refl, refl) _ (parse_three_wide-Forms) _
            (expected-IsArm _))))

arm_load-IsArm : (sl : SourceLocation) → IsArm (arm_load sl)
unfolding arm_load operand_form
arm_load-IsArm sl =
    attempt-IsArm Opcode.load_bi (pair_with byte_field wide_field wide_number) (refl, refl) _
      (parse_byte_wide_imm-Forms sl) _
      (attempt-IsArm Opcode.load_wi (pair_with wide_field wide_field wide_number) (refl, refl) _
        (parse_two_wide_imm-Forms sl) _
        (attempt-IsArm Opcode.load_br (two_pairs byte_field wide_field wide_field unused)
          (refl, refl) _ (parse_byte_two_wide-Forms) _
          (attempt-IsArm Opcode.load_wr (three_wides) (refl, refl) _ (parse_three_wide-Forms) _
            (expected-IsArm _))))

arm_ldi-IsArm : (sl : SourceLocation) → IsArm (arm_ldi sl)
unfolding arm_ldi operand_form
arm_ldi-IsArm sl =
    attempt-IsArm Opcode.ldi_b (pair_with byte_field unused byte_number) (refl, refl) _
      (parse_byte_imm-Forms) _
      (attempt_as-IsArm (pair_with wide_field unused wide_number) load_wide load_wide-Formatted _
        (parse_wide_imm-Forms sl) _ (expected-IsArm _))

arm_jmp-IsArm : (sl : SourceLocation) → IsArm (arm_jmp sl)
unfolding arm_jmp
arm_jmp-IsArm sl =
    attempt_as-IsArm (one wide_number) jump_to jump_to-Formatted _ (parse_imm_wide-Forms sl) _ (
      attempt_as-IsArm (pair wide_field unused) jump_register jump_register-Formatted _
        parse_wreg-Forms _ (expected-IsArm _))

bare-IsArm :
    (opcode : ℕ) (message : Text)
    → Takes opcode bare
    → IsArm (attempt opcode parse_nothing (expected message))
bare-IsArm opcode message e =
    attempt-IsArm opcode bare e _ parse_nothing-Forms _ (expected-IsArm message)

address-IsArm :
    (opcode : ℕ) (sl : SourceLocation) (message : Text)
    → Takes opcode (one wide_number)
    → IsArm (attempt opcode (parse_imm_wide sl) (expected message))
address-IsArm opcode sl message e =
    attempt-IsArm opcode (one wide_number) e _ (parse_imm_wide-Forms sl) _ (expected-IsArm message)

arms-IsArm : (sl : SourceLocation) → All (λ (entry : Text × Arm). IsArm entry.1) (arms sl)
unfolding operand_form
arms-IsArm sl =
    (bare-IsArm Opcode.null _ (refl, refl))
    & (bare-IsArm Opcode.halt _ (refl, refl))
    & (bare-IsArm Opcode.ctf _ (refl, refl))
    & (bare-IsArm Opcode.syscall _ (refl, refl))
    & (bare-IsArm Opcode.reth _ (refl, refl))
    & (bare-IsArm Opcode.nop _ (refl, refl))
    & (attempt-IsArm Opcode.push_b (pair byte_field unused) (refl, refl) _ (parse_breg-Forms) _
        (attempt-IsArm Opcode.push_w (pair wide_field unused) (refl, refl) _ (parse_wreg-Forms) _
          (expected-IsArm _)))
    & (attempt-IsArm Opcode.pop_b (pair byte_field unused) (refl, refl) _ (parse_breg-Forms) _
        (attempt-IsArm Opcode.pop_w (pair wide_field unused) (refl, refl) _ (parse_wreg-Forms) _
          (expected-IsArm _)))
    & (address-IsArm Opcode.call sl _ (refl, refl))
    & (arm_ret-IsArm)
    & (arm_store-IsArm sl)
    & (arm_store-IsArm sl)
    & (arm_load-IsArm sl)
    & (address-IsArm Opcode.jez sl _ (refl, refl))
    & (address-IsArm Opcode.jlt sl _ (refl, refl))
    & (address-IsArm Opcode.jle sl _ (refl, refl))
    & (address-IsArm Opcode.jgt sl _ (refl, refl))
    & (address-IsArm Opcode.jge sl _ (refl, refl))
    & (address-IsArm Opcode.jnz sl _ (refl, refl))
    & (address-IsArm Opcode.jnz sl _ (refl, refl))
    & (address-IsArm Opcode.jo sl _ (refl, refl))
    & (address-IsArm Opcode.jno sl _ (refl, refl))
    & (address-IsArm Opcode.jb sl _ (refl, refl))
    & (address-IsArm Opcode.jb sl _ (refl, refl))
    & (address-IsArm Opcode.jae sl _ (refl, refl))
    & (address-IsArm Opcode.jae sl _ (refl, refl))
    & (address-IsArm Opcode.ja sl _ (refl, refl))
    & (address-IsArm Opcode.jbe sl _ (refl, refl))
    & (arm_ldi-IsArm sl)
    & (arm_jmp-IsArm sl)
    & (arm_jmp-IsArm sl)
    & (parse_binop-IsArm Opcode.add_b Opcode.add_w (refl, refl) (refl, refl))
    & (parse_binop-IsArm Opcode.sub_b Opcode.sub_w (refl, refl) (refl, refl))
    & (parse_binop-IsArm Opcode.and_b Opcode.and_w (refl, refl) (refl, refl))
    & (parse_binop-IsArm Opcode.or_b Opcode.or_w (refl, refl) (refl, refl))
    & (parse_binop-IsArm Opcode.xor_b Opcode.xor_w (refl, refl) (refl, refl))
    & (parse_binop-IsArm Opcode.shl_b Opcode.shl_w (refl, refl) (refl, refl))
    & (parse_binop-IsArm Opcode.asr_b Opcode.asr_w (refl, refl) (refl, refl))
    & (parse_binop-IsArm Opcode.lsr_b Opcode.lsr_w (refl, refl) (refl, refl))
    & (attempt-IsArm Opcode.mul_b (four_bytes) (refl, refl) _ (parse_four_byte-Forms) _
        (attempt-IsArm Opcode.mul_w (four_wides) (refl, refl) _ (parse_four_wide-Forms) _
          (expected-IsArm _)))
    & (attempt-IsArm Opcode.div_b (four_bytes) (refl, refl) _ (parse_four_byte-Forms) _
        (attempt-IsArm Opcode.div_w (four_wides) (refl, refl) _ (parse_four_wide-Forms) _
          (expected-IsArm _)))
    & tt

select-IsArm :
    (name : Text) (entries : List (Text × Arm))
    → All (λ (entry : Text × Arm). IsArm entry.1) entries
    → IsArm (select name entries)
unfolding select
select-IsArm name [] h ops s kept = (Grown-refl s kept, tt)
select-IsArm name ((n, arm) ∷ rest) h ops s kept = elim (Bool-cases (same_text n name)) [
  | inl e ↦ rw e (h.0 ops s kept)
  | inr e ↦ rw e (select-IsArm name rest h.1 ops s kept)
]

-- In symbols with as many positions as labels, of which each is used or defined, an instruction
-- that parse_ins accepts has an opcode and operands whose kinds, in their order, are those that
-- the README's table has for this opcode, with R0 or R1 for the option of ldi_w, and names labels
-- that the symbols have; a panic on an unreachable arm does not happen. The symbols only grow,
-- and keep a use for each label without an address.
pub parse_ins-Parses :
    (name : Text) (ops : List SourceOperand) (sl : SourceLocation) (s : Symbols)
    → IsSymbols s
    → Parses s (parse_ins name ops sl s)
unfolding parse_ins
parse_ins-Parses name ops sl s kept = select-IsArm name (arms sl) (arms-IsArm sl) ops s kept

-- ===== src/Tests/SourceExamples.antt =====
-- The theorems on source files and the assembler applied at a concrete source.
use telda.Prelude.{
  ℕ, ◌+◌, ◌^◌, ◌≤◌, List, [], ◌∷◌, Option, none, some, ◌≡◌, ◌≢◌, ◌↔◌, refl, arith, length, ◌++◌,
}
use telda.Obj.{Object, text, data_segment}
use telda.Source.{
  Text, chars, Wide, ok, panics, SourceOperand, wide_reg, label, byte_reg, Error, already_set,
  other, wide_imm_byte, SourceLocation, Address, LabelRead,
}
use telda.Source.Symbols.{no_symbols, get_label, set_label}
use telda.Source.Symbols.Growth.{IsSymbols}
use telda.Source.Operand.{size}
use telda.Source.Operand.Format.{form}
use telda.Source.Ins.{parse_ins}
use telda.Source.Ins.Format.{Parses}
use telda.Source.Ins.Format.Arms.{parse_ins-Parses}
use telda.Source.Encode.{write_data_operand}
use telda.Source.Encode.Decode.{decode, values, write_data_operand-decode}
use telda.Source.Line.{parse_string}
use telda.Source.Line.Quote.{quote, quote_byte, parse_string-quote}
use telda.Source.Segments.{Segments, layout, new_state}
use telda.Source.Segments.Layout.{LaidOut, needed, layout-LaidOut}
use telda.Mem.Lazy.{lazy_main}
use telda.Source.Ins.Fetches.{Fetches}
use telda.Tests.Setup.{quiet_io}
use telda.Source.Process.Files.{include_file, inner_process_with}
use telda.Source.Resolve.{process}
use telda.Assembler.{assemble}
use telda.Assembler.Total.{IsAssembled, process-assemble, process-inner_process}
use telda.Tests.SourcePrograms.{
  loop_program, loop_source, loop_state, loop_symbols, no_file, same_name, file_name,
}

abbrev here : SourceLocation
here = record { source = file_name; line_number = 3 }

loop_processed : process no_file same_name 1 file_name loop_program ≡ ok loop_source
unfolding telda.Source.Text.strip_prefix telda.Source.Text.strip_suffix
    telda.Source.Text.starts_with telda.Source.Text.find telda.Source.Text.split
    telda.Source.Text.is_whitespace telda.Source.Text.trim_start telda.Source.Text.trim
    telda.Source.Text.char_bytes telda.Source.Text.as_bytes telda.Source.Text.to_digit
    telda.Source.Text.digits_from telda.Source.Text.digits telda.Source.Text.unsigned_from_str_radix
    telda.Source.Text.signed_from_str_radix telda.Source.Line.escaped telda.Source.Line.hex_value
    telda.Source.Line.hex_escape telda.Source.Line.parse_escape telda.Source.Line.parse_bytechar
    telda.Source.Line.word_from_str_radix telda.Source.Line.radix_of telda.Source.Line.quoted
    telda.Source.Line.parse_number telda.Source.Line.parse_string
    telda.Source.Line.Parse.byte_directive telda.Source.Line.Parse.wide_directive
    telda.Source.Line.Parse.string_directive telda.Source.Line.Parse.named
    telda.Source.Line.Parse.directive_name telda.Source.Line.Parse.parse_directive
    telda.Source.Line.Parse.parse_operand telda.Source.Line.Parse.parse_operands
    telda.Source.Line.Parse.is_comment telda.Source.Line.Parse.parse_instruction
    telda.Source.Line.Parse.inner_parse_line telda.Source.Symbols.SymbolType_set_global
    telda.Source.Symbols.SymbolType_set_reference telda.Source.Symbols.position
    telda.Source.Symbols.modify_at telda.Source.Symbols.located telda.Source.Symbols.find_id
    telda.Source.Symbols.position_at telda.Source.Symbols.set_result telda.Source.Symbols.set_label
    telda.Source.Symbols.get_label telda.Source.Symbols.resized telda.Source.Symbols.set_global
    telda.Source.Symbols.set_reference telda.Source.Symbols.size telda.Source.Symbols.zipped
    telda.Source.Symbols.into_iter telda.Source.Operand.size telda.Source.Operand.as_byte
    telda.Source.Operand.as_wide telda.Source.Operand.imm_byte telda.Source.Operand.imm_wide
    telda.Source.Operand.parse_nothing telda.Source.Operand.parse_breg
    telda.Source.Operand.parse_wreg telda.Source.Operand.parse_imm_byte
    telda.Source.Operand.parse_imm_wide telda.Source.Operand.parse_byte_imm
    telda.Source.Operand.parse_wide_imm telda.Source.Operand.Forms.parse_three_byte
    telda.Source.Operand.Forms.parse_three_wide telda.Source.Operand.Forms.parse_wide_imm_byte
    telda.Source.Operand.Forms.parse_wide_imm_wide
    telda.Source.Operand.Forms.parse_two_wide_one_byte
    telda.Source.Operand.Forms.parse_byte_wide_imm telda.Source.Operand.Forms.parse_two_wide_imm
    telda.Source.Operand.Forms.parse_byte_two_wide telda.Source.Operand.Forms.parse_four_byte
    telda.Source.Operand.Forms.parse_four_wide telda.Source.Ins.expected telda.Source.Ins.arm_with
    telda.Source.Ins.attempt_as telda.Source.Ins.attempt telda.Source.Ins.parse_binop
    telda.Source.Ins.arm_ret telda.Source.Ins.arm_store telda.Source.Ins.arm_load
    telda.Source.Ins.load_wide telda.Source.Ins.arm_ldi telda.Source.Ins.jump_to
    telda.Source.Ins.jump_register telda.Source.Ins.arm_jmp telda.Source.Ins.select
    telda.Source.Ins.parse_ins telda.Source.Segments.get telda.Source.Segments.update
    telda.Source.Segments.get_size telda.Source.Segments.add_line
    telda.Source.Segments.unknown_defined telda.Source.Segments.layout
    telda.Source.Segments.start_of telda.Source.Process.check_segment
    telda.Source.Process.start_segment telda.Source.Process.process_seg
    telda.Source.Process.set_entry telda.Source.Process.process_entry telda.Source.Process.label_set
    telda.Source.Process.process_label telda.Source.Process.add_ins telda.Source.Process.process_ins
    telda.Source.Process.process_wide telda.Source.Process.after_include
    telda.Source.Process.process_include telda.Source.Process.inner_process_line
    telda.Source.Process.Files.process_parsed telda.Source.Process.Files.process_line
    telda.Source.Process.Files.process_lines telda.Source.Process.Files.inner_process_with
    telda.Source.Process.Files.process_file telda.Source.Process.Files.included
    telda.Source.Process.Files.include_file telda.Source.Resolve.use_errors
    telda.Source.Resolve.resolve_symbol telda.Source.Resolve.resolved telda.Source.Resolve.resolve
    telda.Source.Resolve.conclude telda.Source.Resolve.finish telda.Source.Resolve.process
    telda.Align.align_end telda.Obj.Sections.segment_type_code telda.Prelude.Int.of_signed
loop_processed = refl

process-assemble_example :
    (o : Object) × (assemble loop_source ≡ some o) × IsAssembled loop_source o
process-assemble_example =
    process-assemble no_file same_name 1 file_name loop_program loop_source loop_processed

no_symbols-IsSymbols : IsSymbols no_symbols
unfolding IsSymbols
no_symbols-IsSymbols = (refl, tt)

abbrev store_operands : List SourceOperand
store_operands = wide_reg 3 ∷ label (chars "table") ∷ byte_reg 2 ∷ []

parse_ins-Parses_example :
    Parses no_symbols (parse_ins (chars "store") store_operands here no_symbols)
parse_ins-Parses_example =
    parse_ins-Parses (chars "store") store_operands here no_symbols no_symbols-IsSymbols

abbrev message : List ℕ
message = 72 ∷ 105 ∷ 34 ∷ 92 ∷ 10 ∷ 0 ∷ 200 ∷ []

message_short : length (quote message) ≤ 32
unfolding quote quote_byte
message_short = omega arith

parse_string-quote_example : parse_string 32 (quote message) ≡ ok message
parse_string-quote_example = parse_string-quote message 32 (omega arith) message_short

abbrev two_segments : Segments
two_segments =
    (data_segment, record { lines = []; size = 130; start = 0 })
    ∷ (text, record { lines = []; size = 40; start = 0 })
    ∷ []

two_segments_fit : 128 + needed two_segments + 128 ≤ 2 ^ 16
unfolding needed
two_segments_fit = omega arith

layout-LaidOut_example : LaidOut 128 two_segments (layout 128 two_segments)
layout-LaidOut_example = layout-LaidOut two_segments 128 two_segments_fit

-- A closure that notes each read.
abbrev noting : ℕ → LabelRead → List LabelRead → ℕ × List LabelRead
noting id lr reads = (0x140, reads ++ lr ∷ [])

write_data_operand-decode_example :
    (bytes : List ℕ) × ((write_data_operand noting text
        (0x27 ∷ [])
        (wide_imm_byte 3 (Wide.label 0) 2)
        []).0
      ≡ (0x27 ∷ []) ++ bytes)
    × (length bytes ≡ size (wide_imm_byte 3 (Wide.label 0) 2))
    × (decode (form (wide_imm_byte 3 (Wide.label 0) 2)) bytes
        ≡ values (λ _. 0x140) (wide_imm_byte 3 (Wide.label 0) 2))
write_data_operand-decode_example =
    write_data_operand-decode noting text (λ _. 0x140) 1 (wide_imm_byte 3 (Wide.label 0) 2)
      (0x27 ∷ []) [] (omega arith) (omega arith, omega arith, tt) (λ id lr below. refl)
      (λ id below. omega arith)

loop_found :
    inner_process_with
      (include_file no_file same_name 1)
      file_name
      loop_program
      new_state
      no_symbols
    ≡ some ([], loop_state, loop_symbols)
unfolding telda.Source.Text.strip_prefix telda.Source.Text.strip_suffix
    telda.Source.Text.starts_with telda.Source.Text.find telda.Source.Text.split
    telda.Source.Text.is_whitespace telda.Source.Text.trim_start telda.Source.Text.trim
    telda.Source.Text.char_bytes telda.Source.Text.as_bytes telda.Source.Text.to_digit
    telda.Source.Text.digits_from telda.Source.Text.digits telda.Source.Text.unsigned_from_str_radix
    telda.Source.Text.signed_from_str_radix telda.Source.Line.escaped telda.Source.Line.hex_value
    telda.Source.Line.hex_escape telda.Source.Line.parse_escape telda.Source.Line.parse_bytechar
    telda.Source.Line.word_from_str_radix telda.Source.Line.radix_of telda.Source.Line.quoted
    telda.Source.Line.parse_number telda.Source.Line.parse_string
    telda.Source.Line.Parse.byte_directive telda.Source.Line.Parse.wide_directive
    telda.Source.Line.Parse.string_directive telda.Source.Line.Parse.named
    telda.Source.Line.Parse.directive_name telda.Source.Line.Parse.parse_directive
    telda.Source.Line.Parse.parse_operand telda.Source.Line.Parse.parse_operands
    telda.Source.Line.Parse.is_comment telda.Source.Line.Parse.parse_instruction
    telda.Source.Line.Parse.inner_parse_line telda.Source.Symbols.SymbolType_set_global
    telda.Source.Symbols.SymbolType_set_reference telda.Source.Symbols.position
    telda.Source.Symbols.modify_at telda.Source.Symbols.located telda.Source.Symbols.find_id
    telda.Source.Symbols.position_at telda.Source.Symbols.set_result telda.Source.Symbols.set_label
    telda.Source.Symbols.get_label telda.Source.Symbols.resized telda.Source.Symbols.set_global
    telda.Source.Symbols.set_reference telda.Source.Symbols.size telda.Source.Symbols.zipped
    telda.Source.Symbols.into_iter telda.Source.Operand.size telda.Source.Operand.as_byte
    telda.Source.Operand.as_wide telda.Source.Operand.imm_byte telda.Source.Operand.imm_wide
    telda.Source.Operand.parse_nothing telda.Source.Operand.parse_breg
    telda.Source.Operand.parse_wreg telda.Source.Operand.parse_imm_byte
    telda.Source.Operand.parse_imm_wide telda.Source.Operand.parse_byte_imm
    telda.Source.Operand.parse_wide_imm telda.Source.Operand.Forms.parse_three_byte
    telda.Source.Operand.Forms.parse_three_wide telda.Source.Operand.Forms.parse_wide_imm_byte
    telda.Source.Operand.Forms.parse_wide_imm_wide
    telda.Source.Operand.Forms.parse_two_wide_one_byte
    telda.Source.Operand.Forms.parse_byte_wide_imm telda.Source.Operand.Forms.parse_two_wide_imm
    telda.Source.Operand.Forms.parse_byte_two_wide telda.Source.Operand.Forms.parse_four_byte
    telda.Source.Operand.Forms.parse_four_wide telda.Source.Ins.expected telda.Source.Ins.arm_with
    telda.Source.Ins.attempt_as telda.Source.Ins.attempt telda.Source.Ins.parse_binop
    telda.Source.Ins.arm_ret telda.Source.Ins.arm_store telda.Source.Ins.arm_load
    telda.Source.Ins.load_wide telda.Source.Ins.arm_ldi telda.Source.Ins.jump_to
    telda.Source.Ins.jump_register telda.Source.Ins.arm_jmp telda.Source.Ins.select
    telda.Source.Ins.parse_ins telda.Source.Segments.get telda.Source.Segments.update
    telda.Source.Segments.get_size telda.Source.Segments.add_line
    telda.Source.Segments.unknown_defined telda.Source.Segments.layout
    telda.Source.Segments.start_of telda.Source.Process.check_segment
    telda.Source.Process.start_segment telda.Source.Process.process_seg
    telda.Source.Process.set_entry telda.Source.Process.process_entry telda.Source.Process.label_set
    telda.Source.Process.process_label telda.Source.Process.add_ins telda.Source.Process.process_ins
    telda.Source.Process.process_wide telda.Source.Process.after_include
    telda.Source.Process.process_include telda.Source.Process.inner_process_line
    telda.Source.Process.Files.process_parsed telda.Source.Process.Files.process_line
    telda.Source.Process.Files.process_lines telda.Source.Process.Files.inner_process_with
    telda.Source.Process.Files.process_file telda.Source.Process.Files.included
    telda.Source.Process.Files.include_file telda.Source.Resolve.use_errors
    telda.Source.Resolve.resolve_symbol telda.Source.Resolve.resolved telda.Source.Resolve.resolve
    telda.Source.Resolve.conclude telda.Source.Resolve.finish telda.Source.Resolve.process
    telda.Align.align_end telda.Obj.Sections.segment_type_code telda.Prelude.Int.of_signed
loop_found = refl

process-inner_process_example : process no_file same_name 1 file_name loop_program ≢ panics
process-inner_process_example =
    process-inner_process no_file same_name 1 file_name loop_program ([], loop_state, loop_symbols)
      loop_found

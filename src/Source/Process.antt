-- ===== src/Source/Process.antt =====
-- src/source/mod.rs: the lines of a source file and of the files that it includes, one by one. The
-- files and the names of their siblings are parameters: `open` has the lines of the file with a
-- name, each a text or an error at reading it, or nothing when it cannot be opened.
pub mod Files
pub mod Sound
pub mod Loop
use telda.Prelude.{
  ℕ, zero, suc, ◌+◌, List, [], ◌∷◌, ◌++◌, Option, none, some, if◌then◌else◌, length, u16,
}
use telda.Obj.{SegmentType, unknown, data_segment, ro_data, text, heap}
use telda.Source.{
  Text, chars, Wide, SourceOperand, SourceLocation, Address, Error, ErrorType, unknown_segment,
  unknown_instruction, incorrect_operands, double_entry, io_error, no_segment, other, ok, err,
  panics,
}
use telda.Source.Symbols.{Symbols, set_label, get_label, set_global, set_reference}
use telda.Source.Operand.{size}
use telda.Source.Ins.{ParsedIns, parsed, unknown, incorrect, parse_ins}
use telda.Source.Partial.{◌>>=◌}
use telda.Source.Line.{
  SourceLine, WideLiteral, label, ins, comment, dir_include, dir_string, dir_byte, dir_wide,
  dir_global, dir_reference, dir_seg, dir_entry, literal, label_name,
}
use telda.Source.Line.Parse.{named, inner_parse_line}
use telda.Source.Segments.{ProcessState, DataLine, raw, wide, get_size, add_line, unknown_defined}

pub record Working : Type 0 where
  pub current_segment : SegmentType
  pub state : ProcessState
  pub symbols : Symbols

-- The errors, none of them when all went well, and what the work changed. `none` is a panic, or
-- inclusions without end.
abbrev pub Processing : Type 0
Processing = Option (List Error × Working)

abbrev pub segment_names : List (Text × SegmentType)
segment_names =
    (chars "data", data_segment)
    ∷ (chars "rodata", ro_data)
    ∷ (chars "text", text)
    ∷ (chars "heap", heap)
    ∷ []

-- The end of `inner_process_line`: a line before the first segment is an error.
unfoldable pub check_segment : Text → ℕ → Working → Processing
check_segment src ln w =
    if unknown_defined w.state
    then some (record { source = src; ln = ln; error = other no_segment } ∷ [], w)
    else some ([], w)

abbrev pub fails : Text → ℕ → ErrorType → Working → Processing
fails src ln e w = some (record { source = src; ln = ln; error = e } ∷ [], w)

abbrev pub with_line : DataLine → ℕ → Working → Working
with_line line size w = record w { state = add_line w.current_segment line size w.state }

-- `Address(*current_segment, state.get_size(*current_segment))`
abbrev pub here : Working → Address
here w = record { segment = w.current_segment; offset = get_size w.current_segment w.state }

unfoldable pub start_segment : Text → ℕ → Text → Option SegmentType → Working → Processing
start_segment src ln seg (some st) w = check_segment src ln (record w { current_segment = st })
start_segment src ln seg none w = fails src ln (unknown_segment seg) w

unfoldable pub process_seg : Text → ℕ → Text → Working → Processing
process_seg src ln seg w = start_segment src ln seg (named seg segment_names) w

unfoldable pub set_entry : Text → ℕ → Option Address → Working → Processing
set_entry src ln (some _) w = fails src ln double_entry w
set_entry src ln none w =
    check_segment src ln (record w { state = record w.state { entry = some (here w) } })

unfoldable pub process_entry : Text → ℕ → Working → Processing
process_entry src ln w = set_entry src ln w.state.entry w

abbrev pub at : Text → ℕ → SourceLocation
at src ln = record { source = src; line_number = ln }

-- `?` on the result of `set_label`.
unfoldable pub label_set : Text → ℕ → Option Error → Working → Processing
label_set src ln (some e) w = some (e ∷ [], w)
label_set src ln none w = check_segment src ln w

unfoldable pub process_label : Text → ℕ → Text → Working → Processing
process_label src ln s w =
    let (result, symbols) = set_label s (here w) (at src ln) w.symbols in
    label_set src ln result (record w { symbols = symbols })

-- `IncorrectOperands`, `UnknownInstruction`, or the line of the instruction.
unfoldable pub add_ins : Text → ℕ → Text → ParsedIns → Working → Processing
add_ins src ln s (parsed opcode dat_op) w =
    check_segment src ln (with_line (DataLine.ins opcode dat_op) (1 + size dat_op) w)
add_ins src ln s unknown w = fails src ln (unknown_instruction s) w
add_ins src ln s (incorrect message) w = fails src ln (incorrect_operands message) w
add_ins src ln s ParsedIns.panics w = none

unfoldable pub process_ins : Text → ℕ → Text → List SourceOperand → Working → Processing
process_ins src ln s ops w =
    let (result, symbols) = parse_ins s ops (at src ln) w.symbols in
    add_ins src ln s result (record w { symbols = symbols })

-- The label is entered when it is not there yet.
abbrev pub labelled : Text → ℕ → Text → (ℕ → Symbols → Symbols) → Working → ℕ × Working
labelled src ln l f w =
    let (id, symbols) = get_label l (at src ln) w.symbols in
    (id, record w { symbols = f id symbols })

unfoldable pub process_wide : Text → ℕ → WideLiteral → Working → Processing
process_wide src ln (literal n) w = check_segment src ln (with_line (wide (Wide.number n)) 2 w)
process_wide src ln (label_name l) w =
    let (id, w) = labelled src ln l (λ _ symbols. symbols) w in
    check_segment src ln (with_line (wide (Wide.label id)) 2 w)

-- What the inclusion of a file does to the state and the symbols.
abbrev pub Include : Type 0
Include = Text → Text → ProcessState → Symbols → Option (List Error × ProcessState × Symbols)

-- `if let Some(e) = inner_process(..) { return Err(e) }`
unfoldable pub after_include : Text → ℕ → List Error → Working → Processing
after_include src ln [] w = check_segment src ln w
after_include src ln (e ∷ errors) w = some (e ∷ errors, w)

unfoldable pub process_include : Include → Text → ℕ → Text → Working → Processing
process_include include src ln path w = do
  (errors, state, symbols) ← include src path w.state w.symbols
  after_include src ln errors (record w { state = state; symbols = symbols })

unfoldable pub inner_process_line : Include → Text → ℕ → SourceLine → Working → Processing
inner_process_line include src ln (dir_seg seg) w = process_seg src ln seg w
inner_process_line include src ln dir_entry w = process_entry src ln w
inner_process_line include src ln (label s) w = process_label src ln s w
inner_process_line include src ln (ins s ops) w = process_ins src ln s ops w
inner_process_line include src ln (dir_byte b) w =
    check_segment src ln (with_line (raw (b ∷ [])) 1 w)
inner_process_line include src ln (dir_wide n) w = process_wide src ln n w
inner_process_line include src ln (dir_string s) w =
    check_segment src ln (with_line (raw s) (u16 (length s)) w)
inner_process_line include src ln (dir_include path) w = process_include include src ln path w
inner_process_line include src ln (dir_global l) w =
    check_segment src ln (labelled src ln l set_global w).1
inner_process_line include src ln (dir_reference l) w =
    check_segment src ln (labelled src ln l set_reference w).1
inner_process_line include src ln comment w = check_segment src ln w

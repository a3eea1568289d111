-- ===== src/Source/Process/Files.antt =====
-- src/source/mod.rs: the loop over the lines of a file, and the inclusion of others.
use telda.Prelude.{ℕ, zero, suc, List, [], ◌∷◌, ◌++◌, Option, none, some}
use telda.Obj.{unknown}
use telda.Source.{Text, chars, Error, ErrorType, io_error, Checked, ok, err, panics}
use telda.Source.Partial.{◌>>=◌}
use telda.Source.Line.{SourceLine}
use telda.Source.Text.{strip_prefix}
use telda.Source.Symbols.{Symbols}
use telda.Source.Line.Parse.{inner_parse_line}
use telda.Source.Segments.{ProcessState}
use telda.Source.Process.{Working, Processing, Include, inner_process_line}

abbrev pub Lines : Type 0
Lines = List (Option Text)

abbrev pub io_failure : Text → Error
io_failure source = record { source = source; ln = 0; error = io_error }

-- One turn of the loop of `inner_process`: `parse_next_line`, and the processing of what it parsed.
-- An error at reading a line has neither a source nor a number.
unfoldable pub process_parsed :
    Include → Text → ℕ → Checked ErrorType SourceLine → Working → Processing
process_parsed include src ln (ok sl) w = inner_process_line include src ln sl w
process_parsed include src ln (err e) w = some (record { source = src; ln = ln; error = e } ∷ [], w)
process_parsed include src ln panics w = none

unfoldable pub process_line : Include → Text → ℕ → Option Text → Working → Processing
process_line include src ln none w = some (io_failure [] ∷ [], w)
process_line include src ln (some line) w = process_parsed include src ln (inner_parse_line line) w

-- The loop, from the line after number `ln`; the errors are chained.
unfoldable pub process_lines : Include → Text → ℕ → Lines → List Error → Working → Processing
process_lines include src ln [] errors w = some (errors, w)
process_lines include src ln (line ∷ lines) errors w =
    process_line include src (suc ln) line w >>= λ (more, w).
    process_lines include src (suc ln) lines (errors ++ more) w

unfoldable pub inner_process_with :
    Include → Text → Lines → ProcessState → Symbols → Option (List Error × ProcessState × Symbols)
inner_process_with include src lines state symbols =
    let start : Working = record { current_segment = unknown; state = state; symbols = symbols } in
    process_lines include src 0 lines [] start >>= λ (errors, w). some (errors, w.state, w.symbols)

-- `SourceLines::new(path)?`, and the lines.
unfoldable pub process_file :
    Include
    → Text
    → Option Lines
    → ProcessState
    → Symbols
    → Option (List Error × ProcessState × Symbols)
process_file include path none state symbols = some (io_failure path ∷ [], state, symbols)
process_file include path (some lines) state symbols =
    inner_process_with include path lines state symbols

module _ (open_file : Text → Option Lines) (sibling : Text → Text → Text) where
  -- The name of an included file: from the directory of the source, or without its slash.
  unfoldable pub included : Text → Text → Text
  included src path = elim (strip_prefix (chars "/") path) [
    | some rest ↦ rest
    | none ↦ sibling src path
  ]

  -- The fuel bounds the depth of inclusions, which the source does not.
  unfoldable pub include_file : ℕ → Include
  include_file zero src path state symbols = none
  include_file (suc depth) src path state symbols =
      process_file (include_file depth) (included src path) (open_file (included src path)) state
        symbols

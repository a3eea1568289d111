-- ===== src/Source/Process/Loop.antt =====
-- src/source/mod.rs: the state and the symbols over whole files and the files that they include.
use telda.Prelude.{ℕ, zero, suc, List, [], ◌∷◌, ◌++◌, Option, none, some, refl}
use telda.Source.{Text, Error, ErrorType, Checked, ok, err, panics}
use telda.Source.Partial.{Given, Given-bind}
use telda.Source.Symbols.{Symbols, no_symbols}
use telda.Source.Symbols.Growth.{IsSymbols}
use telda.Source.Line.{SourceLine}
use telda.Source.Line.Parse.{inner_parse_line}
use telda.Source.Segments.{ProcessState, new_state}
use telda.Source.Process.{Working, Include}
use telda.Source.Process.Files.{
  Lines, process_parsed, process_line, process_lines, inner_process_with, process_file, included,
  include_file,
}
use telda.Source.Process.Sound.{Sound, SoundWork, SoundFile, Includes, inner_process_line-Sound}

process_parsed-Sound :
    (include : Include)
    → Includes include
    → (src : Text) (ln : ℕ) (parsed : Checked ErrorType SourceLine) (w : Working)
    → Sound w.state w.symbols
    → Given SoundWork (process_parsed include src ln parsed w)
unfolding process_parsed
process_parsed-Sound include incl src ln (ok sl) w h =
    inner_process_line-Sound include incl src ln sl w h
process_parsed-Sound include incl src ln (err e) w h = h
process_parsed-Sound include incl src ln panics w h = tt

process_line-Sound :
    (include : Include)
    → Includes include
    → (src : Text) (ln : ℕ) (line : Option Text) (w : Working) → Sound w.state w.symbols
    → Given SoundWork (process_line include src ln line w)
unfolding process_line
process_line-Sound include incl src ln none w h = h
process_line-Sound include incl src ln (some line) w h =
    process_parsed-Sound include incl src ln (inner_parse_line line) w h

process_lines-Sound :
    (include : Include)
    → Includes include
    → (src : Text) (lines : Lines) (ln : ℕ) (errors : List Error) (w : Working)
    → Sound w.state w.symbols
    → Given SoundWork (process_lines include src ln lines errors w)
unfolding process_lines
process_lines-Sound include incl src [] ln errors w h = h
process_lines-Sound include incl src (line ∷ lines) ln errors w h =
    Given-bind SoundWork SoundWork _ (process_line include src (suc ln) line w)
      (process_line-Sound include incl src (suc ln) line w h)
      λ r sound. process_lines-Sound include incl src lines (suc ln) (errors ++ r.0) r.1 sound

inner_process_with-Sound :
    (include : Include)
    → Includes include
    → (src : Text) (lines : Lines) (state : ProcessState) (symbols : Symbols) → Sound state symbols
    → Given SoundFile (inner_process_with include src lines state symbols)
unfolding inner_process_with
inner_process_with-Sound include incl src lines state symbols h =
    Given-bind SoundWork SoundFile _ (process_lines include src 0 lines [] _)
      (process_lines-Sound include incl src lines 0 [] _ h) λ r sound. sound

process_file-Sound :
    (include : Include)
    → Includes include
    → (path : Text) (lines : Option Lines) (state : ProcessState) (symbols : Symbols)
    → Sound state symbols
    → Given SoundFile (process_file include path lines state symbols)
unfolding process_file
process_file-Sound include incl path none state symbols h = h
process_file-Sound include incl path (some lines) state symbols h =
    inner_process_with-Sound include incl path lines state symbols h

module _ (open_file : Text → Option Lines) (sibling : Text → Text → Text) where
  include_file-Includes : (depth : ℕ) → Includes (include_file open_file sibling depth)
  unfolding include_file
  include_file-Includes zero src path state symbols h = tt
  include_file-Includes (suc depth) src path state symbols h =
      process_file-Sound (include_file open_file sibling depth) (include_file-Includes depth)
        (included open_file sibling src path) (open_file (included open_file sibling src path))
        state symbols h

  none_Sound : Sound new_state no_symbols
  unfolding IsSymbols
  none_Sound = ((refl, tt), tt)

  -- Processing a source file from scratch leaves labels that are used or defined, and segments whose
  -- lines have the format of their opcodes, name existing labels, and have the counted size.
  pub file-Sound :
      (depth : ℕ) (src : Text) (lines : Lines)
      → Given SoundFile
          (inner_process_with (include_file open_file sibling depth) src lines new_state no_symbols)
  file-Sound depth src lines =
      inner_process_with-Sound (include_file open_file sibling depth) (include_file-Includes depth)
        src lines new_state no_symbols none_Sound

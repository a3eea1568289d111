-- ===== src/Tests/SourcePrograms.antt =====
-- A source file, and what it is processed to.
use telda.Prelude.{ℕ, [], ◌∷◌, Option, none, some, map}
use telda.Source.{
  Text, chars, Wide, SourceLocation, nothing, two_wide_imm, three_wide, immediate_wide,
}
use telda.Source.Process.Files.{Lines}
use telda.Source.Symbols.{Symbols, internal, reference, defined, used}
use telda.Source.Segments.{ProcessState, ins}
use telda.Source.Resolve.{ProcessedSource}
use telda.Isa.Opcode
use telda.Obj.{text, unknown}

abbrev pub loop_program : Lines
loop_program =
    map (λ t. some t)
      (chars ".seg text"
        ∷ chars "_start:"
        ∷ chars "  ldi r1, 5"
        ∷ chars "loop:"
        ∷ chars "  sub r1, r1, r2"
        ∷ chars "  jnz loop"
        ∷ chars "  call print"
        ∷ chars "  halt"
        ∷ chars ".ref print"
        ∷ [])

abbrev pub no_file : Text → Option Lines
no_file path = none

abbrev pub same_name : Text → Text → Text
same_name src path = path

abbrev pub file_name : Text
file_name = chars "a.telda"

-- What the lines are processed to.
abbrev pub loop_source : ProcessedSource
loop_source = record {
  labels =
      record { name = chars "_start"; symbol_type = internal; segment_type = text; location = 128 }
      ∷ record { name = chars "loop"; symbol_type = internal; segment_type = text; location = 132 }
      ∷ record {
        name = chars "print";
        symbol_type = reference;
        segment_type = unknown;
        location = 0xfaff;
      }
      ∷ [];
  dls =
      (
        text,
        record {
          lines =
              ins Opcode.ldi_w (two_wide_imm 1 0 (Wide.number 5))
              ∷ ins Opcode.sub_w (three_wide 1 1 2)
              ∷ ins Opcode.jnz (immediate_wide (Wide.label 1))
              ∷ ins Opcode.call (immediate_wide (Wide.label 2))
              ∷ ins Opcode.halt nothing
              ∷ [];
          size = 14;
          start = 128;
        },
      )
      ∷ [];
  entry = none;
}

-- The state and the symbols at the end of its lines.
abbrev pub loop_state : ProcessState
loop_state = record {
  dls =
      (
        text,
        record {
          lines =
              ins Opcode.ldi_w (two_wide_imm 1 0 (Wide.number 5))
              ∷ ins Opcode.sub_w (three_wide 1 1 2)
              ∷ ins Opcode.jnz (immediate_wide (Wide.label 1))
              ∷ ins Opcode.call (immediate_wide (Wide.label 2))
              ∷ ins Opcode.halt nothing
              ∷ [];
          size = 14;
          start = 0;
        },
      )
      ∷ [];
  entry = none;
}

abbrev at_line : ℕ → SourceLocation
at_line n = record { source = file_name; line_number = n }

abbrev pub loop_symbols : Symbols
loop_symbols = record {
  labels = chars "_start" ∷ chars "loop" ∷ chars "print" ∷ [];
  id_to_pos =
      defined (record { segment = text; offset = 0 })
      ∷ defined (record { segment = text; offset = 4 })
      ∷ used (at_line 7 ∷ at_line 9 ∷ [])
      ∷ [];
  symbol_types = internal ∷ internal ∷ reference ∷ [];
}

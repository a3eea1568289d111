-- ===== src/Tests/ObjExamples.antt =====
-- The theorems on object files applied at concrete inputs.
use telda.Prelude.{◌≡◌, refl, arith, true, false, List, [], ◌∷◌}
use telda.Obj.{text, data_segment, Entry, BinarySegment, SymbolDefinition, RelocationEntry}
use telda.Obj.Sections.{
  ok, read_entry, write_entry, read_segment, write_segment, read_relocations, write_relocations,
  read_symbols, write_symbols,
}
use telda.Obj.RoundTrip.{
  read_entry-write_entry, read_segment-write_segment, read_relocations-write_relocations,
  read_symbols-write_symbols,
}

abbrev start : Entry
start = record { segment = text; location = 0x1280 }

abbrev greeting : BinarySegment
greeting = record { offset = 0x2000; stype = data_segment; bytes = 72 ∷ 105 ∷ [] }

abbrev relocations : List RelocationEntry
relocations =
    record { reference_segment = text; reference_location = 0x1281; symbol_index = 1 }
    ∷ record { reference_segment = text; reference_location = 0x1300; symbol_index = 258 }
    ∷ []

abbrev symbols : List SymbolDefinition
symbols =
    record { name = 97 ∷ 98 ∷ []; is_global = true; segment_type = text; location = 0x1280 }
    ∷ record { name = []; is_global = false; segment_type = data_segment; location = 0x2000 }
    ∷ []

read_entry-write_entry_example : read_entry (write_entry start) ≡ ok start
read_entry-write_entry_example = read_entry-write_entry start (omega arith)

read_segment-write_segment_example : read_segment (write_segment greeting) ≡ ok greeting
read_segment-write_segment_example = read_segment-write_segment greeting (omega arith)

read_relocations-write_relocations_example :
    read_relocations (write_relocations relocations) ≡ ok relocations
read_relocations-write_relocations_example =
    read_relocations-write_relocations relocations (omega arith)

read_symbols-write_symbols_example :
    read_symbols (λ name. name) (write_symbols symbols) ≡ ok symbols
read_symbols-write_symbols_example =
    read_symbols-write_symbols (λ name. name) symbols
      (
        record {
          no_zero = (omega arith, (omega arith, tt));
          valid_text = refl;
          named = omega arith;
          wide = omega arith;
        },
        (record { no_zero = tt; valid_text = refl; named = tt; wide = omega arith }, tt),
      )

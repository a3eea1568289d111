-- ===== src/Tests/LinkExamples.antt =====
-- The theorems on the linker applied at concrete objects.
use telda.Prelude.{ℕ, ◌≡◌, refl, arith, List, [], ◌∷◌, ◌++◌, true, false, Option, none, some}
use telda.Obj.{SegmentType, unknown, text, SymbolDefinition, Object}
use telda.Source.Partial.{There}
use telda.Linker.Symbols.{Merging, merge_symbols}
use telda.Linker.Symbols.Named.{IsMerging, Keeps, Refers}
use telda.Linker.Symbols.Names.{placed_symbols, merge_symbols-IsMerging}
use telda.Linker.Archive.{Included, include_objects}
use telda.Linker.Archive.Loop.{Ended, include_objects-Ended}

abbrev main_name : List ℕ
main_name = b'm' ∷ b'a' ∷ []

abbrev print_name : List ℕ
print_name = b'p' ∷ b'r' ∷ []

abbrev defined_print : SymbolDefinition
defined_print = record { name = print_name; is_global = true; segment_type = text; location = 0x90 }

abbrev missing_print : SymbolDefinition
missing_print = record {
  name = print_name;
  is_global = true;
  segment_type = unknown;
  location = 0xfaff;
}

abbrev local_main : SymbolDefinition
local_main = record { name = main_name; is_global = false; segment_type = text; location = 0x80 }

-- A file that refers to a symbol has been read; the next one defines it.
abbrev one_reference : Merging
one_reference = record {
  global_symbols = (print_name, 0) ∷ [];
  symbols_out = missing_print ∷ [];
  file_symbol_to_out_symbol = [];
  failure = false;
}

abbrev start_of : SegmentType → Option ℕ
start_of st = some 0x80

one_reference-IsMerging : IsMerging [] one_reference
unfolding Refers
one_reference-IsMerging = (((refl, refl), tt), tt)

merge_symbols-IsMerging_example :
    There
      (λ (t : Merging).
        IsMerging ([] ++ placed_symbols start_of start_of (local_main ∷ defined_print ∷ [])) t
        × Keeps one_reference.global_symbols t.global_symbols)
      (merge_symbols false start_of start_of (local_main ∷ defined_print ∷ []) one_reference)
merge_symbols-IsMerging_example =
    merge_symbols-IsMerging start_of start_of (local_main ∷ defined_print ∷ []) [] one_reference
      one_reference-IsMerging

abbrev object_of : SymbolDefinition → Object
object_of s = record {
  file_offset = 0;
  entry = none;
  flags = none;
  stack_size = none;
  heap_size = none;
  segs = [];
  symbols = s ∷ [];
  relocation_table = [];
}

-- The input refers to a symbol that one of two archived objects defines.
abbrev two_archived : Included
two_archived = record {
  cur_globals = (print_name, false) ∷ [];
  objs = [];
  left = (object_of local_main, []) ∷ (object_of defined_print, (print_name, true) ∷ []) ∷ [];
}

include_objects-Ended_example :
    (t : Included) × (include_objects 3 two_archived ≡ some t) × Ended two_archived t
include_objects-Ended_example = include_objects-Ended 3 two_archived (omega arith)

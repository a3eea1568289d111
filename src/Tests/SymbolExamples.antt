-- ===== src/Tests/SymbolExamples.antt =====
-- The theorems on symbols applied at concrete labels.
use telda.Prelude.{some, ◌≡◌, ◌↔◌, refl, if◌then◌else◌}
use telda.Obj.{text}
use telda.Source.{chars, same_text, already_set, other, SourceLocation, Address}
use telda.Source.Symbols.{no_symbols, Symbols, defined, get_label, set_label, add_use}
use telda.Source.Symbols.Growth.{IsSymbols, get_label-Grown}
use telda.Source.Symbols.Names.{get_label-get_label, set_label-set_label}
use telda.Source.Symbols.View.{view, or_new, view_lem}
use telda.Tests.SourcePrograms.{file_name}

abbrev here : SourceLocation
here = record { source = file_name; line_number = 3 }

no_symbols-IsSymbols : IsSymbols no_symbols
unfolding IsSymbols
no_symbols-IsSymbols = (refl, tt)

abbrev there : SourceLocation
there = record { source = file_name; line_number = 9 }

abbrev start_address : Address
start_address = record { segment = text; offset = 0 }

abbrev other_address : Address
other_address = record { segment = text; offset = 12 }

get_label-get_label_example :
    ((get_label (chars "b") there (get_label (chars "a") here no_symbols).1).0
      ≡ (get_label (chars "a") here no_symbols).0)
    ↔ (chars "a" ≡ chars "b")
get_label-get_label_example = get_label-get_label (chars "a") (chars "b") here there no_symbols

set_label-set_label_example :
    (set_label
      (chars "loop")
      other_address
      there
      (set_label (chars "loop") start_address here no_symbols).1).0
    ≡ some (record {
      source = file_name;
      ln = 9;
      error = other (already_set (chars "loop") start_address other_address);
    })
set_label-set_label_example =
    set_label-set_label (chars "loop") start_address other_address here there no_symbols
      no_symbols-IsSymbols

abbrev one_symbol : Symbols
one_symbol = (get_label (chars "loop") here no_symbols).1

one_symbol-IsSymbols : IsSymbols one_symbol
one_symbol-IsSymbols = (get_label-Grown (chars "loop") here no_symbols no_symbols-IsSymbols).0.0

view_lem_example :
    (view (set_label (chars "loop") start_address there one_symbol).1 (chars "loop") ≡ (
      if same_text (chars "loop") (chars "loop")
      then some (defined start_address)
      else view one_symbol (chars "loop")))
    × (view (get_label (chars "loop") there one_symbol).1 (chars "loop") ≡ (
        if same_text (chars "loop") (chars "loop")
        then some (add_use there (or_new (view one_symbol (chars "loop"))))
        else view one_symbol (chars "loop")))
view_lem_example =
    view_lem (chars "loop") (chars "loop") start_address there one_symbol one_symbol-IsSymbols

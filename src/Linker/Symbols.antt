-- ===== src/Linker/Symbols.antt =====
-- src/bin/tl.rs: the merging of the symbols of the files.
pub mod Named
pub mod Names
pub mod Merged
use telda.Prelude.{
  ℕ, suc, ◌+◌, List, [], ◌∷◌, ◌++◌, Bool, true, false, not, ◌&&◌, ◌||◌, Option, none, some, length,
  get_elem?, add16, sub16, if◌then◌else◌,
}
use telda.Obj.{SegmentType, SymbolDefinition}
use telda.Source.{same_text}
use telda.Source.Partial.{◌>>=◌}
use telda.Source.Symbols.{modify_at}
use telda.Assembler.{is_unknown}

-- `HashMap::get`
unfoldable pub lookup : List ℕ → List (List ℕ × ℕ) → Option ℕ
lookup name [] = none
lookup name ((n, id) ∷ rest) = if same_text n name then some id else lookup name rest

pub record Merging : Type 0 where
  pub global_symbols : List (List ℕ × ℕ)
  pub symbols_out : List SymbolDefinition
  pub file_symbol_to_out_symbol : List ℕ
  pub failure : Bool

-- A symbol at the end of the output.
abbrev pub push_symbol : SymbolDefinition → Merging → Merging
push_symbol symdef m = record m {
  symbols_out = m.symbols_out ++ symdef ∷ [];
  file_symbol_to_out_symbol = m.file_symbol_to_out_symbol ++ length m.symbols_out ∷ [];
}

-- What becomes of a global symbol that is there already, and whether both are defined.
abbrev pub merged : SymbolDefinition → SymbolDefinition → SymbolDefinition
merged symdef cur =
    if not (is_unknown symdef.segment_type) && is_unknown cur.segment_type then symdef else cur

abbrev pub conflict : SymbolDefinition → SymbolDefinition → Bool
conflict symdef cur = not (is_unknown symdef.segment_type) && not (is_unknown cur.segment_type)

unfoldable pub merge_with :
    ℕ → SymbolDefinition → Merging → Option SymbolDefinition → Option Merging
merge_with id symdef m none = none
merge_with id symdef m (some cur) = some (record m {
  symbols_out = modify_at (merged symdef) id m.symbols_out;
  file_symbol_to_out_symbol = m.file_symbol_to_out_symbol ++ id ∷ [];
  failure = m.failure || conflict symdef cur;
})

unfoldable pub merge_global : SymbolDefinition → Merging → Option ℕ → Option Merging
merge_global symdef m none = some (
    push_symbol symdef
      (record m { global_symbols = (symdef.name, length m.symbols_out) ∷ m.global_symbols }))
merge_global symdef m (some id) = merge_with id symdef m (get_elem? m.symbols_out id)

-- A symbol whose location is that of the output already.
unfoldable pub merge_placed : Bool → SymbolDefinition → Merging → Option Merging
merge_placed strip_internal symdef m =
    if symdef.is_global
    then merge_global symdef m (lookup symdef.name m.global_symbols)
    else some (push_symbol (if strip_internal then record symdef { name = [] } else symdef) m)

-- The starts of the file's segments are taken off, those of the output added.
unfoldable pub moved :
    (SegmentType → Option ℕ) → (SegmentType → Option ℕ) → SymbolDefinition → SymbolDefinition
moved file_start out_start symdef =
    let or_zero : Option ℕ → ℕ = λ o. elim o [ none ↦ 0 | some n ↦ n ] in
    record symdef {
      location =
          add16 (sub16 symdef.location (or_zero (file_start symdef.segment_type)))
            (or_zero (out_start symdef.segment_type));
    }

unfoldable pub merge_symbols :
    Bool
    → (SegmentType → Option ℕ)
    → (SegmentType → Option ℕ)
    → List SymbolDefinition
    → Merging
    → Option Merging
merge_symbols strip_internal file_start out_start [] m = some m
merge_symbols strip_internal file_start out_start (symdef ∷ symbols) m =
    merge_placed strip_internal (moved file_start out_start symdef) m >>= λ m.
    merge_symbols strip_internal file_start out_start symbols m

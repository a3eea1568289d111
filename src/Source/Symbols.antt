-- ===== src/Source/Symbols.antt =====
-- src/source/symbols.rs: the labels of a source file, where they are and what kind they are.
pub mod Growth
pub mod Names
pub mod View
use mathlib.Core.Option.{map}
use telda.Prelude.{
  ℕ, zero, suc, ◌+◌, ◌-◌, List, [], ◌∷◌, ◌++◌, Option, none, some, length, replicate, leb,
  if◌then◌else◌,
}
use telda.Source.{Text, same_text, Address, SourceLocation, Error, already_set, other}

pub data SymbolType : Type 0 where
  internal global reference : SymbolType

unfoldable pub SymbolType_set_global : SymbolType → SymbolType
SymbolType_set_global internal = global
SymbolType_set_global reference = reference
SymbolType_set_global global = global

unfoldable pub SymbolType_set_reference : SymbolType → SymbolType
SymbolType_set_reference internal = reference
SymbolType_set_reference global = reference
SymbolType_set_reference reference = reference

-- `Result<Address, Vec<SourceLocation>>`: where a label is, or where it was used so far.
pub data Position : Type 0 where
  defined : Address → Position
  used : List SourceLocation → Position

pub record Symbols : Type 0 where
  pub labels : List Text
  pub id_to_pos : List Position
  pub symbol_types : List SymbolType

abbrev pub no_symbols : Symbols
no_symbols = record { labels = []; id_to_pos = []; symbol_types = [] }

-- `iter().position(|l| l == lbl)`
unfoldable pub position : Text → List Text → Option ℕ
position lbl [] = none
position lbl (l ∷ labels) = if same_text l lbl then some 0 else map suc (position lbl labels)

-- The element at an index is changed; the indices that the source uses are in range.
module _ {A : Type 0} where
  unfoldable pub modify_at : (A → A) → ℕ → List A → List A
  modify_at f n [] = []
  modify_at f zero (a ∷ rest) = f a ∷ rest
  modify_at f (suc n) (a ∷ rest) = a ∷ modify_at f n rest

-- The label's index, or a new label.
unfoldable pub located : Option ℕ → Text → Symbols → ℕ × Symbols
located (some i) lbl s = (i, s)
located none lbl s = (
  length s.labels,
  record s { labels = s.labels ++ lbl ∷ []; id_to_pos = s.id_to_pos ++ used [] ∷ [] },
)

unfoldable pub find_id : Text → Symbols → ℕ × Symbols
unfolding located
find_id lbl s = located (position lbl s.labels) lbl s

-- The position that `mem::replace` hands back.
unfoldable pub position_at : ℕ → List Position → Position
position_at n [] = used []
position_at zero (p ∷ positions) = p
position_at (suc n) (p ∷ positions) = position_at n positions

unfoldable pub set_result : Text → Address → SourceLocation → Position → Option Error
set_result lbl addr loc (defined cur_addr) = some (record {
  source = loc.source;
  ln = loc.line_number;
  error = other (already_set lbl cur_addr addr);
})
set_result lbl addr loc (used _) = none

-- The new address stays, also when the label had one.
unfoldable pub set_label : Text → Address → SourceLocation → Symbols → Option Error × Symbols
set_label lbl addr loc s =
    let (id, s) = find_id lbl s in
    (
      set_result lbl addr loc (position_at id s.id_to_pos),
      record s { id_to_pos = modify_at (λ _. defined addr) id s.id_to_pos },
    )

abbrev pub add_use : SourceLocation → Position → Position
add_use loc (defined a) = defined a
add_use loc (used v) = used (v ++ loc ∷ [])

unfoldable pub get_label : Text → SourceLocation → Symbols → ℕ × Symbols
get_label lbl loc s =
    let (id, s) = find_id lbl s in
    (id, record s { id_to_pos = modify_at (add_use loc) id s.id_to_pos })

-- `if id >= self.symbol_types.len() { self.symbol_types.resize(id + 1, SymbolType::default()) }`
unfoldable pub resized : ℕ → List SymbolType → List SymbolType
resized id types =
    if leb (length types) id then types ++ replicate (id + 1 - length types) internal else types

unfoldable pub set_global : ℕ → Symbols → Symbols
set_global id s = record s {
  symbol_types = modify_at SymbolType_set_global id (resized id s.symbol_types);
}

unfoldable pub set_reference : ℕ → Symbols → Symbols
set_reference id s = record s {
  symbol_types = modify_at SymbolType_set_reference id (resized id s.symbol_types);
}

unfoldable pub size : Symbols → ℕ
size s = length s.labels

-- The zip stops at the shorter of the labels and the positions; the types are continued by the
-- default one.
unfoldable pub zipped :
    List Text → List SymbolType → List Position → List (Text × SymbolType × Position)
zipped (l ∷ labels) (t ∷ types) (p ∷ positions) = (l, t, p) ∷ zipped labels types positions
zipped (l ∷ labels) [] (p ∷ positions) = (l, internal, p) ∷ zipped labels [] positions
zipped _ _ _ = []

unfoldable pub into_iter : Symbols → List (Text × SymbolType × Position)
into_iter s = zipped s.labels s.symbol_types s.id_to_pos

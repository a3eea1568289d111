-- ===== src/Linker/Archive.antt =====
-- src/bin/tl.rs: which objects of the archives are linked.
pub mod Globals
pub mod Loop
use telda.Prelude.{
  ℕ, zero, suc, List, [], ◌∷◌, ◌++◌, Bool, true, false, not, ◌||◌, Option, none, some, length,
  if◌then◌else◌,
}
use telda.Obj.{SymbolDefinition, Object}
use telda.Source.{same_text}
use telda.Assembler.{is_unknown}

-- The names of symbols, and whether they are defined.
abbrev pub DefinedMap : Type 0
DefinedMap = List (List ℕ × Bool)

unfoldable pub add_symbol : List ℕ → Bool → DefinedMap → DefinedMap
add_symbol sym defined [] = (sym, defined) ∷ []
add_symbol sym defined ((s, d) ∷ map) =
    let rest = add_symbol sym defined map in
    if same_text s sym then (s, d || defined) ∷ map else (s, d) ∷ rest

abbrev pub same_bool : Bool → Bool → Bool
same_bool true b = b
same_bool false b = not b

unfoldable pub is : List ℕ → Bool → DefinedMap → Bool
is sym defined [] = false
is sym defined ((s, d) ∷ map) = if same_text s sym then same_bool d defined else is sym defined map

unfoldable pub extend_undefineds : DefinedMap → DefinedMap → DefinedMap
extend_undefineds [] map = map
extend_undefineds ((sym, defined) ∷ df) map =
    extend_undefineds df (if defined then map else add_symbol sym defined map)

-- `filter_map(name_and_defined_if_global)`, collected.
unfoldable pub globals_from : List SymbolDefinition → DefinedMap → DefinedMap
globals_from [] map = map
globals_from (sd ∷ symbols) map =
    globals_from symbols
      (if sd.is_global then add_symbol sd.name (not (is_unknown sd.segment_type)) map else map)

unfoldable pub input_globals : List Object → DefinedMap → DefinedMap
input_globals [] map = map
input_globals (o ∷ objs) map = input_globals objs (globals_from o.symbols map)

-- Whether an object has a symbol that is defined on one side and not on the other.
unfoldable pub wanted : DefinedMap → DefinedMap → Bool
wanted cur_globals [] = false
wanted cur_globals ((sym, defined) ∷ glbls) =
    is sym (not defined) cur_globals || wanted cur_globals glbls

abbrev pub Member : Type 0
Member = Object × DefinedMap

abbrev pub keeping : Member → Option (Member × List Member) → Option (Member × List Member)
keeping m none = none
keeping m (some (found, others)) = some (found, m ∷ others)

-- The first object that is wanted, and the others.
unfoldable pub find_wanted : DefinedMap → List Member → Option (Member × List Member)
find_wanted cur_globals [] = none
find_wanted cur_globals (m ∷ a_objs) =
    let later = find_wanted cur_globals a_objs in
    if wanted cur_globals m.1 then some (m, a_objs) else keeping m later

-- How the loop ends: the globals, the objects that are included, and those that are left.
pub record Included : Type 0 where
  pub cur_globals : DefinedMap
  pub objs : List Object
  pub left : List Member

-- What one turn of the loop makes of the object that it found.
unfoldable pub include_found : Member → List Member → Included → Included
include_found (obj, glbs) others s = record {
  cur_globals = extend_undefineds glbs s.cur_globals;
  objs = s.objs ++ obj ∷ [];
  left = others;
}

-- What there is, or else.
abbrev pub either_way : {A B : Type 0} → Option A → B → (A → B) → B
either_way none b f = b
either_way (some a) b f = f a

-- The loop, on fuel.
unfoldable pub include_objects : ℕ → Included → Option Included
include_objects zero s = none
include_objects (suc fuel) s =
    either_way (find_wanted s.cur_globals s.left) (some s)
      λ (found, others). include_objects fuel (include_found found others s)

unfoldable pub members : List Object → List Member
members [] = []
members (o ∷ objs) = (o, globals_from o.symbols []) ∷ members objs

-- `read_archives`, of the objects that the archives hold; each turn takes one of them away.
unfoldable pub read_archives : List Object → List Object → Option (List Object)
read_archives objs archived =
    let a_objs = members archived in
    let start : Included = record {
      cur_globals = input_globals objs [];
      objs = [];
      left = a_objs;
    } in
    elim (include_objects (suc (length a_objs)) start) [ none ↦ none | some s ↦ some s.objs ]

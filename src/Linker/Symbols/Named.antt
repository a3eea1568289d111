-- ===== src/Linker/Symbols/Named.antt =====
-- src/bin/tl.rs: the symbols of the output that stand for those of a file.
use mathlib.Core.Path.{subst}
use telda.Prelude.{
  ℕ, zero, suc, ◌≡◌, refl, List, [], ◌∷◌, ◌++◌, true, false, none, some, arith, All, length,
  get_elem?, Bool-cases, inl, inr,
}
use telda.Obj.{SymbolDefinition}
use telda.Source.{same_text}
use telda.Source.Partial.{There}
use telda.Source.Symbols.{modify_at}
use telda.Source.Symbols.Names.{same_text_refl, same_text-eq}
use telda.Assembler.{is_unknown}
use telda.Linker.Symbols.{lookup, Merging}

-- The output has a symbol at an index, of which `P` holds.
abbrev pub At : List SymbolDefinition → ℕ → (SymbolDefinition → Type 0) → Type 0
At out id P = There P (get_elem? out id)

-- A global symbol with a name.
abbrev pub IsGlobal : List ℕ → SymbolDefinition → Type 0
IsGlobal name sd = (sd.name ≡ name) × (sd.is_global ≡ true)

-- What the output has for a symbol of a file: the symbol itself if it is local; if it is global, a
-- global symbol of the same name, which is defined if the file's is.
abbrev pub Stands : SymbolDefinition → SymbolDefinition → Type 0
Stands seen sd =
    (sd.name ≡ seen.name)
    × (sd.is_global ≡ seen.is_global)
    × (is_unknown seen.segment_type ≡ false → is_unknown sd.segment_type ≡ false)
    × (seen.is_global ≡ false → sd ≡ seen)

-- Indices of what the output has for symbols, in their order. That of a global symbol is the one
-- under which its name is found.
unfoldable pub Refers :
    List SymbolDefinition → List (List ℕ × ℕ) → List SymbolDefinition → List ℕ → Type 0
Refers out globals [] [] = Unit
Refers out globals [] (id ∷ ids) = ⊥
Refers out globals (seen ∷ seens) [] = ⊥
Refers out globals (seen ∷ seens) (id ∷ ids) =
    At out id (Stands seen)
    × (seen.is_global ≡ true → lookup seen.name globals ≡ some id)
    × Refers out globals seens ids

-- Each name in the map leads to a global symbol of that name, and the file's index has what the
-- output has for the file's symbols.
abbrev pub IsMerging : List SymbolDefinition → Merging → Type 0
IsMerging seens m =
    All (λ (g : List ℕ × ℕ). At m.symbols_out g.1 (IsGlobal g.0)) m.global_symbols
    × Refers m.symbols_out m.global_symbols seens m.file_symbol_to_out_symbol

-- Names that are found are found still.
abbrev pub Keeps : List (List ℕ × ℕ) → List (List ℕ × ℕ) → Type 0
Keeps globals globals' =
    (name : List ℕ) (id : ℕ) → lookup name globals ≡ some id → lookup name globals' ≡ some id

pub At-append :
    (P : SymbolDefinition → Type 0) (out : List SymbolDefinition) (s : SymbolDefinition) (id : ℕ)
    → At out id P
    → At (out ++ s ∷ []) id P
At-append P [] s id h = absurd h
At-append P (sd ∷ out) s zero h = h
At-append P (sd ∷ out) s (suc id) h = At-append P out s id h

pub At-last :
    (P : SymbolDefinition → Type 0) (out : List SymbolDefinition) (s : SymbolDefinition)
    → P s
    → At (out ++ s ∷ []) (length out) P
At-last P [] s h = h
At-last P (sd ∷ out) s h = At-last P out s h

-- A change of one symbol of which `P` holds still.
pub At-modify_at :
    (P : SymbolDefinition → Type 0) (f : SymbolDefinition → SymbolDefinition)
    (out : List SymbolDefinition) (i id : ℕ)
    → At out i (λ sd. P sd → P (f sd))
    → At out id P
    → At (modify_at f i out) id P
unfolding modify_at
At-modify_at P f [] i id kept h = absurd h
At-modify_at P f (sd ∷ out) zero zero kept h = kept h
At-modify_at P f (sd ∷ out) zero (suc id) kept h = h
At-modify_at P f (sd ∷ out) (suc i) zero kept h = h
At-modify_at P f (sd ∷ out) (suc i) (suc id) kept h = At-modify_at P f out i id kept h

pub At-changed :
    (P : SymbolDefinition → Type 0) (f : SymbolDefinition → SymbolDefinition)
    (out : List SymbolDefinition) (i : ℕ)
    → At out i (λ sd. P (f sd))
    → At (modify_at f i out) i P
unfolding modify_at
At-changed P f [] i h = absurd h
At-changed P f (sd ∷ out) zero h = h
At-changed P f (sd ∷ out) (suc i) h = At-changed P f out i h

-- A later output, in which what there was remains.
pub record Evolves (out out' : List SymbolDefinition) (globals globals' : List (List ℕ × ℕ))
    : Type 0 where
  pub of_name : (name : List ℕ) (id : ℕ) → At out id (IsGlobal name) → At out' id (IsGlobal name)
  pub of_symbol :
      (seen : SymbolDefinition) (id : ℕ) → At out id (Stands seen) → At out' id (Stands seen)
  pub of_globals : Keeps globals globals'

pub All-evolves :
    (out out' : List SymbolDefinition) (globals : List (List ℕ × ℕ))
    → ((name : List ℕ) (id : ℕ) → At out id (IsGlobal name) → At out' id (IsGlobal name))
    → All (λ (g : List ℕ × ℕ). At out g.1 (IsGlobal g.0)) globals
    → All (λ (g : List ℕ × ℕ). At out' g.1 (IsGlobal g.0)) globals
All-evolves out out' [] r h = tt
All-evolves out out' ((n, id) ∷ globals) r h = (r n id h.0, All-evolves out out' globals r h.1)

pub Refers-append :
    (out out' : List SymbolDefinition) (globals globals' : List (List ℕ × ℕ))
    (seens : List SymbolDefinition) (s : SymbolDefinition) (ids : List ℕ) (id : ℕ)
    → Evolves out out' globals globals'
    → Refers out globals seens ids
    → At out' id (Stands s)
    → (s.is_global ≡ true → lookup s.name globals' ≡ some id)
    → Refers out' globals' (seens ++ s ∷ []) (ids ++ id ∷ [])
unfolding Refers
Refers-append out out' g g' [] s [] id r h last found = (last, found, tt)
Refers-append out out' g g' [] s (i ∷ ids) id r h last found = absurd h
Refers-append out out' g g' (n ∷ seens) s [] id r h last found = absurd h
Refers-append out out' g g' (n ∷ seens) s (i ∷ ids) id r h last found = (
  r.of_symbol n i h.0,
  λ global. r.of_globals n.name i (h.1 global),
  Refers-append out out' g g' seens s ids id r h.2 last found,
)

pub lookup-IsGlobal :
    (out : List SymbolDefinition) (name : List ℕ) (globals : List (List ℕ × ℕ)) (id : ℕ)
    → All (λ (g : List ℕ × ℕ). At out g.1 (IsGlobal g.0)) globals
    → lookup name globals ≡ some id
    → At out id (IsGlobal name)
unfolding lookup
lookup-IsGlobal out name [] id h e = absurd (ground (arith, e))
lookup-IsGlobal out name ((n, i) ∷ globals) id h e = elim (Bool-cases (same_text n name)) [
  | inl same ↦
      let found : i ≡ id = ground (arith, same, e) in
      subst (λ j. At out j (IsGlobal name)) found
        (subst (λ l. At out i (IsGlobal l)) (same_text-eq n name same) h.0)
  | inr differs ↦
      let later : lookup name globals ≡ some id = ground (arith, differs, e) in
      lookup-IsGlobal out name globals id h.1 later
]

-- A new name is found, and hides no other one.
pub lookup_new :
    (name : List ℕ) (id : ℕ) (globals : List (List ℕ × ℕ))
    → lookup name ((name, id) ∷ globals) ≡ some id
unfolding lookup
lookup_new name id globals = rw (same_text_refl name) refl

pub Keeps-new :
    (name : List ℕ) (i : ℕ) (globals : List (List ℕ × ℕ))
    → lookup name globals ≡ none
    → Keeps globals ((name, i) ∷ globals)
unfolding lookup
Keeps-new name i globals absent n id e = elim (Bool-cases (same_text name n)) [
  | inl same ↦
      let here : lookup name globals ≡ some id = rw (same_text-eq name n same) e in
      absurd (ground (arith, absent, here))
  | inr differs ↦ rw differs e
]

-- ===== src/Linker/Archive/Globals.antt =====
-- src/bin/tl.rs: the maps of global symbols in `read_archives`.
use telda.Prelude.{
  ℕ, ◌≡◌, refl, ap, sym, ◌∙◌, List, [], ◌∷◌, Bool, true, false, not, ◌&&◌, Option, none, some,
  arith, All, Bool-cases, ◌⊎◌, inl, inr, if◌then◌else◌,
}
use telda.Source.{same_text}
use telda.Source.Symbols.Names.{same_text-eq}
use telda.Linker.Archive.{DefinedMap, same_bool, is, add_symbol, extend_undefineds, wanted}

-- Whether a name is defined, where a map has the name.
unfoldable pub says : List ℕ → DefinedMap → Option Bool
says name [] = none
says name ((s, d) ∷ map) = let rest = says name map in if same_text s name then some d else rest

-- The map has the name of a symbol with the other value: one of the two defines the symbol, and the
-- other only refers to it.
abbrev pub Differs : DefinedMap → List ℕ × Bool → Type 0
Differs cur (name, defined) = says name cur ≡ some (not defined)

-- A map differs from another at some symbol of the latter, or at none.
unfoldable pub IsWanted : DefinedMap → DefinedMap → Type 0
IsWanted cur [] = ⊥
IsWanted cur (symbol ∷ glbls) = Differs cur symbol ⊎ IsWanted cur glbls

abbrev pub IsSettled : DefinedMap → DefinedMap → Type 0
IsSettled cur glbls = All (λ (symbol : List ℕ × Bool). ¬ Differs cur symbol) glbls

-- Undefined, if the name is among the references of a file.
unfoldable pub refers : List ℕ → DefinedMap → Option Bool
refers name [] = none
refers name ((s, d) ∷ glbls) =
    let rest = refers name glbls in if not d && same_text s name then some false else rest

abbrev pub or_else : Option Bool → Option Bool → Option Bool
or_else (some d) o = some d
or_else none o = o

-- A map has what it had, and the references of a file as undefined symbols.
abbrev pub Extends : DefinedMap → DefinedMap → DefinedMap → Type 0
Extends glbls cur new =
    (name : List ℕ) → says name new ≡ or_else (says name cur) (refers name glbls)

same_bool-eq : (d b : Bool) → same_bool d b ≡ true → d ≡ b
same_bool-eq true b e = sym e
same_bool-eq false b e = ground (arith, e)

same_bool_refl : (b : Bool) → same_bool b b ≡ true
same_bool_refl true = refl
same_bool_refl false = refl

is-says :
    (name : List ℕ) (b : Bool) (map : DefinedMap) → is name b map ≡ true → says name map ≡ some b
unfolding is says
is-says name b [] e = absurd (ground (arith, e))
is-says name b ((s, d) ∷ map) e = elim (Bool-cases (same_text s name)) [
  | inl same ↦
      let equal : same_bool d b ≡ true = ground (arith, same, e) in
      rw same (ap (λ x. some x) (same_bool-eq d b equal))
  | inr other ↦
      let later : is name b map ≡ true = ground (arith, other, e) in
      rw other (is-says name b map later)
]

says-is :
    (name : List ℕ) (b : Bool) (map : DefinedMap) → says name map ≡ some b → is name b map ≡ true
unfolding is says
says-is name b [] e = absurd (ground (arith, e))
says-is name b ((s, d) ∷ map) e = elim (Bool-cases (same_text s name)) [
  | inl same ↦ let equal : d ≡ b = ground (arith, same, e) in rw (same, equal) (same_bool_refl b)
  | inr other ↦
      let later : says name map ≡ some b = ground (arith, other, e) in
      rw other (says-is name b map later)
]

pub wanted-IsWanted : (cur glbls : DefinedMap) → wanted cur glbls ≡ true → IsWanted cur glbls
unfolding wanted IsWanted
wanted-IsWanted cur [] e = absurd (ground (arith, e))
wanted-IsWanted cur ((name, defined) ∷ glbls) e = elim (Bool-cases (is name (not defined) cur)) [
  | inl here ↦ inl (is-says name (not defined) cur here)
  | inr absent ↦
      let later : wanted cur glbls ≡ true = ground (arith, absent, e) in
      inr (wanted-IsWanted cur glbls later)
]

pub wanted-IsSettled : (cur glbls : DefinedMap) → wanted cur glbls ≡ false → IsSettled cur glbls
unfolding wanted
wanted-IsSettled cur [] e = tt
wanted-IsSettled cur ((name, defined) ∷ glbls) e =
    let absent : is name (not defined) cur ≡ false = ground (arith, e) in
    let later : wanted cur glbls ≡ false = ground (arith, e) in
    (
      λ differs.
          let there = says-is name (not defined) cur differs in
          absurd (ground (arith, absent, there)),
      wanted-IsSettled cur glbls later,
    )

or_else-none : (o : Option Bool) → o ≡ or_else o none
or_else-none none = refl
or_else-none (some d) = refl

if_none :
    (b : Bool) (o : Option Bool)
    → or_else (if b then some false else none) o ≡ (if b then some false else o)
if_none true o = refl
if_none false o = refl

-- The map that has the name keeps its value.
kept :
    (name s : List ℕ) (d : Bool) (map : DefinedMap)
    → says name ((s, d) ∷ map)
      ≡ or_else (says name ((s, d) ∷ map)) (if same_text s name then some false else none)
unfolding says
kept name s d map = elim (Bool-cases (same_text s name)) [
  | inl same ↦ rw same refl
  | inr other ↦ rw other (or_else-none (says name map))
]

-- A name is added as undefined, unless the map has it.
says-add_symbol :
    (name s : List ℕ) (map : DefinedMap)
    → says name (add_symbol s false map)
      ≡ or_else (says name map) (if same_text s name then some false else none)
unfolding says add_symbol
says-add_symbol name s [] = refl
says-add_symbol name s ((u, true) ∷ map) = elim (Bool-cases (same_text u s)) [
  | inl same ↦ rw (same, same_text-eq u s same) (kept name s true map)
  | inr other ↦ rw other (elim (Bool-cases (same_text u name)) [
    | inl found ↦ rw found refl
    | inr differs ↦ rw differs (says-add_symbol name s map)
  ])
]
says-add_symbol name s ((u, false) ∷ map) = elim (Bool-cases (same_text u s)) [
  | inl same ↦ rw (same, same_text-eq u s same) (kept name s false map)
  | inr other ↦ rw other (elim (Bool-cases (same_text u name)) [
    | inl found ↦ rw found refl
    | inr differs ↦ rw differs (says-add_symbol name s map)
  ])
]

or_else_assoc : (a b c : Option Bool) → or_else (or_else a b) c ≡ or_else a (or_else b c)
or_else_assoc none b c = refl
or_else_assoc (some d) b c = refl

pub says-extend_undefineds :
    (glbls cur : DefinedMap) → Extends glbls cur (extend_undefineds glbls cur)
unfolding refers extend_undefineds
says-extend_undefineds [] cur name = or_else-none (says name cur)
says-extend_undefineds ((s, true) ∷ glbls) cur name = says-extend_undefineds glbls cur name
says-extend_undefineds ((s, false) ∷ glbls) cur name =
    says-extend_undefineds glbls (add_symbol s false cur) name
    ∙ ap (λ o. or_else o (refers name glbls)) (says-add_symbol name s cur)
    ∙ or_else_assoc (says name cur) (if same_text s name then some false else none)
        (refers name glbls)
    ∙ ap (or_else (says name cur)) (if_none (same_text s name) (refers name glbls))

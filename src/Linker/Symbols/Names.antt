-- ===== src/Linker/Symbols/Names.antt =====
-- src/bin/tl.rs: what becomes of the symbols of a file when they are merged.
use mathlib.Core.Path.{subst}
use telda.Prelude.{
  ℕ, ◌≡◌, refl, sym, ap, List, [], ◌∷◌, ◌++◌, true, false, Option, none, some, arith, All, length,
  get_elem?,
}
use telda.Obj.{SegmentType, SymbolDefinition}
use telda.Source.Partial.{There, There-bind, There-if, There-map}
use telda.Source.Symbols.{modify_at}
use telda.Linker.Symbols.Merged.{merged-Stands, merged-Stands_new, merged-IsGlobal}
use telda.Linker.Symbols.Named.{
  At, IsGlobal, Stands, IsMerging, Keeps, Refers, At-append, At-last, At-modify_at, At-changed,
  All-evolves, Refers-append, lookup-IsGlobal, lookup_new, Keeps-new,
}
use telda.Linker.Symbols.{
  lookup, Merging, push_symbol, merged, merge_with, merge_global, merge_placed, moved,
  merge_symbols,
}

-- What merging keeps, with one more symbol, from the names that were found before.
abbrev IsMerged : List SymbolDefinition → List (List ℕ × ℕ) → Merging → Type 0
IsMerged seens before t = IsMerging seens t × Keeps before t.global_symbols

module _ (seens : List SymbolDefinition) (symdef : SymbolDefinition) (m : Merging)
    (h : IsMerging seens m) where
  -- A symbol at the end of the output, under a map that may have one more name.
  pushed :
      (globals : List (List ℕ × ℕ))
      → Keeps m.global_symbols globals
      → (symdef.is_global ≡ true → lookup symdef.name globals ≡ some (length m.symbols_out))
      → Refers
          (m.symbols_out ++ symdef ∷ [])
          globals
          (seens ++ symdef ∷ [])
          (m.file_symbol_to_out_symbol ++ length m.symbols_out ∷ [])
  pushed globals kept found =
      let out : List SymbolDefinition = m.symbols_out in
      Refers-append out (out ++ symdef ∷ []) m.global_symbols globals seens symdef
        m.file_symbol_to_out_symbol (length out)
        (record {
          of_name = λ name id n. At-append (IsGlobal name) out symdef id n;
          of_symbol = λ seen id n. At-append (Stands seen) out symdef id n;
          of_globals = kept;
        })
        h.1 (At-last (Stands symdef) out symdef (refl, refl, λ known. known, λ _. refl)) found

  named_still :
      All
        (λ (g : List ℕ × ℕ). At (m.symbols_out ++ symdef ∷ []) g.1 (IsGlobal g.0))
        m.global_symbols
  named_still =
      All-evolves m.symbols_out (m.symbols_out ++ symdef ∷ []) m.global_symbols
        (λ name id n. At-append (IsGlobal name) m.symbols_out symdef id n) h.0

  push_symbol-IsMerged :
      symdef.is_global ≡ false
      → IsMerged (seens ++ symdef ∷ []) m.global_symbols (push_symbol symdef m)
  push_symbol-IsMerged isolated = (
    (
      named_still,
      pushed m.global_symbols (λ name id e. e) λ global. absurd (ground (arith, isolated, global)),
    ),
    λ name id e. e,
  )

  module _ (global : symdef.is_global ≡ true) where
    merge_with-IsMerged :
        (id : ℕ) (o : Option SymbolDefinition)
        → get_elem? m.symbols_out id ≡ o
        → lookup symdef.name m.global_symbols ≡ some id
        → There (IsGlobal symdef.name) o
        → There (IsMerged (seens ++ symdef ∷ []) m.global_symbols) (merge_with id symdef m o)
    unfolding merge_with
    merge_with-IsMerged id none e found named = named
    merge_with-IsMerged id (some cur) e found named =
        let out : List SymbolDefinition = m.symbols_out in
        let out' : List SymbolDefinition = modify_at (merged symdef) id out in
        let name_kept : (name : List ℕ) (i : ℕ)
            → At out i (IsGlobal name)
            → At out' i (IsGlobal name) =
          λ name i n.
            At-modify_at (IsGlobal name) (merged symdef) out id i
              (subst (There (λ sd. IsGlobal name sd → IsGlobal name (merged symdef sd))) (sym e)
                (merged-IsGlobal symdef cur name named global))
              n in
        let symbol_kept : (seen : SymbolDefinition) (i : ℕ)
            → At out i (Stands seen)
            → At out' i (Stands seen) =
          λ seen i n.
            At-modify_at (Stands seen) (merged symdef) out id i
              (subst (There (λ sd. Stands seen sd → Stands seen (merged symdef sd))) (sym e)
                (merged-Stands symdef cur seen named global))
              n in
        (
          (
            All-evolves out out' m.global_symbols name_kept h.0,
            Refers-append out out' m.global_symbols m.global_symbols seens symdef
                m.file_symbol_to_out_symbol id
                (record {
                  of_name = name_kept;
                  of_symbol = symbol_kept;
                  of_globals = λ name i f. f;
                })
                h.1
                (At-changed (Stands symdef) (merged symdef) out id (
                  subst (There (λ sd. Stands symdef (merged symdef sd))) (sym e)
                    (merged-Stands_new symdef cur named global)))
                λ _. found,
          ),
          λ name i f. f,
        )

    merge_global-IsMerged :
        (o : Option ℕ)
        → lookup symdef.name m.global_symbols ≡ o
        → There (IsMerged (seens ++ symdef ∷ []) m.global_symbols) (merge_global symdef m o)
    unfolding merge_global
    merge_global-IsMerged none e =
        let out : List SymbolDefinition = m.symbols_out in
        let globals : List (List ℕ × ℕ) = (symdef.name, length out) ∷ m.global_symbols in
        let kept = Keeps-new symdef.name (length out) m.global_symbols e in
        (
          (
            (At-last (IsGlobal symdef.name) out symdef (refl, global), named_still),
            pushed globals kept λ _. lookup_new symdef.name (length out) m.global_symbols,
          ),
          kept,
        )
    merge_global-IsMerged (some id) e =
        merge_with-IsMerged id (get_elem? m.symbols_out id) refl e
          (lookup-IsGlobal m.symbols_out symdef.name m.global_symbols id h.0 e)

  merge_placed-IsMerged :
      There (IsMerged (seens ++ symdef ∷ []) m.global_symbols) (merge_placed false symdef m)
  unfolding merge_placed
  merge_placed-IsMerged =
      There-if (IsMerged (seens ++ symdef ∷ []) m.global_symbols) symdef.is_global
        (merge_global symdef m (lookup symdef.name m.global_symbols)) (some (push_symbol symdef m))
        (λ global. merge_global-IsMerged global (lookup symdef.name m.global_symbols) refl)
        push_symbol-IsMerged

-- The symbols of a file at their places in the output.
abbrev pub placed_symbols :
    (SegmentType → Option ℕ)
    → (SegmentType → Option ℕ)
    → List SymbolDefinition
    → List SymbolDefinition
placed_symbols file_start out_start [] = []
placed_symbols file_start out_start (s ∷ symbols) =
    moved file_start out_start s ∷ placed_symbols file_start out_start symbols

append_assoc :
    (seens : List SymbolDefinition) (s : SymbolDefinition) (rest : List SymbolDefinition)
    → (seens ++ s ∷ []) ++ rest ≡ seens ++ s ∷ rest
append_assoc [] s rest = refl
append_assoc (n ∷ seens) s rest = ap (λ l. n ∷ l) (append_assoc seens s rest)

append_nil : (seens : List SymbolDefinition) → seens ++ [] ≡ seens
append_nil [] = refl
append_nil (n ∷ seens) = ap (λ l. n ∷ l) (append_nil seens)

-- With the names of local symbols kept, merging the symbols of a file does not panic. In the
-- output, the file's index then has for each local symbol the symbol itself, and for each global
-- one the global symbol under which its name is found from then on, which is defined if the file
-- defines it. Names that were found before are found under the same index.
pub merge_symbols-IsMerging :
    (file_start out_start : SegmentType → Option ℕ) (symbols seens : List SymbolDefinition)
    (m : Merging)
    → IsMerging seens m
    → There
        (λ (t : Merging).
          IsMerging (seens ++ placed_symbols file_start out_start symbols) t
          × Keeps m.global_symbols t.global_symbols)
        (merge_symbols false file_start out_start symbols m)
unfolding merge_symbols
merge_symbols-IsMerging file_start out_start [] seens m h =
    (subst (λ l. IsMerging l m) (sym (append_nil seens)) h, λ name id e. e)
merge_symbols-IsMerging file_start out_start (s ∷ symbols) seens m h =
    let moved_s = moved file_start out_start s in
    let rest = placed_symbols file_start out_start symbols in
    There-bind (IsMerged (seens ++ moved_s ∷ []) m.global_symbols)
      (IsMerged (seens ++ moved_s ∷ rest) m.global_symbols) _ (merge_placed false moved_s m)
      (merge_placed-IsMerged seens moved_s m h)
      λ t placed.
        subst
          (λ l.
            There (IsMerged l m.global_symbols)
              (merge_symbols false file_start out_start symbols t))
          (append_assoc seens moved_s rest)
          (There-map (IsMerged ((seens ++ moved_s ∷ []) ++ rest) t.global_symbols)
            (IsMerged ((seens ++ moved_s ∷ []) ++ rest) m.global_symbols) _
            (merge_symbols-IsMerging file_start out_start symbols (seens ++ moved_s ∷ []) t
              placed.0)
            λ u k. (k.0, λ name id e. k.1 name id (placed.1 name id e)))

-- ===== src/Linker/Symbols/Merged.antt =====
-- src/bin/tl.rs: what becomes of two global symbols of one name.
use telda.Prelude.{ℕ, ◌≡◌, refl, sym, ◌∙◌, List, true, not, ◌&&◌, arith, Bool-cases, inl, inr}
use telda.Obj.{SymbolDefinition}
use telda.Assembler.{is_unknown}
use telda.Linker.Symbols.Named.{IsGlobal, Stands}
use telda.Linker.Symbols.{merged}

-- The merged symbol stands for whatever the earlier one stands for, and for the new one.
pub merged-Stands :
    (symdef cur seen : SymbolDefinition)
    → IsGlobal symdef.name cur
    → symdef.is_global ≡ true
    → Stands seen cur
    → Stands seen (merged symdef cur)
merged-Stands symdef cur seen is global h =
    elim (Bool-cases (not (is_unknown symdef.segment_type) && is_unknown cur.segment_type)) [
      | inl new ↦ rw new (
        sym is.0 ∙ h.0,
        global ∙ sym is.1 ∙ h.1,
        λ _. ground (arith, new),
        λ isolated. absurd (ground (arith, isolated, h.1, is.1)),
      )
      | inr old ↦ rw old h
    ]

pub merged-Stands_new :
    (symdef cur : SymbolDefinition)
    → IsGlobal symdef.name cur
    → symdef.is_global ≡ true
    → Stands symdef (merged symdef cur)
merged-Stands_new symdef cur is global =
    elim (Bool-cases (not (is_unknown symdef.segment_type) && is_unknown cur.segment_type)) [
      | inl new ↦ rw new (refl, refl, λ known. known, λ _. refl)
      | inr old ↦ rw old (
        is.0,
        is.1 ∙ sym global,
        λ known. ground (arith, old, known),
        λ isolated. absurd (ground (arith, isolated, global)),
      )
    ]

pub merged-IsGlobal :
    (symdef cur : SymbolDefinition) (name : List ℕ)
    → IsGlobal symdef.name cur
    → symdef.is_global ≡ true
    → IsGlobal name cur
    → IsGlobal name (merged symdef cur)
merged-IsGlobal symdef cur name is global h =
    elim (Bool-cases (not (is_unknown symdef.segment_type) && is_unknown cur.segment_type)) [
      | inl new ↦ rw new (sym is.0 ∙ h.0, global)
      | inr old ↦ rw old h
    ]

-- ===== src/Source/Resolve/Total.antt =====
-- src/source/mod.rs: the end of `process`.
use mathlib.Core.Path.{subst}
use telda.Align.{page_size}
use telda.Prelude.{
  sym, ℕ, ◌+◌, List, [], ◌∷◌, Option, none, some, arith, All, length, ◌≤◌, inl, inr,
}
use telda.Source.{Text, Address, Error, Checked, ok, err, panics}
use telda.Source.Partial.{There, There-map}
use telda.Source.Resolve.Counted.{Placed, Counted, zipped-Used, resolve-Counted}
use telda.Source.Symbols.{Symbols, into_iter, size}
use telda.Source.Symbols.Growth.{IsSymbols}
use telda.Source.Segments.{Segments, layout}
use telda.Source.Segments.Fits.{SegmentFits, layout-SegmentFits}
use telda.Source.Resolve.{Label, ProcessedSource, resolve, conclude, checked, finish}

-- A source that is ready for the assembler: its lines fit its labels.
abbrev pub Ready : ProcessedSource → Type 0
Ready p = All (SegmentFits (length p.labels)) p.dls × All Placed p.labels

-- Errors, or a source that is ready.
abbrev pub Finished : Checked (List Error) ProcessedSource → Type 0
Finished (ok p) = Ready p
Finished (err errors) = 1 ≤ length errors
Finished panics = ⊥

conclude-Finished :
    (n : ℕ) (dls : Segments) (entry : Option Address) (labels : List Label) (errors : List Error)
    → All (SegmentFits n) dls
    → Counted n (labels, errors)
    → Finished (conclude dls entry labels errors)
unfolding conclude
conclude-Finished n dls entry labels (e ∷ errors) fits counted = omega arith
conclude-Finished n dls none labels [] fits (inl failed) = absurd (omega arith)
conclude-Finished n dls (some a) labels [] fits (inl failed) = absurd (omega arith)
conclude-Finished n dls none labels [] fits (inr (e, placed)) =
    (subst (λ m. All (SegmentFits m) dls) (sym e) fits, placed)
conclude-Finished n dls (some a) labels [] fits (inr (e, placed)) =
    (subst (λ m. All (SegmentFits m) dls) (sym e) fits, placed)

checked-Finished :
    (n : ℕ) (dls : Segments) (entry : Option Address) (o : Option (List Label × List Error))
    → All (SegmentFits n) dls
    → There (Counted n) o
    → Finished (checked o λ (labels, errors). conclude dls entry labels errors)
checked-Finished n dls entry none fits counted = counted
checked-Finished n dls entry (some (labels, errors)) fits counted =
    conclude-Finished n dls entry labels errors fits counted

-- The end of `process` comes to a source that is ready, or to errors: the panic on a label that is
-- neither defined nor used does not happen.
pub finish-Finished :
    (src : Text) (errors : List Error) (dls : Segments) (entry : Option Address) (symbols : Symbols)
    → IsSymbols symbols
    → All (SegmentFits (size symbols)) dls
    → Finished (finish src errors dls entry symbols)
unfolding finish into_iter size IsSymbols
finish-Finished src errors dls entry symbols kept fits =
    let z = zipped-Used symbols.labels symbols.symbol_types symbols.id_to_pos kept.0 kept.1 in
    let laid : Segments = layout page_size dls in
    checked-Finished (length symbols.labels) laid entry
      (resolve src laid (into_iter symbols) [] errors)
      (layout-SegmentFits (length symbols.labels) dls fits page_size)
      (There-map (Counted (0 + length (into_iter symbols))) (Counted (length symbols.labels))
        (resolve src laid (into_iter symbols) [] errors)
        (resolve-Counted src laid (into_iter symbols) [] errors z.0 tt)
        λ r counted. elim counted [
          | inl failed ↦ inl failed
          | inr (e, placed) ↦ inr (omega (arith, e, z.1), placed)
        ])

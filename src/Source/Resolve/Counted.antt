-- ===== src/Source/Resolve/Counted.antt =====
-- src/source/mod.rs: the labels of a processed source, counted against the symbols.
use telda.Prelude.{
  ℕ, ◌+◌, ◌≡◌, refl, List, [], ◌∷◌, arith, All, All-append, length, length-append, ◌≢◌, ◌⊎◌, ◌≤◌,
  inl, inr,
}
use telda.Obj.{unknown}
use telda.Source.{Text, Error, Checked, ok, err, panics}
use telda.Source.Partial.{There, There-bind, There-map}
use telda.Source.Symbols.{SymbolType, internal, global, reference, Position, defined, used, zipped}
use telda.Source.Symbols.Growth.{Used}
use telda.Source.Segments.{Segments}
use telda.Source.Resolve.{Label, use_errors, resolve_symbol, resolved, resolve, never_defined_at}

-- The position of a symbol is used or defined.
abbrev pub UsedSymbol : Text × SymbolType × Position → Type 0
UsedSymbol (l, t, p) = Used p

pub zipped-Used :
    (labels : List Text) (types : List SymbolType) (positions : List Position)
    → length positions ≡ length labels
    → All Used positions
    → All UsedSymbol (zipped labels types positions)
      × (length (zipped labels types positions) ≡ length labels)
unfolding zipped
zipped-Used [] types positions e h = (tt, refl)
zipped-Used (l ∷ labels) types [] e h = absurd (omega arith)
zipped-Used (l ∷ labels) [] (p ∷ positions) e h =
    let rest = zipped-Used labels [] positions (omega (arith, e)) h.1 in
    ((h.0, rest.0), omega (arith, rest.1))
zipped-Used (l ∷ labels) (t ∷ types) (p ∷ positions) e h =
    let rest = zipped-Used labels types positions (omega arith) h.1 in
    ((h.0, rest.0), omega (arith, rest.1))

-- A label that is a reference has no segment.
abbrev pub Placed : Label → Type 0
Placed l = (l.symbol_type ≢ reference) ⊎ (l.segment_type ≡ unknown)

-- A label, or errors, of which there is one at least.
abbrev Resolved : Checked (List Error) Label → Type 0
Resolved (ok label) = Placed label
Resolved (err errors) = 1 ≤ length errors
Resolved panics = ⊥

internal_ne : internal ≢ reference
internal_ne e = ground (arith, e)

global_ne : global ≢ reference
global_ne e = ground (arith, e)

resolve_symbol-Resolved :
    (src : Text) (dls : Segments) (l : Text) (t : SymbolType) (p : Position)
    → Used p
    → Resolved (resolve_symbol src dls (l, t, p))
unfolding resolve_symbol use_errors
resolve_symbol-Resolved src dls l reference (defined a) h = omega arith
resolve_symbol-Resolved src dls l internal (defined a) h = inl internal_ne
resolve_symbol-Resolved src dls l global (defined a) h = inl global_ne
resolve_symbol-Resolved src dls l internal (used []) h = absurd (ground (arith, h))
resolve_symbol-Resolved src dls l internal (used (loc ∷ uses)) h =
    omega (arith, length-append (use_errors l uses) (never_defined_at l loc ∷ []))
resolve_symbol-Resolved src dls l reference (used uses) h = inr refl
resolve_symbol-Resolved src dls l global (used uses) h = inr refl

abbrev pub Failed : List Label × List Error → Type 0
Failed (labels, errors) = 1 ≤ length errors

-- There are errors, or a number of labels with their segments.
abbrev pub Counted : ℕ → List Label × List Error → Type 0
Counted n (labels, errors) = (1 ≤ length errors) ⊎ ((length labels ≡ n) × All Placed labels)

resolved-Failed :
    (r : Checked (List Error) Label) (labels : List Label) (errors : List Error)
    → Resolved r
    → 1 ≤ length errors
    → There Failed (resolved r labels errors)
unfolding resolved
resolved-Failed (ok label) labels errors h failed = failed
resolved-Failed (err more) labels errors h failed = omega (arith, length-append errors more)
resolved-Failed panics labels errors h failed = h

resolve-Failed :
    (src : Text) (dls : Segments) (symbols : List (Text × SymbolType × Position))
    (labels : List Label) (errors : List Error)
    → All UsedSymbol symbols
    → 1 ≤ length errors
    → There Failed (resolve src dls symbols labels errors)
unfolding resolve
resolve-Failed src dls [] labels errors h failed = failed
resolve-Failed src dls ((l, t, p) ∷ symbols) labels errors h failed =
    There-bind Failed Failed _ (resolved (resolve_symbol src dls (l, t, p)) labels errors)
      (resolved-Failed (resolve_symbol src dls (l, t, p)) labels errors
        (resolve_symbol-Resolved src dls l t p h.0) failed)
      λ r more. resolve-Failed src dls symbols r.0 r.1 h.1 more

-- Errors, or one label more.
abbrev Next : List Label → List Label × List Error → Type 0
Next labels (labels', errors') =
    (1 ≤ length errors') ⊎ ((length labels' ≡ length labels + 1) × All Placed labels')

resolved-Next :
    (r : Checked (List Error) Label) (labels : List Label) (errors : List Error)
    → Resolved r
    → All Placed labels
    → There (Next labels) (resolved r labels errors)
unfolding resolved
resolved-Next (ok label) labels errors h placed =
    inr (length-append labels (label ∷ []), All-append Placed labels label placed h)
resolved-Next (err more) labels errors h placed = inl (omega (arith, length-append errors more))
resolved-Next panics labels errors h placed = h

-- Errors already there stay; without them there is a label for each symbol.
pub resolve-Counted :
    (src : Text) (dls : Segments) (symbols : List (Text × SymbolType × Position))
    (labels : List Label) (errors : List Error)
    → All UsedSymbol symbols
    → All Placed labels
    → There (Counted (length labels + length symbols)) (resolve src dls symbols labels errors)
unfolding resolve
resolve-Counted src dls [] labels errors h placed = inr (omega arith, placed)
resolve-Counted src dls ((l, t, p) ∷ symbols) labels errors h placed =
    There-bind (Next labels) (Counted (length labels + length ((l, t, p) ∷ symbols))) _
      (resolved (resolve_symbol src dls (l, t, p)) labels errors)
      (resolved-Next (resolve_symbol src dls (l, t, p)) labels errors
        (resolve_symbol-Resolved src dls l t p h.0) placed)
      λ r next. elim next [
        | inl failed ↦
            There-map Failed (Counted (length labels + length ((l, t, p) ∷ symbols)))
              (resolve src dls symbols r.0 r.1) (resolve-Failed src dls symbols r.0 r.1 h.1 failed)
              λ r more. inl more
        | inr (one_more, placed') ↦
            There-map (Counted (length r.0 + length symbols))
              (Counted (length labels + length ((l, t, p) ∷ symbols)))
              (resolve src dls symbols r.0 r.1)
              (resolve-Counted src dls symbols r.0 r.1 h.1 placed')
              λ r counted. elim counted [
                | inl failed ↦ inl failed
                | inr (e, all_placed) ↦ inr (omega (arith, e, one_more), all_placed)
              ]
      ]

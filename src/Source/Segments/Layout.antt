-- ===== src/Source/Segments/Layout.antt =====
-- src/source/mod.rs: where `process` puts the segments.
use telda.Prelude.{ℕ, ◌+◌, ◌%◌, ◌^◌, ◌≤◌, ◌<◌, ◌≡◌, refl, [], ◌∷◌, arith, add16}
use telda.Align.{page_size, align_end}
use telda.Align.Bounds.{align_end-IsCeiling}
use telda.Source.Segments.{Segments, layout}

-- The bytes of the segments, and a page for the gap before each.
unfoldable pub needed : Segments → ℕ
needed [] = 0
needed ((st, s) ∷ dls) = page_size + s.size + needed dls

-- The second segments are the first ones in their order, each as it was but for its start, which is
-- at a page after the segment before it, with less than a page between them.
unfoldable pub LaidOut : ℕ → Segments → Segments → Type 0
LaidOut low [] [] = Unit
LaidOut low [] (placed ∷ out) = ⊥
LaidOut low ((st, s) ∷ dls) [] = ⊥
LaidOut low ((st, s) ∷ dls) ((placed_st, placed) ∷ out) =
    (placed_st ≡ st)
    × (placed ≡ record s { start = placed.start })
    × (low ≤ placed.start)
    × (placed.start < low + page_size)
    × (placed.start % page_size ≡ 0)
    × LaidOut (placed.start + s.size) dls out

-- Segments that fit into the address space, with a page for the gap before each and one at the
-- end, are laid out without overlap: there are the same segments in the same order, each with its
-- lines and its size, and each at the first page that is free.
pub layout-LaidOut :
    (dls : Segments) (end : ℕ)
    → end + needed dls + page_size ≤ 2 ^ 16
    → LaidOut end dls (layout end dls)
unfolding needed LaidOut layout
layout-LaidOut [] end room = tt
layout-LaidOut ((st, s) ∷ dls) end room =
    let (aligned, above, below) =
      align_end-IsCeiling 7 end (omega arith) (omega arith) (omega arith) in
    let start : ℕ = align_end end page_size in
    let next : add16 start s.size ≡ start + s.size = omega (arith, below, room) in
    let room' : start + s.size + needed dls + page_size ≤ 2 ^ 16 = omega (arith, below, room) in
    (refl, refl, above, below, aligned, rw next (layout-LaidOut dls (start + s.size) room'))

-- ===== src/Assembler/Written.antt =====
-- src/bin/tc.rs: the segments that are written, and those of the reads in them.
use telda.Prelude.{
  ℕ, ◌≡◌, refl, sym, ap, ◌∙◌, List, [], ◌∷◌, some, Bool, true, false, arith, All, length,
  Bool-cases, inl, inr, ◌==◌, ==_refl, if◌then◌else◌, u16,
}
use telda.Obj.{SegmentType}
use telda.Obj.Sections.{segment_type_code}
use telda.Source.Partial.{There}
use telda.Source.Segments.{Segments, DataLineSegment, get}
use telda.Source.Segments.Fits.{SegmentFits}
use telda.Source.Resolve.{Label}
use telda.Assembler.{Reads, write_lines, write_segments, segment_offset}
use telda.Assembler.Code.{Known, Recorded, write_lines-Recorded, write_lines-length}

abbrev pub Bytes : Type 0
Bytes = List (SegmentType × ℕ × List ℕ)

-- What the segments of a source become: with the start of each, and the number of bytes that its size
-- says.
abbrev pub SegmentsWritten : Segments → Bytes → Type 0
SegmentsWritten [] [] = Unit
SegmentsWritten [] (seg ∷ segs) = ⊥
SegmentsWritten ((st, s) ∷ dls) [] = ⊥
SegmentsWritten ((st, s) ∷ dls) ((t, start, mem) ∷ segs) =
    ((t ≡ st) × (start ≡ s.start) × (u16 (length mem) ≡ s.size)) × SegmentsWritten dls segs

-- The keys of some segments are those of others.
abbrev pub Keys : Segments → Segments → Type 0
Keys all dls = All (λ (e : SegmentType × DataLineSegment). Known all e.0) dls

Known-after :
    (st t : SegmentType) (s : DataLineSegment) (dls : Segments)
    → Known dls t
    → Known ((st, s) ∷ dls) t
unfolding get
Known-after st t s dls h = elim (Bool-cases (segment_type_code st == segment_type_code t)) [
  | inl e ↦ rw e tt
  | inr e ↦ rw e h
]

Keys-after :
    (st : SegmentType) (s : DataLineSegment) (all dls : Segments)
    → Keys all dls
    → Keys ((st, s) ∷ all) dls
Keys-after st s all [] h = tt
Keys-after st s all ((t, u) ∷ dls) h = (Known-after st t s all h.0, Keys-after st s all dls h.1)

pub Keys-self : (dls : Segments) → Keys dls dls
unfolding get
Keys-self [] = tt
Keys-self ((st, s) ∷ dls) =
    (rw (==_refl (segment_type_code st)) tt, Keys-after st s dls dls (Keys-self dls))

module _ (all : Segments) (labels : List Label) where
  pub write_segments-Recorded :
      (dls : Segments) (reads : Reads)
      → Keys all dls
      → All (SegmentFits (length labels)) dls
      → Recorded all (length labels) reads
      → Recorded all (length labels) (write_segments labels dls reads).1
        × SegmentsWritten dls (write_segments labels dls reads).0
  unfolding write_segments
  write_segments-Recorded [] reads keys fits h = (h, tt)
  write_segments-Recorded ((st, s) ∷ dls) reads keys fits h =
      let r : List ℕ × Reads = write_lines labels st s.start s.lines [] reads in
      let rest =
        write_segments-Recorded dls r.1 keys.1 fits.1
          (write_lines-Recorded all labels st keys.0 s.start s.lines [] reads fits.0.0 h) in
      let written : u16 (length r.0) ≡ s.size =
        omega (arith, write_lines-length labels st s.start s.lines [] reads, fits.0.1) in
      (rest.0, ((refl, refl, written), rest.1))

-- The segment of a read has an offset in what was written.
pub segment_offset-There :
    (dls : Segments) (segs : Bytes) (st : SegmentType)
    → SegmentsWritten dls segs
    → Known dls st
    → There (λ (offset : ℕ). Unit {0}) (segment_offset st segs)
unfolding get segment_offset
segment_offset-There [] [] st w h = h
segment_offset-There [] (seg ∷ segs) st w h = absurd w
segment_offset-There (d ∷ dls) [] st w h = absurd w
segment_offset-There ((st', s) ∷ dls) ((t, start, mem) ∷ segs) st w h =
    elim (Bool-cases (segment_type_code t == segment_type_code st)) [
      | inl e ↦ rw e tt
      | inr e ↦ rw e (
          segment_offset-There dls segs st w.1 (
            later (segment_type_code st' == segment_type_code st)
              (sym (ap (λ u. segment_type_code u == segment_type_code st) w.0.0) ∙ e) h))
    ]
  where
    later :
        (b : Bool)
        → b ≡ false
        → There (λ (s : DataLineSegment). Unit {0}) (if b then some s else get st dls)
        → Known dls st
    later true e h = absurd (ground (arith, e))
    later false e h = h

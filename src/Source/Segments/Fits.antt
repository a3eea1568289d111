-- ===== src/Source/Segments/Fits.antt =====
-- src/source/mod.rs: what the lines of a segment are, and the adding of a line.
use telda.Prelude.{
  ℕ, ◌+◌, ◌≤◌, ◌≡◌, List, [], ◌∷◌, ◌++◌, arith, All, All-append, Bool-cases, inl, inr, ◌==◌, ltb,
  u16, length,
}
use telda.Obj.{SegmentType}
use telda.Obj.Sections.{segment_type_code}
use telda.Source.{
  Wide, DataOperand, nothing, byte_register, wide_register, immediate_byte, immediate_wide,
  byte_imm, wide_imm, wide_imm_byte, wide_imm_wide, two_wide_one_byte, byte_wide_imm, two_wide_imm,
  byte_two_wide, three_byte, three_wide, four_byte, four_wide,
}
use telda.Source.Operand.{size}
use telda.Source.Operand.Format.{form_for, operand_form, Fits, WideFits}
use telda.Source.Segments.{
  DataLine, ins, wide, raw, DataLineSegment, Segments, update, add_to, no_lines, layout,
}

-- How many bytes a line stands for.
unfoldable pub line_size : DataLine → ℕ
line_size (ins opcode d) = 1 + size d
line_size (wide w) = 2
line_size (raw bytes) = length bytes

unfoldable pub lines_size : List DataLine → ℕ
lines_size [] = 0
lines_size (line ∷ lines) = line_size line + lines_size lines

-- Instructions have the format of their opcode, and labels have an id below a bound.
abbrev pub LineFits : ℕ → DataLine → Type 0
LineFits n (ins opcode d) = Fits n d × (form_for opcode d ≡ operand_form opcode)
LineFits n (wide w) = WideFits n w
LineFits n (raw bytes) = Unit

-- And the size of the segment is that of its lines, at sixteen bits.
abbrev pub SegmentFits : ℕ → SegmentType × DataLineSegment → Type 0
SegmentFits n (st, s) = All (LineFits n) s.lines × (s.size ≡ u16 (lines_size s.lines))

WideFits-mono : (n m : ℕ) (w : Wide) → n ≤ m → WideFits n w → WideFits m w
WideFits-mono n m (Wide.number a) le h = tt
WideFits-mono n m (Wide.label id) le h = omega arith

Fits-mono : (n m : ℕ) (d : DataOperand) → n ≤ m → Fits n d → Fits m d
Fits-mono n m nothing le h = tt
Fits-mono n m (byte_register a) le h = tt
Fits-mono n m (wide_register a) le h = tt
Fits-mono n m (immediate_byte a) le h = tt
Fits-mono n m (immediate_wide w) le h = WideFits-mono n m w le h
Fits-mono n m (byte_imm a b) le h = tt
Fits-mono n m (wide_imm a w) le h = WideFits-mono n m w le h
Fits-mono n m (wide_imm_byte a w b) le h = WideFits-mono n m w le h
Fits-mono n m (wide_imm_wide a w b) le h = WideFits-mono n m w le h
Fits-mono n m (two_wide_one_byte a b c) le h = tt
Fits-mono n m (byte_wide_imm a b w) le h = WideFits-mono n m w le h
Fits-mono n m (two_wide_imm a b w) le h = WideFits-mono n m w le h
Fits-mono n m (byte_two_wide a b c) le h = tt
Fits-mono n m (three_byte a b c) le h = tt
Fits-mono n m (three_wide a b c) le h = tt
Fits-mono n m (four_byte a b c d) le h = tt
Fits-mono n m (four_wide a b c d) le h = tt

LineFits-mono : (n m : ℕ) (line : DataLine) → n ≤ m → LineFits n line → LineFits m line
LineFits-mono n m (ins opcode d) le h = (Fits-mono n m d le h.0, h.1)
LineFits-mono n m (wide w) le h = WideFits-mono n m w le h
LineFits-mono n m (raw bytes) le h = tt

lines_mono :
    (n m : ℕ) (lines : List DataLine) → n ≤ m → All (LineFits n) lines → All (LineFits m) lines
lines_mono n m [] le h = tt
lines_mono n m (line ∷ lines) le h = (LineFits-mono n m line le h.0, lines_mono n m lines le h.1)

-- More labels keep the segments.
pub SegmentFits-mono :
    (n m : ℕ) (dls : Segments) → n ≤ m → All (SegmentFits n) dls → All (SegmentFits m) dls
SegmentFits-mono n m [] le h = tt
SegmentFits-mono n m ((st, s) ∷ dls) le h =
    ((lines_mono n m s.lines le h.0.0, h.0.1), SegmentFits-mono n m dls le h.1)

lines_size-append :
    (lines : List DataLine) (line : DataLine)
    → lines_size (lines ++ line ∷ []) ≡ lines_size lines + line_size line
unfolding lines_size
lines_size-append [] line = omega arith
lines_size-append (l ∷ lines) line = omega (arith, lines_size-append lines line)

All-update :
    {V : Type 0} (P : SegmentType × V → Type 0) (default : V) (f : V → V)
    (kept : (st : SegmentType) (v : V) → P (st, v) → P (st, f v))
    (first : (st : SegmentType) → P (st, f default)) (st : SegmentType)
    (dls : List (SegmentType × V))
    → All P dls
    → All P (update default f st dls)
unfolding update
All-update P default f kept first st [] h = (first st, tt)
All-update P default f kept first st ((t, v) ∷ dls) h =
    elim (Bool-cases (segment_type_code t == segment_type_code st)) [
      | inl same ↦ rw same (kept t v h.0, h.1)
      | inr other ↦ elim (Bool-cases (ltb (segment_type_code st) (segment_type_code t))) [
        | inl before ↦ rw (other, before) (first st, h)
        | inr after ↦ rw (other, after) (h.0, All-update P default f kept first st dls h.1)
      ]
    ]

-- A line with its size, at the end of a segment.
pub add_line-SegmentFits :
    (n : ℕ) (line : DataLine) (k : ℕ) (st : SegmentType) (dls : Segments)
    → LineFits n line
    → k ≡ u16 (line_size line)
    → All (SegmentFits n) dls
    → All (SegmentFits n) (update no_lines (add_to line k) st dls)
unfolding lines_size
add_line-SegmentFits n line k st dls fits e h =
    All-update (SegmentFits n) no_lines (add_to line k) kept first st dls h
  where
    kept :
        (st : SegmentType) (s : DataLineSegment)
        → SegmentFits n (st, s)
        → SegmentFits n (st, add_to line k s)
    kept st s h = (
      All-append (LineFits n) s.lines line h.0 fits,
      omega (arith, e, h.1, lines_size-append s.lines line),
    )

    first : (st : SegmentType) → SegmentFits n (st, add_to line k no_lines)
    first st = ((fits, tt), omega (arith, e))

-- The layout only sets the starts.
pub layout-SegmentFits :
    (n : ℕ) (dls : Segments)
    → All (SegmentFits n) dls
    → (end : ℕ) → All (SegmentFits n) (layout end dls)
unfolding layout
layout-SegmentFits n [] h end = tt
layout-SegmentFits n ((st, s) ∷ dls) h end = (h.0, layout-SegmentFits n dls h.1 _)

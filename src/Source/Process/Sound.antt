-- ===== src/Source/Process/Sound.antt =====
-- src/source/mod.rs: the state and the symbols, line by line.
use telda.Prelude.{
  ℕ, ◌+◌, ◌≡◌, refl, List, [], ◌∷◌, Option, none, some, arith, All, Bool-cases, inl, inr, u16,
  length,
}
use telda.Obj.{SegmentType}
use telda.Source.{Text, Wide, DataOperand, Error, Address}
use telda.Source.Partial.{Given, Given-bind}
use telda.Source.Symbols.{Symbols, size, get_label, set_global, set_reference}
use telda.Source.Symbols.Growth.{
  IsSymbols, Grown, set_label-Grown, get_label-Grown, set_global-Grown, set_reference-Grown,
}
use telda.Source.Operand.{size as operand_size, size_le}
use telda.Source.Ins.{ParsedIns, parsed, unknown, incorrect}
use telda.Source.Ins.Format.{Parses}
use telda.Source.Ins.Format.Arms.{parse_ins-Parses}
use telda.Source.Line.{
  SourceLine, WideLiteral, label, ins, comment, dir_include, dir_string, dir_byte, dir_wide,
  dir_global, dir_reference, dir_seg, dir_entry, literal, label_name,
}
use telda.Source.Line.Parse.{named}
use telda.Source.Segments.{DataLine, raw, wide, ProcessState, add_line, unknown_defined}
use telda.Source.Segments.Fits.{
  SegmentFits, LineFits, SegmentFits-mono, add_line-SegmentFits, line_size,
}
use telda.Source.Process.{
  Working, Include, check_segment, with_line, here, at, segment_names, start_segment, process_seg,
  set_entry, process_entry, label_set, process_label, add_ins, process_ins, labelled, process_wide,
  after_include, process_include, inner_process_line,
}

-- Labels that are used or defined, and segments whose lines fit them and have their size.
abbrev pub Sound : ProcessState → Symbols → Type 0
Sound state symbols = IsSymbols symbols × All (SegmentFits (size symbols)) state.dls

abbrev pub SoundWork : List Error × Working → Type 0
SoundWork (errors, w) = Sound w.state w.symbols

abbrev pub SoundFile : List Error × ProcessState × Symbols → Type 0
SoundFile (errors, state, symbols) = Sound state symbols

-- An inclusion that keeps it.
abbrev pub Includes : Include → Type 0
Includes include =
    (src path : Text) (state : ProcessState) (symbols : Symbols)
    → Sound state symbols
    → Given SoundFile (include src path state symbols)

check_segment-Sound :
    (src : Text) (ln : ℕ) (w : Working)
    → Sound w.state w.symbols
    → Given SoundWork (check_segment src ln w)
unfolding check_segment
check_segment-Sound src ln w h = elim (Bool-cases (unknown_defined w.state)) [
  | inl e ↦ rw e h
  | inr e ↦ rw e h
]

-- Symbols that have grown.
Grown-Sound : (state : ProcessState) (s t : Symbols) → Sound state s → Grown s t → Sound state t
Grown-Sound state s t h g = (g.0, SegmentFits-mono (size s) (size t) state.dls g.1 h.1)

with_line-Sound :
    (line : DataLine) (k : ℕ) (w : Working)
    → LineFits (size w.symbols) line
    → k ≡ u16 (line_size line)
    → Sound w.state w.symbols
    → Sound (with_line line k w).state w.symbols
unfolding add_line
with_line-Sound line k w fits e h =
    (h.0, add_line-SegmentFits (size w.symbols) line k w.current_segment w.state.dls fits e h.1)

process_seg-Sound :
    (src : Text) (ln : ℕ) (seg : Text) (found : Option SegmentType) (w : Working)
    → Sound w.state w.symbols
    → Given SoundWork (start_segment src ln seg found w)
unfolding start_segment
process_seg-Sound src ln seg none w h = h
process_seg-Sound src ln seg (some st) w h =
    check_segment-Sound src ln (record w { current_segment = st }) h

process_entry-Sound :
    (src : Text) (ln : ℕ) (entry : Option Address) (w : Working)
    → Sound w.state w.symbols
    → Given SoundWork (set_entry src ln entry w)
unfolding set_entry
process_entry-Sound src ln (some _) w h = h
process_entry-Sound src ln none w h = check_segment-Sound src ln _ h

label_set-Sound :
    (src : Text) (ln : ℕ) (result : Option Error) (w : Working)
    → Sound w.state w.symbols
    → Given SoundWork (label_set src ln result w)
unfolding label_set
label_set-Sound src ln (some e) w h = h
label_set-Sound src ln none w h = check_segment-Sound src ln w h

process_label-Sound :
    (src : Text) (ln : ℕ) (s : Text) (w : Working)
    → Sound w.state w.symbols
    → Given SoundWork (process_label src ln s w)
unfolding process_label
process_label-Sound src ln s w h =
    label_set-Sound src ln _ _
      (Grown-Sound w.state w.symbols _ h (set_label-Grown s (here w) (at src ln) w.symbols h.0))

-- The size of an instruction needs no wrapping.
size_small : (d : DataOperand) → 1 + operand_size d ≡ u16 (1 + operand_size d)
size_small d = omega (arith, size_le d)

add_ins-Sound :
    (src : Text) (ln : ℕ) (s : Text) (w : Working) (r : ParsedIns × Symbols)
    → Sound w.state w.symbols
    → Parses w.symbols r
    → Given SoundWork (add_ins src ln s r.0 (record w { symbols = r.1 }))
unfolding add_ins line_size
add_ins-Sound src ln s w (parsed opcode d, t) h p = check_segment-Sound src ln _ (
    with_line-Sound (DataLine.ins opcode d) (1 + operand_size d) (record w { symbols = t }) p.1
      (size_small d) (Grown-Sound w.state w.symbols t h p.0))
add_ins-Sound src ln s w (unknown, t) h p = Grown-Sound w.state w.symbols t h p.0
add_ins-Sound src ln s w (incorrect message, t) h p = Grown-Sound w.state w.symbols t h p.0
add_ins-Sound src ln s w (ParsedIns.panics, t) h p = tt

labelled-Sound :
    (src : Text) (ln : ℕ) (l : Text) (f : ℕ → Symbols → Symbols) (w : Working)
    → ((id : ℕ) (s : Symbols) → IsSymbols s → Grown s (f id s))
    → Sound w.state w.symbols
    → Sound w.state (labelled src ln l f w).1.symbols
labelled-Sound src ln l f w grows h =
    let got = get_label-Grown l (at src ln) w.symbols h.0 in
    let r : ℕ × Symbols = get_label l (at src ln) w.symbols in
    Grown-Sound w.state r.1 (f r.0 r.1) (Grown-Sound w.state w.symbols r.1 h got.0)
      (grows r.0 r.1 got.0.0)

process_wide-Sound :
    (src : Text) (ln : ℕ) (n : WideLiteral) (w : Working)
    → Sound w.state w.symbols
    → Given SoundWork (process_wide src ln n w)
unfolding process_wide line_size
process_wide-Sound src ln (literal n) w h =
    check_segment-Sound src ln _ (with_line-Sound (wide (Wide.number n)) 2 w tt (omega arith) h)
process_wide-Sound src ln (label_name l) w h =
    let got = get_label-Grown l (at src ln) w.symbols h.0 in
    let r : ℕ × Symbols = get_label l (at src ln) w.symbols in
    check_segment-Sound src ln _ (
      with_line-Sound (wide (Wide.label r.0)) 2 (record w { symbols = r.1 }) got.1 (omega arith)
        (Grown-Sound w.state w.symbols r.1 h got.0))

after_include-Sound :
    (src : Text) (ln : ℕ) (errors : List Error) (w : Working)
    → Sound w.state w.symbols
    → Given SoundWork (after_include src ln errors w)
unfolding after_include
after_include-Sound src ln [] w h = check_segment-Sound src ln w h
after_include-Sound src ln (e ∷ errors) w h = h

-- Each line of a source file, whatever it does, keeps what is sound.
pub inner_process_line-Sound :
    (include : Include)
    → Includes include
    → (src : Text) (ln : ℕ) (line : SourceLine) (w : Working) → Sound w.state w.symbols
    → Given SoundWork (inner_process_line include src ln line w)
unfolding inner_process_line process_seg process_entry process_ins process_include line_size
inner_process_line-Sound include incl src ln (dir_seg seg) w h =
    process_seg-Sound src ln seg (named seg segment_names) w h
inner_process_line-Sound include incl src ln dir_entry w h =
    process_entry-Sound src ln w.state.entry w h
inner_process_line-Sound include incl src ln (label s) w h = process_label-Sound src ln s w h
inner_process_line-Sound include incl src ln (ins s ops) w h =
    add_ins-Sound src ln s w _ h (parse_ins-Parses s ops (at src ln) w.symbols h.0)
inner_process_line-Sound include incl src ln (dir_byte b) w h =
    check_segment-Sound src ln _ (with_line-Sound (raw (b ∷ [])) 1 w tt (omega arith) h)
inner_process_line-Sound include incl src ln (dir_wide n) w h = process_wide-Sound src ln n w h
inner_process_line-Sound include incl src ln (dir_string s) w h =
    check_segment-Sound src ln _ (with_line-Sound (raw s) (u16 (length s)) w tt refl h)
inner_process_line-Sound include incl src ln (dir_include path) w h =
    Given-bind SoundFile SoundWork _ (include src path w.state w.symbols)
      (incl src path w.state w.symbols h) λ r sound. after_include-Sound src ln r.0 _ sound
inner_process_line-Sound include incl src ln (dir_global l) w h =
    check_segment-Sound src ln _ (labelled-Sound src ln l set_global w set_global-Grown h)
inner_process_line-Sound include incl src ln (dir_reference l) w h =
    check_segment-Sound src ln _ (labelled-Sound src ln l set_reference w set_reference-Grown h)
inner_process_line-Sound include incl src ln comment w h = check_segment-Sound src ln w h

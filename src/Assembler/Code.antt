-- ===== src/Assembler/Code.antt =====
-- src/bin/tc.rs: the bytes and the label reads that the lines of a segment give.
use telda.Prelude.{
  ℕ, zero, suc, ◌+◌, ◌<◌, ◌≡◌, ◌∙◌, List, [], ◌∷◌, ◌++◌, Option, none, some, arith, All, All-append,
  length, get_elem?, length-append,
}
use telda.Obj.{SegmentType}
use telda.Source.{Wide, LabelRead}
use telda.Source.Partial.{There}
use telda.Source.Symbols.Growth.{length-modify_at, All-modify_at}
use telda.Source.Segments.{Segments, DataLineSegment, DataLine, ins, wide, raw, get}
use telda.Source.Segments.Fits.{LineFits, line_size, lines_size}
use telda.Source.Encode.Written.{write_data_operand-length, write_data_operand-keeps}
use telda.Source.Resolve.{Label}
use telda.Assembler.{Reads, push_read, read_at, read_label, write_line, write_lines}

pub write_line-length :
    (labels : List Label) (st : SegmentType) (start : ℕ) (line : DataLine) (mem : List ℕ)
    (reads : Reads)
    → length (write_line labels st start line mem reads).0 ≡ length mem + line_size line
unfolding write_line line_size
write_line-length labels st start (raw bytes) mem reads = length-append mem bytes
write_line-length labels st start (wide (Wide.number w)) mem reads = length-append mem _
write_line-length labels st start (wide (Wide.label id)) mem reads = length-append mem _
write_line-length labels st start (ins opcode d) mem reads = omega (
  arith,
  write_data_operand-length (read_label labels) st d (mem ++ opcode ∷ []) reads,
  length-append mem (opcode ∷ []),
)

pub write_lines-length :
    (labels : List Label) (st : SegmentType) (start : ℕ) (lines : List DataLine) (mem : List ℕ)
    (reads : Reads)
    → length (write_lines labels st start lines mem reads).0 ≡ length mem + lines_size lines
unfolding write_lines lines_size
write_lines-length labels st start [] mem reads = omega arith
write_lines-length labels st start (line ∷ lines) mem reads =
    let r : List ℕ × Reads = write_line labels st start line mem reads in
    omega (
      arith,
      write_line-length labels st start line mem reads,
      write_lines-length labels st start lines r.0 r.1,
    )

-- A segment that the source has.
abbrev pub Known : Segments → SegmentType → Type 0
Known dls st = There (λ (s : DataLineSegment). Unit {0}) (get st dls)

-- One list of reads for each label, in segments that there are.
abbrev pub KnownRead : Segments → LabelRead → Type 0
KnownRead dls lr = Known dls lr.segment

abbrev pub AreReads : Segments → ℕ → List (List LabelRead) → Type 0
AreReads dls n reads = (length reads ≡ n) × All (All (KnownRead dls)) reads

abbrev pub Recorded : Segments → ℕ → Reads → Type 0
Recorded dls n reads = There (AreReads dls n) reads

get_elem?-There :
    {A : Type 0} (xs : List A) (i : ℕ)
    → i < length xs
    → There (λ (a : A). Unit {0}) (get_elem? xs i)
get_elem?-There [] i below = absurd (omega arith)
get_elem?-There (x ∷ xs) zero below = tt
get_elem?-There (x ∷ xs) (suc i) below = get_elem?-There xs i (omega arith)

read_at-Recorded :
    (dls : Segments) (n : ℕ) (l : Option Label) (id : ℕ) (lr : LabelRead)
    (reads : List (List LabelRead))
    → There (λ (a : Label). Unit {0}) l
    → KnownRead dls lr
    → AreReads dls n reads
    → Recorded dls n (read_at l id lr reads).1
unfolding read_at
read_at-Recorded dls n none id lr reads found known h = found
read_at-Recorded dls n (some l) id lr reads found known h =
    let more : (r : List LabelRead) → All (KnownRead dls) r → All (KnownRead dls) (push_read lr r) =
      λ r all. All-append (KnownRead dls) r lr all known in
    (
      length-modify_at (push_read lr) id reads ∙ h.0,
      All-modify_at (All (KnownRead dls)) (push_read lr) more id reads h.1,
    )

read_label-Recorded :
    (dls : Segments) (labels : List Label) (id : ℕ) (lr : LabelRead) (reads : Reads)
    → id < length labels
    → KnownRead dls lr
    → Recorded dls (length labels) reads
    → Recorded dls (length labels) (read_label labels id lr reads).1
unfolding read_label
read_label-Recorded dls labels id lr none below known h = h
read_label-Recorded dls labels id lr (some reads) below known h =
    read_at-Recorded dls (length labels) (get_elem? labels id) id lr reads
      (get_elem?-There labels id below) known h

module _ (dls : Segments) (labels : List Label) (st : SegmentType) (known : Known dls st) where
  pub write_line-Recorded :
      (start : ℕ) (line : DataLine) (mem : List ℕ) (reads : Reads)
      → LineFits (length labels) line
      → Recorded dls (length labels) reads
      → Recorded dls (length labels) (write_line labels st start line mem reads).1
  unfolding write_line
  write_line-Recorded start (raw bytes) mem reads fits h = h
  write_line-Recorded start (wide (Wide.number w)) mem reads fits h = h
  write_line-Recorded start (wide (Wide.label id)) mem reads fits h =
      read_label-Recorded dls labels id _ reads fits known h
  write_line-Recorded start (ins opcode d) mem reads fits h =
      write_data_operand-keeps (read_label labels) st (Recorded dls (length labels)) (length labels)
        (λ id position s below r. read_label-Recorded dls labels id _ s below known r) d
        (mem ++ opcode ∷ []) reads fits.0 h

  pub write_lines-Recorded :
      (start : ℕ) (lines : List DataLine) (mem : List ℕ) (reads : Reads)
      → All (LineFits (length labels)) lines
      → Recorded dls (length labels) reads
      → Recorded dls (length labels) (write_lines labels st start lines mem reads).1
  unfolding write_lines
  write_lines-Recorded start [] mem reads fits h = h
  write_lines-Recorded start (line ∷ lines) mem reads fits h =
      write_lines-Recorded start lines _ _ fits.1
        (write_line-Recorded start line mem reads fits.0 h)

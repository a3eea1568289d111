-- ===== src/Assembler.antt =====
-- src/bin/tc.rs: the object file of a processed source. Arguments, files and messages are left out;
-- `none` is a panic.
pub mod Code
pub mod Written
pub mod Total
use telda.Prelude.{
  ℕ, suc, List, [], ◌∷◌, ◌++◌, Bool, true, false, Option, none, some, length, get_elem?, replicate,
  if◌then◌else◌, ◌==◌, le_bytes16, add16, u16,
}
use telda.Obj.{
  SegmentType, unknown, zero, data_segment, ro_data, text, heap, SymbolDefinition, RelocationEntry,
  Object,
}
use telda.Obj.Sections.{segment_type_code}
use telda.Source.{Wide, LabelRead}
use telda.Source.Partial.{◌>>=◌}
use telda.Source.Text.{as_bytes}
use telda.Source.Symbols.{SymbolType, internal, global, reference, modify_at}
use telda.Source.Segments.{Segments, DataLine, ins, wide, raw}
use telda.Source.Encode.{write_data_operand}
use telda.Source.Resolve.{Label, ProcessedSource}

-- `label_reads`, or a panic.
abbrev pub Reads : Type 0
Reads = Option (List (List LabelRead))

abbrev pub push_read : LabelRead → List LabelRead → List LabelRead
push_read lr reads = reads ++ lr ∷ []

-- The closure `read_label`: `label_reads[id].push(lr); labels[id].3`.
unfoldable pub read_at : Option Label → ℕ → LabelRead → List (List LabelRead) → ℕ × Reads
read_at none id lr reads = (0, none)
read_at (some l) id lr reads = (l.location, some (modify_at (push_read lr) id reads))

unfoldable pub read_label : List Label → ℕ → LabelRead → Reads → ℕ × Reads
read_label labels id lr none = (0, none)
read_label labels id lr (some reads) = read_at (get_elem? labels id) id lr reads

-- A line at the end of the memory of its segment.
unfoldable pub write_line :
    List Label → SegmentType → ℕ → DataLine → List ℕ → Reads → List ℕ × Reads
write_line labels st segment_start (raw bytes) mem reads = (mem ++ bytes, reads)
write_line labels st segment_start (wide (Wide.number w)) mem reads = (mem ++ le_bytes16 w, reads)
write_line labels st segment_start (wide (Wide.label id)) mem reads =
    let lr : LabelRead = record {
      segment = st;
      position = add16 (u16 (length mem)) segment_start;
    } in
    let (w, reads) = read_label labels id lr reads in (mem ++ le_bytes16 w, reads)
write_line labels st segment_start (ins opcode dat_op) mem reads =
    write_data_operand (read_label labels) st (mem ++ opcode ∷ []) dat_op reads

unfoldable pub write_lines :
    List Label → SegmentType → ℕ → List DataLine → List ℕ → Reads → List ℕ × Reads
write_lines labels st segment_start [] mem reads = (mem, reads)
write_lines labels st segment_start (line ∷ lines) mem reads =
    let (mem, reads) = write_line labels st segment_start line mem reads in
    write_lines labels st segment_start lines mem reads

unfoldable pub write_segments :
    List Label → Segments → Reads → List (SegmentType × ℕ × List ℕ) × Reads
write_segments labels [] reads = ([], reads)
write_segments labels ((st, s) ∷ rest) reads =
    let (mem, reads) = write_lines labels st s.start s.lines [] reads in
    let (segs, reads) = write_segments labels rest reads in ((st, s.start, mem) ∷ segs, reads)

-- The assertion on the segment of a reference.
unfoldable pub is_unknown : SegmentType → Bool
is_unknown unknown = true
is_unknown zero = false
is_unknown data_segment = false
is_unknown ro_data = false
is_unknown text = false
is_unknown heap = false

unfoldable pub is_global : SymbolType → SegmentType → Option Bool
is_global global segment_type = some true
is_global internal segment_type = some false
is_global reference segment_type = if is_unknown segment_type then some true else none

unfoldable pub symbol_definition : Label → Option SymbolDefinition
symbol_definition l = is_global l.symbol_type l.segment_type >>= λ is_global. some (record {
  name = as_bytes l.name;
  is_global = is_global;
  segment_type = l.segment_type;
  location = l.location;
})

unfoldable pub symbol_table : List Label → Option (List SymbolDefinition)
symbol_table [] = some []
symbol_table (l ∷ labels) = do
  definition ← symbol_definition l
  definitions ← symbol_table labels
  some (definition ∷ definitions)

-- `aalvur.segs[&segment].0`
unfoldable pub segment_offset : SegmentType → List (SegmentType × ℕ × List ℕ) → Option ℕ
segment_offset st [] = none
segment_offset st ((t, offset, mem) ∷ rest) =
    if segment_type_code t == segment_type_code st then some offset else segment_offset st rest

-- The entries for the reads of one symbol, and of all from an index on.
unfoldable pub relocations_of :
    List (SegmentType × ℕ × List ℕ) → ℕ → List LabelRead → Option (List RelocationEntry)
relocations_of segs index [] = some []
relocations_of segs index (lr ∷ reads) = do
  segment_start ← segment_offset lr.segment segs
  entries ← relocations_of segs index reads
  some (
      record {
        reference_segment = lr.segment;
        reference_location = add16 segment_start lr.position;
        symbol_index = u16 index;
      }
      ∷ entries)

unfoldable pub relocation_table :
    List (SegmentType × ℕ × List ℕ) → ℕ → List (List LabelRead) → Option (List RelocationEntry)
relocation_table segs index [] = some []
relocation_table segs index (reads ∷ label_reads) = do
  entries ← relocations_of segs index reads
  others ← relocation_table segs (suc index) label_reads
  some (entries ++ others)

unfoldable pub assemble : ProcessedSource → Option Object
assemble source = do
  let (segs, reads) =
      write_segments source.labels source.dls (some (replicate (length source.labels) []))
  label_reads ← reads
  symbols ← symbol_table source.labels
  relocation_table ← relocation_table segs 0 label_reads
  some (record {
    file_offset = 0;
    entry = source.entry;
    flags = none;
    stack_size = none;
    heap_size = none;
    segs = segs;
    symbols = symbols;
    relocation_table = relocation_table;
  })

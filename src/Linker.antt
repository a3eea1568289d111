-- ===== src/Linker.antt =====
-- src/bin/tl.rs: the linking of object files. Arguments, files and messages are left out.
pub mod Symbols
pub mod Archive
pub mod Link
use telda.Prelude.{
  ℕ, zero, suc, ◌+◌, List, [], ◌∷◌, ◌++◌, Bool, true, false, not, ◌||◌, Option, none, some, length,
  get_elem?, max, add16, sub16, u16, le_bytes16, take, drop, leb, ◌==◌, if◌then◌else◌,
}
use telda.Align.{page_size, align_end}
use telda.Obj.{SegmentType, unknown, zero, Entry, SymbolDefinition, RelocationEntry, Object}
use telda.Obj.Sections.{segment_type_code}
use telda.Source.{Text, chars, Checked, ok, err, panics}
use telda.Source.Partial.{◌>>=◌}
use telda.Source.Text.{strip_prefix, unsigned_from_str_radix, as_bytes}
use telda.Source.Segments.{get, update}
use telda.Assembler.{is_unknown, segment_offset}
use telda.Linker.Symbols.{Merging, lookup, merge_symbols}

-- A segment of the output: its start, the place where the next file's part comes, and its bytes.
pub record Out : Type 0 where
  pub start : ℕ
  pub cursor : ℕ
  pub bytes : List ℕ

abbrev pub Outs : Type 0
Outs = List (SegmentType × Out)

abbrev pub Segs : Type 0
Segs = List (SegmentType × ℕ × List ℕ)

-- `*lengths.entry(stype).or_insert(0) += v.len() as u16`
unfoldable pub add_lengths : Segs → List (SegmentType × ℕ) → List (SegmentType × ℕ)
add_lengths [] lengths = lengths
add_lengths ((stype, start, v) ∷ segs) lengths =
    add_lengths segs (update 0 (λ n. add16 n (u16 (length v))) stype lengths)

unfoldable pub all_lengths : List Object → List (SegmentType × ℕ) → List (SegmentType × ℕ)
all_lengths [] lengths = lengths
all_lengths (obj ∷ objects) lengths = all_lengths objects (add_lengths obj.segs lengths)

-- `lengths.remove(&SegmentType::Zero)`, as the value and what is left.
unfoldable pub zero_length : List (SegmentType × ℕ) → ℕ
zero_length lengths = elim (get SegmentType.zero lengths) [ none ↦ 0 | some n ↦ n ]

unfoldable pub without_zero : List (SegmentType × ℕ) → List (SegmentType × ℕ)
without_zero [] = []
without_zero ((st, n) ∷ rest) =
    let others = without_zero rest in if segment_type_code st == 0 then others else (st, n) ∷ others

unfoldable pub place : ℕ → ℕ → List (SegmentType × ℕ) → Outs
place alignment last_end [] = []
place alignment last_end ((st, size) ∷ lengths) =
    let start = align_end last_end alignment in
    (st, record { start = start; cursor = start; bytes = [] })
    ∷ place alignment (add16 start size) lengths

unfoldable pub place_segments : ℕ → List Object → Outs
place_segments alignment objects =
    let lengths = all_lengths objects [] in
    place alignment (max (zero_length lengths) page_size) (without_zero lengths)

-- `bytes[at..at + 2].copy_from_slice(&w.to_le_bytes())`, which panics out of range.
unfoldable pub patch : ℕ → ℕ → List ℕ → Option (List ℕ)
patch at w bytes =
    if leb (at + 2) (length bytes)
    then some (take at bytes ++ (le_bytes16 w ++ drop (at + 2) bytes))
    else none

-- A part of an object's segments with other bytes; a missing segment panics.
unfoldable pub patch_segment : SegmentType → ℕ → ℕ → Segs → Option Segs
patch_segment st at w [] = none
patch_segment st at w ((t, start, bytes) ∷ segs) =
    if segment_type_code t == segment_type_code st
    then (patch at w bytes >>= λ bytes. some ((t, start, bytes) ∷ segs))
    else (patch_segment st at w segs >>= λ segs. some ((t, start, bytes) ∷ segs))

unfoldable pub change_out : (Out → Option Out) → SegmentType → Outs → Option Outs
change_out f st [] = none
change_out f st ((t, out) ∷ outs) =
    if segment_type_code t == segment_type_code st
    then (f out >>= λ out. some ((t, out) ∷ outs))
    else (change_out f st outs >>= λ outs. some ((t, out) ∷ outs))

-- What the relocations of a file change: its bytes, and the entries that are noted.
pub record Relocating : Type 0 where
  pub segs : Segs
  pub reloc_out : List RelocationEntry
  pub undefined_references : List RelocationEntry

unfoldable pub relocate :
    Outs → List SymbolDefinition → List ℕ → RelocationEntry → Relocating → Option Relocating
relocate outs symbols_out ids e r = do
  symbol_index ← get_elem? ids e.symbol_index
  file_start ← segment_offset e.reference_segment r.segs
  out ← get e.reference_segment outs
  symdef ← get_elem? symbols_out symbol_index
  let location_in_file = sub16 e.reference_location file_start
  segs ← patch_segment e.reference_segment location_in_file symdef.location r.segs
  let entry : RelocationEntry = record {
    reference_location = add16 location_in_file out.cursor;
    reference_segment = e.reference_segment;
    symbol_index = u16 symbol_index;
  }
  some (record {
    segs = segs;
    reloc_out = r.reloc_out ++ entry ∷ [];
    undefined_references =
        if is_unknown symdef.segment_type
        then r.undefined_references ++ entry ∷ []
        else r.undefined_references;
  })

unfoldable pub relocate_all :
    Outs → List SymbolDefinition → List ℕ → List RelocationEntry → Relocating → Option Relocating
relocate_all outs symbols_out ids [] r = some r
relocate_all outs symbols_out ids (e ∷ entries) r =
    relocate outs symbols_out ids e r >>= λ r. relocate_all outs symbols_out ids entries r

-- The file's bytes go to the ends of the output's segments.
unfoldable pub append_segments : Segs → Outs → Option Outs
append_segments [] outs = some outs
append_segments ((t, start, bytes) ∷ segs) outs =
    change_out
      (λ out.
        some (record out {
          cursor = add16 out.cursor (u16 (length bytes));
          bytes = out.bytes ++ bytes;
        }))
      t outs
    >>= λ outs. append_segments segs outs

-- ===== src/Aalv/File.antt =====
-- src/aalv/obj.rs: object files as the sections of a container.
use telda.Prelude.{
  ℕ, zero, suc, List, [], ◌∷◌, Bool, true, false, ◌||◌, Option, none, some, length, ◌==◌, ltb,
  if◌then◌else◌,
}
use telda.Obj.{SegmentType, Object, BinarySegment}
use telda.Obj.Sections.{
  Decoded, ok, invalid_data, panics, ◌>>=◌, segment_type_code, read_entry, write_entry, read_flags,
  write_flags, read_size, write_size, read_segment, write_segment, read_symbols, write_symbols,
  read_relocations, write_relocations,
}
use telda.Source.{Text, chars}
use telda.Source.Text.{starts_with}
use telda.Aalv.{Header, read_section, write_section, finish}

-- `Section::NAME`; that of the stack size is the heap's.
abbrev entry_name : Text
entry_name = chars "_entry"

abbrev flags_name : Text
flags_name = chars "_flags"

abbrev heap_size_name : Text
heap_size_name = chars "_heap_size"

abbrev seg_name : Text
seg_name = chars "_seg"

abbrev stack_size_name : Text
stack_size_name = chars "_heap_size"

abbrev syms_name : Text
syms_name = chars "_syms"

abbrev reloc_name : Text
reloc_name = chars "_reloc"

abbrev Segs : Type 0
Segs = List (SegmentType × ℕ × List ℕ)

-- `BTreeMap::insert`, which replaces what is there, and whether there was something.
unfoldable pub insert_segment : SegmentType → ℕ → List ℕ → Segs → Segs × Bool
insert_segment st offset bytes [] = ((st, offset, bytes) ∷ [], false)
insert_segment st offset bytes ((t, o, bs) ∷ segs) =
    let (others, there) = insert_segment st offset bytes segs in
    if segment_type_code t == segment_type_code st
    then ((st, offset, bytes) ∷ segs, true)
    else if ltb (segment_type_code st) (segment_type_code t)
    then ((st, offset, bytes) ∷ (t, o, bs) ∷ segs, false)
    else ((t, o, bs) ∷ others, there)

module _ (from_utf8_lossy : List ℕ → List ℕ) (file : List ℕ) where
  unfoldable pub insert_read : BinarySegment → Segs → Decoded Segs
  insert_read seg segs =
      let (segs, there) = insert_segment seg.stype seg.offset seg.bytes segs in
      if there then invalid_data else ok segs

  -- The loop over the segments; each turn takes a header away.
  unfoldable pub read_segments : ℕ → Segs → List Header → Decoded (Segs × List Header)
  read_segments zero segs headers = panics
  read_segments (suc fuel) segs headers = elim (read_section file seg_name headers) [
    | none ↦ ok (segs, headers)
    | some (bytes, headers) ↦ read_segment bytes >>= λ seg.
        insert_read seg segs >>= λ segs. read_segments fuel segs headers
  ]

  -- `aalvur.read_section().transpose()?`
  unfoldable pub read_optional :
      {A : Type 0} → (List ℕ → Decoded A) → Text → List Header → Decoded (Option A × List Header)
  read_optional reader name headers = elim (read_section file name headers) [
    | none ↦ ok (none, headers)
    | some (bytes, headers) ↦ reader bytes >>= λ a. ok (some a, headers)
  ]

  abbrev or_empty : {A : Type 0} → Option (List A) → List A
  or_empty none = []
  or_empty (some l) = l

  -- Sections whose name starts with an underscore are not expected.
  unfoldable pub any_unexpected : List Header → Bool
  any_unexpected [] = false
  any_unexpected (h ∷ headers) = starts_with (chars "_") h.name || any_unexpected headers

  -- `unimplemented!` on an unexpected section.
  unfoldable pub all_expected : Bool → Object → Decoded Object
  all_expected unexpected obj = if unexpected then panics else ok obj

  unfoldable pub from_aalv_reader : ℕ → List Header → Decoded Object
  from_aalv_reader file_offset headers = do
    (segs, headers) ← read_segments (suc (length headers)) [] headers
    (entry, headers) ← read_optional read_entry entry_name headers
    (flags, headers) ← read_optional read_flags flags_name headers
    (stack_size, headers) ← read_optional read_size stack_size_name headers
    (heap_size, headers) ← read_optional read_size heap_size_name headers
    (symbols, headers) ← read_optional (read_symbols from_utf8_lossy) syms_name headers
    (relocations, headers) ← read_optional read_relocations reloc_name headers
    all_expected (any_unexpected headers) (record {
      file_offset = file_offset;
      entry = entry;
      flags = flags;
      stack_size = stack_size;
      heap_size = heap_size;
      segs = segs;
      symbols = or_empty symbols;
      relocation_table = or_empty relocations;
    })

-- A section that may be missing.
abbrev write_optional : {A : Type 0} → (A → List ℕ) → Text → Option A → List ℕ → List ℕ
write_optional writer name none file = file
write_optional writer name (some a) file = write_section name (writer a) file

unfoldable pub write_segments : Segs → List ℕ → List ℕ
write_segments [] file = file
write_segments ((st, offset, bytes) ∷ segs) file = write_segments segs (
    write_section seg_name (write_segment (record { stype = st; offset = offset; bytes = bytes }))
      file)

-- A table that is not empty.
abbrev nonempty : {A : Type 0} → List A → Option (List A)
nonempty [] = none
nonempty (a ∷ rest) = some (a ∷ rest)

-- `write_to_file`, after the magic.
unfoldable pub write_to_file : Object → List ℕ → List ℕ
write_to_file obj file =
    let file = write_optional write_entry entry_name obj.entry file in
    let file = write_optional write_flags flags_name obj.flags file in
    let file = write_optional write_size stack_size_name obj.stack_size file in
    let file = write_optional write_size heap_size_name obj.heap_size file in
    let file = write_segments obj.segs file in
    let file = write_optional write_symbols syms_name (nonempty obj.symbols) file in
    finish (write_optional write_relocations reloc_name (nonempty obj.relocation_table) file)

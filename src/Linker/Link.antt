-- ===== src/Linker/Link.antt =====
-- src/bin/tl.rs: `tl_main` from the objects to the object that is written out.
use telda.Prelude.{
  ℕ, List, [], ◌∷◌, Bool, true, false, ◌||◌, Option, none, some, get_elem?, map, add16, sub16,
  if◌then◌else◌,
}
use telda.Obj.{SegmentType, Entry, SymbolDefinition, RelocationEntry, Object}
use telda.Source.{Text, chars, Checked, ok, err, panics}
use telda.Source.Partial.{◌>>=◌}
use telda.Source.Text.{strip_prefix, unsigned_from_str_radix, as_bytes}
use telda.Source.Segments.{get}
use telda.Assembler.{is_unknown, segment_offset}
use telda.Linker.{Out, Outs, place_segments, patch, change_out, relocate_all, append_segments}
use telda.Linker.Symbols.{Merging, lookup, merge_symbols}

pub data LinkError : Type 0 where
  invalid_entry_point_format no_entry_point object_failure : LinkError

pub record Linking : Type 0 where
  pub outs : Outs
  pub merging : Merging
  pub reloc_out : List RelocationEntry
  pub undefined_references : List RelocationEntry
  pub entry_point : Option Entry

abbrev pub cursor_of : Outs → SegmentType → Option ℕ
cursor_of outs st = get st outs >>= λ out. some out.cursor

-- The first entry point there is.
unfoldable pub entry_or : Option Entry → Object → Outs → Option (Option Entry)
entry_or (some e) obj outs = some (some e)
entry_or none obj outs = elim obj.entry [
  | none ↦ some none
  | some e ↦ segment_offset e.segment obj.segs >>= λ file_start.
      cursor_of outs e.segment >>= λ out_start.
      some (some (record e { location = add16 (sub16 e.location file_start) out_start }))
]

unfoldable pub link_file : Bool → Object → Linking → Option Linking
link_file strip_internal obj l = do
  entry_point ← entry_or l.entry_point obj l.outs
  merging ←
      merge_symbols strip_internal (λ st. segment_offset st obj.segs) (cursor_of l.outs) obj.symbols
        (record l.merging { file_symbol_to_out_symbol = [] })
  relocated ←
      relocate_all l.outs merging.symbols_out merging.file_symbol_to_out_symbol obj.relocation_table
        (record {
          segs = obj.segs;
          reloc_out = l.reloc_out;
          undefined_references = l.undefined_references;
        })
  outs ← append_segments relocated.segs l.outs
  some (record {
    outs = outs;
    merging = merging;
    reloc_out = relocated.reloc_out;
    undefined_references = relocated.undefined_references;
    entry_point = entry_point;
  })

unfoldable pub link_files : Bool → List Object → Linking → Option Linking
link_files strip_internal [] l = some l
link_files strip_internal (obj ∷ objects) l =
    link_file strip_internal obj l >>= λ l. link_files strip_internal objects l

-- A reference that was undefined when its file was read: it is patched, or a failure of an executable.
unfoldable pub patch_reference :
    List SymbolDefinition → Bool → RelocationEntry → Outs × Bool → Option (Outs × Bool)
patch_reference symbols_out executable e (outs, failure) =
    get_elem? symbols_out e.symbol_index >>= λ symdef.
    if is_unknown symdef.segment_type
    then some (outs, failure || executable)
    else (change_out
          (λ out.
            patch (sub16 e.reference_location out.start) symdef.location out.bytes >>= λ bytes.
            some (record out { bytes = bytes }))
          e.reference_segment outs
        >>= λ outs. some (outs, failure))

unfoldable pub patch_references :
    List SymbolDefinition → Bool → List RelocationEntry → Outs × Bool → Option (Outs × Bool)
patch_references symbols_out executable [] r = some r
patch_references symbols_out executable (e ∷ entries) r =
    patch_reference symbols_out executable e r >>= λ r.
    patch_references symbols_out executable entries r

-- The entry point of the option -E: an address, or the symbol of that name, which fails if there is
-- none.
unfoldable pub symbol_entry :
    List SymbolDefinition → Option ℕ → Option (Checked LinkError (Entry × Bool))
symbol_entry symbols_out none =
    some (ok (record { segment = SegmentType.unknown; location = 0xffff }, true))
symbol_entry symbols_out (some pos) = get_elem? symbols_out pos >>= λ sym.
    some (ok (record { segment = sym.segment_type; location = sym.location }, false))

unfoldable pub address_entry : Option ℕ → Checked LinkError (Entry × Bool)
address_entry none = err invalid_entry_point_format
address_entry (some a) = ok (record { segment = SegmentType.zero; location = a }, false)

unfoldable pub parse_entry : Merging → Text → Option (Checked LinkError (Entry × Bool))
parse_entry m entry = elim (strip_prefix (chars "0x") entry) [
  | some address ↦ some (address_entry (unsigned_from_str_radix 16 address 16))
  | none ↦ symbol_entry m.symbols_out (lookup (as_bytes entry) m.global_symbols)
]

abbrev out_segment : SegmentType × Out → SegmentType × ℕ × List ℕ
out_segment (st, out) = (st, out.start, out.bytes)

-- The object that is written; an executable needs an entry point. The line before an executable's
-- object, and the offset that it gives, are the writer's.
unfoldable pub linked : Bool → Bool → Outs → Linking → Option Entry → Checked LinkError Object
linked executable failure outs l entry = if failure then err object_failure else elim entry [
  | none ↦ if executable then err no_entry_point else ok (object none)
  | some e ↦ ok (object (some e))
]
  where
    object : Option Entry → Object
    object entry = record {
      file_offset = 0;
      entry = entry;
      flags = none;
      stack_size = none;
      heap_size = none;
      segs = map out_segment outs;
      symbols = l.merging.symbols_out;
      relocation_table = l.reloc_out;
    }

unfoldable pub conclude :
    Bool
    → Outs × Bool
    → Linking
    → Option (Checked LinkError (Entry × Bool))
    → Checked LinkError Object
conclude executable (outs, failure) l none = panics
conclude executable (outs, failure) l (some panics) = panics
conclude executable (outs, failure) l (some (err e)) = err e
conclude executable (outs, failure) l (some (ok (e, missing))) =
    linked executable (failure || missing) outs l (some e)

abbrev start_linking : Outs → Linking
start_linking outs = record {
  outs = outs;
  merging = record {
    global_symbols = [];
    symbols_out = [];
    file_symbol_to_out_symbol = [];
    failure = false;
  };
  reloc_out = [];
  undefined_references = [];
  entry_point = none;
}

-- With the options -E, -S, -A and -e.
unfoldable pub link : Option Text → Bool → ℕ → Bool → List Object → Checked LinkError Object
link set_entry strip_internal alignment executable objects =
    elim (link_files strip_internal objects (start_linking (place_segments alignment objects))) [
      | none ↦ panics
      | some l ↦
          elim (patch_references l.merging.symbols_out executable l.undefined_references
            (l.outs, l.merging.failure)) [
              | none ↦ panics
              | some (outs, failure) ↦ elim set_entry [
                | none ↦ linked executable failure outs l l.entry_point
                | some entry ↦ conclude executable (outs, failure) l (parse_entry l.merging entry)
              ]
            ]
    ]

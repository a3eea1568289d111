-- ===== src/Obj/RoundTrip.antt =====
-- src/aalv/obj/sec_impl.rs: reading what was written.
use mathlib.Core.List.{append-nil, append_assoc}
use telda.Prelude.{
  ℕ, ◌≡◌, ◌≢◌, refl, sym, ap, ◌∙◌, arith, Bool, true, false, List, [], ◌∷◌, ◌++◌, ◌==◌,
  if◌then◌else◌, All, IsWide, le_bytes16, wide_of, low_byte, high_byte,
}
use telda.Obj.{
  SegmentType, unknown, zero, data_segment, ro_data, text, heap, Entry, Flags, BinarySegment,
  SymbolDefinition, RelocationEntry,
}
use telda.Obj.Sections.{
  ok, segment_type_code, segment_type_from_u8, write_entry, read_entry, write_flags, read_flags,
  write_size, read_size, write_segment, read_segment, write_relocations, read_relocations, blank,
  write_symbols, in_name, at_type, symbol_of, read_symbols_from, read_symbols,
}

wide-bytes : (w : ℕ) → IsWide w → wide_of (low_byte w) (high_byte w) ≡ w
wide-bytes w h = omega arith

segment_type-code : (t : SegmentType) → segment_type_from_u8 (segment_type_code t) ≡ ok t
unfolding segment_type_from_u8 segment_type_code
segment_type-code unknown = refl
segment_type-code zero = refl
segment_type-code data_segment = refl
segment_type-code ro_data = refl
segment_type-code text = refl
segment_type-code heap = refl

-- An entry point with a wide location is read as it was written.
pub read_entry-write_entry : (e : Entry) → IsWide e.location → read_entry (write_entry e) ≡ ok e
unfolding read_entry write_entry
read_entry-write_entry e h = rw (segment_type-code e.segment, wide-bytes e.location h) refl

-- The flags are read as they were written.
pub read_flags-write_flags : (f : Flags) → read_flags (write_flags f) ≡ ok f
unfolding read_flags write_flags
read_flags-write_flags f = by_flag f.readable_text
  where
    by_flag :
        (b : Bool)
        → read_flags (write_flags (record { readable_text = b }))
          ≡ ok (record { readable_text = b })
    by_flag true = refl
    by_flag false = refl

-- A wide heap or stack size is read as it was written.
pub read_size-write_size : (size : ℕ) → IsWide size → read_size (write_size size) ≡ ok size
unfolding read_size write_size
read_size-write_size size h = rw (wide-bytes size h) refl

-- A segment with a wide offset is read as it was written.
pub read_segment-write_segment :
    (s : BinarySegment) → IsWide s.offset → read_segment (write_segment s) ≡ ok s
unfolding read_segment write_segment
read_segment-write_segment s h = rw (segment_type-code s.stype, wide-bytes s.offset h) refl

-- A relocation table of wide locations and indices is read as it was written.
pub read_relocations-write_relocations :
    (entries : List RelocationEntry)
    → All (λ e. IsWide e.reference_location × IsWide e.symbol_index) entries
    → read_relocations (write_relocations entries) ≡ ok entries
unfolding read_relocations write_relocations
read_relocations-write_relocations [] h = refl
read_relocations-write_relocations (e ∷ entries) h =
    rw
      (
        segment_type-code e.reference_segment,
        wide-bytes e.reference_location h.0.0,
        wide-bytes e.symbol_index h.0.1,
        read_relocations-write_relocations entries h.1,
      )
      refl

-- A symbol as the source describes it: the name has no zero byte and is valid text, and the name of
-- a global symbol starts with a byte other than a blank.
abbrev pub StartsVisibly : List ℕ → Type 0
StartsVisibly [] = ⊥
StartsVisibly (c ∷ name) = c ≢ blank

abbrev pub IsNamed : Bool → List ℕ → Type 0
IsNamed true name = StartsVisibly name
IsNamed false name = Unit

pub record IsSymbol (lossy : List ℕ → List ℕ) (s : SymbolDefinition) : Type 0 where
  pub no_zero : All (λ b. b ≢ 0) s.name
  pub valid_text : lossy s.name ≡ s.name
  pub named : IsNamed s.is_global s.name
  pub wide : IsWide s.location

not_zero : (b : ℕ) → b ≢ 0 → (b == 0) ≡ false
not_zero b h = ground arith

module _ (lossy : List ℕ → List ℕ) where
  -- The bytes of a name are collected up to the zero byte.
  collect :
      (acc name bytes : List ℕ)
      → All (λ b. b ≢ 0) name
      → read_symbols_from lossy (in_name acc) (name ++ 0 ∷ bytes)
        ≡ read_symbols_from lossy (at_type (acc ++ name)) bytes
  unfolding read_symbols_from
  collect acc [] bytes h =
      ap (λ n. read_symbols_from lossy (at_type n) bytes) (sym (append-nil acc))
  collect acc (b ∷ name) bytes h =
      ap
        (λ e.
          read_symbols_from lossy (if e then at_type acc else in_name (acc ++ b ∷ []))
            (name ++ 0 ∷ bytes))
        (not_zero b h.0)
      ∙ (collect (acc ++ b ∷ []) name bytes h.1
          ∙ ap (λ n. read_symbols_from lossy (at_type n) bytes) (append_assoc acc (b ∷ []) name))

  symbol_of-global :
      (name : List ℕ) (t : SegmentType) (location : ℕ)
      → lossy name ≡ name
      → StartsVisibly name
      → symbol_of lossy name t location
        ≡ ok (record { name = name; is_global = true; segment_type = t; location = location })
  unfolding symbol_of
  symbol_of-global [] t location e v = absurd v
  symbol_of-global (c ∷ name) t location e v =
      let visible : (c == blank) ≡ false = ground arith in rw (visible, e) refl

  -- One symbol is read, then the others.
  read_symbol :
      (g : Bool) (name : List ℕ) (t : SegmentType) (location : ℕ) (bytes : List ℕ)
      (symbols : List SymbolDefinition)
      → IsSymbol lossy
          (record { name = name; is_global = g; segment_type = t; location = location })
      → read_symbols_from lossy (in_name []) bytes ≡ ok symbols
      → read_symbols_from lossy (in_name []) (
          (if g then [] else blank ∷ [])
          ++ (name ++ 0 ∷ segment_type_code t ∷ (le_bytes16 location ++ bytes)))
        ≡ ok
            (record { name = name; is_global = g; segment_type = t; location = location } ∷ symbols)
  unfolding read_symbols_from
  read_symbol true name t location bytes symbols ok_s rest =
      collect [] name _ ok_s.no_zero
      ∙ rw
          (
            segment_type-code t,
            wide-bytes location ok_s.wide,
            symbol_of-global name t location ok_s.valid_text ok_s.named,
            rest,
          )
          refl
  read_symbol false name t location bytes symbols ok_s rest =
      collect (blank ∷ []) name _ ok_s.no_zero
      ∙ rw (segment_type-code t, wide-bytes location ok_s.wide, ok_s.valid_text, rest) refl

  -- A table of symbols with wide locations, whose names are valid text without a zero byte and, of
  -- global symbols, start with a byte other than a blank, is read as it was written.
  pub read_symbols-write_symbols :
      (symbols : List SymbolDefinition)
      → All (IsSymbol lossy) symbols
      → read_symbols lossy (write_symbols symbols) ≡ ok symbols
  unfolding read_symbols write_symbols read_symbols_from
  read_symbols-write_symbols [] h = refl
  read_symbols-write_symbols (s ∷ symbols) h =
      read_symbol s.is_global s.name s.segment_type s.location (write_symbols symbols) symbols h.0
        (read_symbols-write_symbols symbols h.1)

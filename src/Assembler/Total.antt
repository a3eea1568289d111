-- ===== src/Assembler/Total.antt =====
-- src/bin/tc.rs: the assembly of a processed source as a whole.
use mathlib.Core.Path.{subst}
use telda.Prelude.{
  ℕ, zero, suc, ◌≡◌, refl, ap, List, [], ◌∷◌, Option, none, some, Bool, arith, All, length,
  replicate, inl, inr, ◌⊎◌, ◌≢◌,
}
use telda.Obj.{SegmentType, unknown, zero, SymbolDefinition, RelocationEntry, Object}
use telda.Source.{LabelRead, Text, Error, ok, panics}
use telda.Source.Partial.{Given, There, There-bind}
use telda.Source.Symbols.{Symbols, no_symbols, SymbolType, internal, global, reference}
use telda.Source.Segments.{ProcessState, new_state, Segments}
use telda.Source.Resolve.{Label, ProcessedSource, checked, finish, process}
use telda.Source.Resolve.Counted.{Placed}
use telda.Source.Resolve.Total.{Ready, Finished, finish-Finished}
use telda.Source.Process.Files.{Lines, include_file, inner_process_with}
use telda.Source.Process.Sound.{SoundFile}
use telda.Source.Process.Loop.{file-Sound}
use telda.Assembler.{
  write_segments, is_unknown, is_global, symbol_definition, symbol_table, segment_offset,
  relocations_of, relocation_table, assemble,
}
use telda.Assembler.Written.{
  Bytes, SegmentsWritten, Keys-self, write_segments-Recorded, segment_offset-There,
}
use telda.Assembler.Code.{KnownRead, AreReads}

relocations_of-There :
    (dls : Segments) (segs : Bytes) (index : ℕ) (reads : List LabelRead)
    → SegmentsWritten dls segs
    → All (KnownRead dls) reads
    → There
        (λ (r : List RelocationEntry). length r ≡ length reads)
        (relocations_of segs index reads)
unfolding relocations_of
relocations_of-There dls segs index [] w h = refl
relocations_of-There dls segs index (lr ∷ reads) w h =
    There-bind (λ (offset : ℕ). Unit {0})
      (λ (r : List RelocationEntry). length r ≡ length (lr ∷ reads)) _
      (segment_offset lr.segment segs) (segment_offset-There dls segs lr.segment w h.0)
      λ offset found.
        There-bind (λ (r : List RelocationEntry). length r ≡ length reads)
          (λ (r : List RelocationEntry). length r ≡ length (lr ∷ reads)) _
          (relocations_of segs index reads) (relocations_of-There dls segs index reads w h.1)
          λ r e. ap suc e

relocation_table-There :
    (dls : Segments) (segs : Bytes) (label_reads : List (List LabelRead)) (index : ℕ)
    → SegmentsWritten dls segs
    → All (All (KnownRead dls)) label_reads
    → There (λ (r : List RelocationEntry). Unit {0}) (relocation_table segs index label_reads)
unfolding relocation_table
relocation_table-There dls segs [] index w h = tt
relocation_table-There dls segs (reads ∷ label_reads) index w h =
    There-bind (λ (r : List RelocationEntry). length r ≡ length reads)
      (λ (r : List RelocationEntry). Unit {0}) _ (relocations_of segs index reads)
      (relocations_of-There dls segs index reads w h.0)
      λ r e.
        There-bind (λ (r : List RelocationEntry). Unit {0}) (λ (r : List RelocationEntry). Unit {0})
          _ (relocation_table segs (suc index) label_reads)
          (relocation_table-There dls segs label_reads (suc index) w h.1) λ r' e'. tt

is_global-There :
    (t : SymbolType) (st : SegmentType)
    → (t ≢ reference) ⊎ (st ≡ unknown)
    → There (λ (b : Bool). Unit {0}) (is_global t st)
unfolding is_global is_unknown
is_global-There internal st h = tt
is_global-There global st h = tt
is_global-There reference st (inl other) = absurd (other refl)
is_global-There reference st (inr e) = rw e tt

symbol_table-There :
    (labels : List Label)
    → All Placed labels
    → There (λ (t : List SymbolDefinition). length t ≡ length labels) (symbol_table labels)
unfolding symbol_table symbol_definition
symbol_table-There [] h = refl
symbol_table-There (l ∷ labels) h =
    There-bind (λ (d : SymbolDefinition). Unit {0})
      (λ (t : List SymbolDefinition). length t ≡ length (l ∷ labels)) _ (symbol_definition l)
      (There-bind (λ (b : Bool). Unit {0}) (λ (d : SymbolDefinition). Unit {0}) _
        (is_global l.symbol_type l.segment_type) (is_global-There l.symbol_type l.segment_type h.0)
        λ b found. tt)
      λ d found.
        There-bind (λ (t : List SymbolDefinition). length t ≡ length labels)
          (λ (t : List SymbolDefinition). length t ≡ length (l ∷ labels)) _ (symbol_table labels)
          (symbol_table-There labels h.1) λ t e. ap suc e

no_reads-AreReads : (dls : Segments) (n : ℕ) → AreReads dls n (replicate n [])
no_reads-AreReads dls zero = (refl, tt)
no_reads-AreReads dls (suc n) = let rest = no_reads-AreReads dls n in (ap suc rest.0, (tt, rest.1))

-- The object file has the segments of the source, written out, and a symbol for each label.
abbrev pub IsAssembled : ProcessedSource → Object → Type 0
IsAssembled p o = SegmentsWritten p.dls o.segs × (length o.symbols ≡ length p.labels)

pub assemble-There : (p : ProcessedSource) → Ready p → There (IsAssembled p) (assemble p)
unfolding assemble
assemble-There p ready =
    let n : ℕ = length p.labels in
    let written =
      write_segments-Recorded p.dls p.labels p.dls (some (replicate n [])) (Keys-self p.dls) ready.0
        (no_reads-AreReads p.dls n) in
    let segs : Bytes = (write_segments p.labels p.dls (some (replicate n []))).0 in
    There-bind (AreReads p.dls n) (IsAssembled p) _
      (write_segments p.labels p.dls (some (replicate n []))).1 written.0
      λ label_reads known.
        There-bind (λ (t : List SymbolDefinition). length t ≡ n) (IsAssembled p) _
          (symbol_table p.labels) (symbol_table-There p.labels ready.1)
          λ symbols counted.
            There-bind (λ (r : List RelocationEntry). Unit {0}) (IsAssembled p) _
              (relocation_table segs 0 label_reads)
              (relocation_table-There p.dls segs label_reads 0 written.1 known.1)
              λ relocations found. (written.1, counted)

module _ (open_file : Text → Option Lines) (sibling : Text → Text → Text) (depth : ℕ)
    (src : Text) where
  file_Finished :
      (r : Option (List Error × ProcessState × Symbols))
      → Given SoundFile r
      → (p : ProcessedSource)
      → checked r (λ (errors, state, symbols). finish src errors state.dls state.entry symbols)
        ≡ ok p
      → Ready p
  file_Finished none sound p e = absurd (ground (arith, e))
  file_Finished (some (errors, state, symbols)) sound p e =
      subst Finished e (finish-Finished src errors state.dls state.entry symbols sound.0 sound.1)

  There-some :
      {A : Type 0} (P : A → Type 0) (o : Option A) → There P o → (a : A) × (o ≡ some a) × P a
  There-some P none h = absurd h
  There-some P (some a) h = (a, refl, h)

  -- Every source file that is processed without errors is assembled: no index of a label is out
  -- of range, no segment is missing, and no assertion fails. The segments of the object file are
  -- those of the source, each with its start and, at sixteen bits, as many bytes as its size
  -- says, and there is a symbol for each label.
  pub process-assemble :
      (lines : Lines) (p : ProcessedSource)
      → process open_file sibling depth src lines ≡ ok p
      → (o : Object) × (assemble p ≡ some o) × IsAssembled p o
  unfolding process
  process-assemble lines p e =
      There-some (IsAssembled p) (assemble p)
        (assemble-There p (file_Finished _ (file-Sound open_file sibling depth src lines) p e))

  not_panics :
      (r : Option (List Error × ProcessState × Symbols))
      → Given SoundFile r
      → (found : List Error × ProcessState × Symbols) → r ≡ some found
      → checked r (λ (errors, state, symbols). finish src errors state.dls state.entry symbols)
        ≢ panics
  not_panics none sound found e k = absurd (ground (arith, e))
  not_panics (some (errors, state, symbols)) sound found e k =
      subst Finished k (finish-Finished src errors state.dls state.entry symbols sound.0 sound.1)

  -- When the lines of a file and of what it includes have been gone through, resolving the
  -- symbols does not panic: a label that is not defined has a use that the error can name.
  pub process-inner_process :
      (lines : Lines) (found : List Error × ProcessState × Symbols)
      → inner_process_with (include_file open_file sibling depth) src lines new_state no_symbols
        ≡ some found
      → process open_file sibling depth src lines ≢ panics
  unfolding process
  process-inner_process lines found e =
      not_panics _ (file-Sound open_file sibling depth src lines) found e

-- ===== src/Source/Segments.antt =====
-- src/source/mod.rs: the segments of a processed source. The map from segment types is the list of
-- its entries in the order of the keys, which is that of their codes.
pub mod Fits
pub mod Layout
use telda.Prelude.{
  ℕ, ◌+◌, List, [], ◌∷◌, ◌++◌, Bool, true, false, Option, none, some, ◌==◌, ltb, if◌then◌else◌,
  add16,
}
use telda.Align.{page_size, align_end}
use telda.Obj.{SegmentType, unknown}
use telda.Obj.Sections.{segment_type_code}
use telda.Source.{Wide, DataOperand, Address}

-- `BTreeMap::get`, and `entry(..).or_default()` with a change of the value.
module _ {V : Type 0} where
  unfoldable pub get : SegmentType → List (SegmentType × V) → Option V
  get st [] = none
  get st ((t, v) ∷ rest) =
      if segment_type_code t == segment_type_code st then some v else get st rest

  unfoldable pub update :
      V → (V → V) → SegmentType → List (SegmentType × V) → List (SegmentType × V)
  update default f st [] = (st, f default) ∷ []
  update default f st ((t, v) ∷ rest) =
      let updated = update default f st rest in
      if segment_type_code t == segment_type_code st
      then (t, f v) ∷ rest
      else if ltb (segment_type_code st) (segment_type_code t)
      then (st, f default) ∷ (t, v) ∷ rest
      else (t, v) ∷ updated

pub data DataLine : Type 0 where
  ins : ℕ → DataOperand → DataLine
  wide : Wide → DataLine
  raw : List ℕ → DataLine

pub record DataLineSegment : Type 0 where
  pub lines : List DataLine
  pub size : ℕ
  pub start : ℕ

abbrev pub Segments : Type 0
Segments = List (SegmentType × DataLineSegment)

abbrev pub no_lines : DataLineSegment
no_lines = record { lines = []; size = 0; start = 0 }

pub record ProcessState : Type 0 where
  pub dls : Segments
  pub entry : Option Address

abbrev pub new_state : ProcessState
new_state = record { dls = []; entry = none }

unfoldable pub get_size : SegmentType → ProcessState → ℕ
get_size st state = elim (get st state.dls) [ none ↦ 0 | some dls ↦ dls.size ]

abbrev pub add_to : DataLine → ℕ → DataLineSegment → DataLineSegment
add_to line size dls = record dls { lines = dls.lines ++ line ∷ []; size = add16 dls.size size }

unfoldable pub add_line : SegmentType → DataLine → ℕ → ProcessState → ProcessState
add_line st line size state = record state { dls = update no_lines (add_to line size) st state.dls }

unfoldable pub unknown_defined : ProcessState → Bool
unknown_defined state = elim (get unknown state.dls) [ none ↦ false | some _ ↦ true ]

-- The starts of the segments, after the end of the one before.
unfoldable pub layout : ℕ → Segments → Segments
layout last_end [] = []
layout last_end ((st, s) ∷ rest) =
    let start = align_end last_end page_size in
    (st, record s { start = start }) ∷ layout (add16 start s.size) rest

-- `dls.get(..).map(|dl| dl.start).unwrap_or(0)`
unfoldable pub start_of : SegmentType → Segments → ℕ
start_of st dls = elim (get st dls) [ none ↦ 0 | some dl ↦ dl.start ]

-- ===== src/Obj.antt =====
-- src/aalv/obj.rs: what the parts of an object file are.
pub mod Sections
pub mod RoundTrip
use telda.Prelude.{ℕ, Bool, Option, List}

pub data SegmentType : Type 0 where
  unknown zero data_segment ro_data text heap : SegmentType

-- `Entry`
pub record Entry : Type 0 where
  pub segment : SegmentType
  pub location : ℕ

pub record Flags : Type 0 where
  pub readable_text : Bool

pub record SymbolDefinition : Type 0 where
  pub name : List ℕ
  pub is_global : Bool
  pub segment_type : SegmentType
  pub location : ℕ

pub record RelocationEntry : Type 0 where
  pub reference_segment : SegmentType
  pub reference_location : ℕ
  pub symbol_index : ℕ

pub record BinarySegment : Type 0 where
  pub offset : ℕ
  pub stype : SegmentType
  pub bytes : List ℕ

-- `segs` is the map of the segments, as the list of its entries in the order of the keys.
pub record Object : Type 0 where
  pub file_offset : ℕ
  pub entry : Option Entry
  pub flags : Option Flags
  pub stack_size : Option ℕ
  pub heap_size : Option ℕ
  pub segs : List (SegmentType × ℕ × List ℕ)
  pub symbols : List SymbolDefinition
  pub relocation_table : List RelocationEntry

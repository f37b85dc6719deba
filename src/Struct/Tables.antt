-- ===== src/Struct/Tables.antt =====
-- The tables of include/libedistruct.h.
use libedi.Base.{Bool, List, Option}
use libedi.Base.Chars.{Bytes}

-- `struct edistruct_segment`; NULL strings are `none`.
pub record SegmentInfo : Type 0 where
  pub name : Bytes
  pub title : Option Bytes
  pub title2 : Option Bytes
  pub function : Option Bytes
  pub children : List Bytes

-- `struct edistruct_composite`, an exact copy of the segment.
pub record CompositeInfo : Type 0 where
  pub name : Bytes
  pub title : Option Bytes
  pub title2 : Option Bytes
  pub function : Option Bytes
  pub children : List Bytes

-- `struct edistruct_element`
pub record ElementInfo : Type 0 where
  pub name : Bytes
  pub title : Option Bytes
  pub title2 : Option Bytes
  pub function : Option Bytes
  pub format : Option Bytes
  pub is_coded : Bool

-- `struct edistruct_coded`
pub record Coded : Type 0 where
  pub name : Bytes
  pub title : Option Bytes
  pub title2 : Option Bytes
  pub function : Option Bytes

-- `struct edistruct_coded_elements`
pub record CodedElements : Type 0 where
  pub el : Bytes
  pub vals : List Coded

-- `struct edistruct_all`; each count is the length of its table.
pub record Structs : Type 0 where
  pub segs : List SegmentInfo
  pub elems : List ElementInfo
  pub comps : List CompositeInfo
  pub codes : List CodedElements

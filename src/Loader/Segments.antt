-- ===== src/Loader/Segments.antt =====
-- The handlers of libedistruct/struct_loader.c for segments and for composites.
pub mod Paths
pub mod Fill
pub mod Read
pub mod Load
use libedi.Base.{ℕ, ◌+◌, Bool, List, [], ◌++◌, Option, some, length, take, drop, if◌then◌else◌}
use libedi.Base.Chars.{Bytes, codes, same_text, same_prefix}
use libedi.Loader.Memory.{◌>>=◌, Cell, null, junk, set, replicate, write_at, grow}
use libedi.Loader.Driver.{Handlers}
use libedi.Loader.File.{Expat, Status, published, parse_xml_file}

-- One entry of an array of children: a string, the NULL behind the last one, or memory that was not
-- set.
abbrev pub Slot : Type 0
Slot = Cell Bytes

-- `edistruct_segment_t` while it is filled; `children` is the array that its pointer leads to.
pub record Entry : Type 0 where
  pub name : Cell Bytes
  pub title : Cell Bytes
  pub title2 : Cell Bytes
  pub function : Cell Bytes
  pub children : Cell (List Slot)

abbrev pub cleared : Entry
cleared = record { name = null; title = null; title2 = null; function = null; children = null }

abbrev pub uncleared : Entry
uncleared = record { name = junk; title = junk; title2 = junk; function = junk; children = junk }

-- The 25 entries that the array grows by: only 10 of them are cleared.
abbrev pub new_entries : List Entry
new_entries = replicate 10 cleared ++ replicate 15 uncleared

abbrev pub new_slots : List Slot
new_slots = replicate 8 junk

-- `struct segments_parse_helper`; `alloc` and `chld_alloc` are the lengths of `segs` and `children`,
-- and the entry that `children` belongs to is the one at `index`.
pub record SegmentsHelper : Type 0 where
  pub segs : List Entry
  pub index : ℕ
  pub children : List Slot
  pub chld_index : ℕ

-- `memset(&self, 0, sizeof(self))`
abbrev pub start_segments : SegmentsHelper
start_segments = record { segs = []; index = 0; children = []; chld_index = 0 }

-- `self->children[self->chld_index++] = …`, the array grown before if it is full. The entry at
-- `index` has the pointer to the array.
unfoldable pub push_child : Slot → SegmentsHelper → Option SegmentsHelper
unfolding write_at grow
push_child c self = do
  children ← write_at self.chld_index (λ _. c) (grow self.chld_index new_slots self.children)
  segs ← write_at self.index (λ e. record e { children = set children }) self.segs
  some (record self { segs = segs; children = children; chld_index = self.chld_index + 1 })

abbrev pub forget_children : SegmentsHelper → SegmentsHelper
forget_children self = record self { children = []; chld_index = 0 }

-- The end of the children.
unfoldable pub end_children : SegmentsHelper → Option SegmentsHelper
unfolding push_child
end_children self = push_child null self >>= λ s. some (forget_children s)

-- `cur->… = strndup(s, len)`
unfoldable pub set_entry : (Entry → Entry) → SegmentsHelper → Option SegmentsHelper
unfolding write_at
set_entry f self = write_at self.index f self.segs >>= λ segs. some (record self { segs = segs })

-- The tests of `segments_cdata` on `p`.
unfoldable pub segments_text : Bytes → Bytes → SegmentsHelper → Option SegmentsHelper
unfolding same_text set_entry push_child
segments_text p s self =
    if same_text p (codes "/@code")
    then set_entry (λ e. record e { name = set s }) self
    else if same_text p (codes "/title1")
    then set_entry (λ e. record e { title = set s }) self
    else if same_text p (codes "/title2")
    then set_entry (λ e. record e { title2 = set s }) self
    else if same_text p (codes "/function")
    then set_entry (λ e. record e { function = set s }) self
    else if same_text p (codes "/children/child")
    then push_child (set s) self
    else some self

module _ (basepath : Bytes) where
  -- `segments_tstart`
  unfoldable pub segments_tstart : Bytes → SegmentsHelper → Option SegmentsHelper
  unfolding same_text grow
  segments_tstart xpath self = some (
      if same_text xpath basepath
      then record self { segs = grow self.index new_entries self.segs }
      else self)

  -- `0 == strncmp(xpath, self->basepath, strlen(self->basepath))`, and `p`.
  unfoldable pub is_below : Bytes → Bool
  unfolding same_prefix
  is_below xpath = same_prefix (length basepath) xpath basepath

  abbrev pub below : Bytes → Bytes
  below xpath = drop (length basepath) xpath

  -- `segments_tend`
  unfoldable pub segments_tend : Bytes → SegmentsHelper → Option SegmentsHelper
  unfolding same_text is_below end_children
  segments_tend xpath self =
      if same_text xpath basepath
      then some (record self { index = self.index + 1 })
      else if is_below xpath
      then (if same_text (below xpath) (codes "/children") then end_children self else some self)
      else some self

  -- `segments_cdata`
  unfoldable pub segments_cdata : Bytes → Bytes → SegmentsHelper → Option SegmentsHelper
  unfolding is_below segments_text
  segments_cdata xpath s self =
      if is_below xpath then segments_text (below xpath) s self else some self

  abbrev pub segments_handlers : Handlers SegmentsHelper
  segments_handlers = record {
    on_start = segments_tstart;
    on_end = segments_tend;
    on_cdata = segments_cdata;
  }

  -- `load_segments`; `none` is undefined behaviour.
  unfoldable pub load_segments : Expat → Option Bytes → List Entry → Option (Status × List Entry)
  unfolding parse_xml_file segments_tstart segments_tend segments_cdata
  load_segments expat file old =
      parse_xml_file expat segments_handlers file start_segments
      >>= published old (λ self. take self.index self.segs)

-- ===== src/Loader/Elements.antt =====
-- The handlers of libedistruct/struct_loader.c for elements.
pub mod Document
pub mod Read
use libedi.Base.{ℕ, ◌+◌, Bool, false, List, [], ◌∷◌, ◌++◌, Option, some, take, ◌==◌, if◌then◌else◌}
use libedi.Base.Chars.{Bytes, codes, same_text}
use libedi.Loader.Memory.{◌>>=◌, Cell, null, junk, set, replicate, write_at, grow}
use libedi.Loader.Driver.{Handlers}
use libedi.Loader.File.{Expat, Status, published, parse_xml_file}

-- `edistruct_element_t` while it is filled; a cleared `is_coded` is 0.
pub record ElementEntry : Type 0 where
  pub name : Cell Bytes
  pub title : Cell Bytes
  pub title2 : Cell Bytes
  pub function : Cell Bytes
  pub format : Cell Bytes
  pub is_coded : Cell Bool

abbrev pub cleared_element : ElementEntry
cleared_element = record {
  name = null;
  title = null;
  title2 = null;
  function = null;
  format = null;
  is_coded = null;
}

abbrev pub uncleared_element : ElementEntry
uncleared_element = record {
  name = junk;
  title = junk;
  title2 = junk;
  function = junk;
  format = junk;
  is_coded = junk;
}

-- The 25 entries that the array grows by: only 10 of them are cleared.
abbrev pub new_elements : List ElementEntry
new_elements = replicate 10 cleared_element ++ replicate 15 uncleared_element

-- `struct elements_parse_helper`; `alloc` is the length of `elems`.
pub record ElementsHelper : Type 0 where
  pub elems : List ElementEntry
  pub index : ℕ

abbrev pub start_elements : ElementsHelper
start_elements = record { elems = []; index = 0 }

-- `cur->… = …`
unfoldable pub set_element : (ElementEntry → ElementEntry) → ElementsHelper → Option ElementsHelper
unfolding write_at
set_element f self =
    write_at self.index f self.elems >>= λ elems. some (record self { elems = elems })

-- `*s == '1'`
abbrev pub is_one : Bytes → Bool
is_one [] = false
is_one (c ∷ s) = c == b'1'

-- `elements_tstart`
unfoldable pub elements_tstart : Bytes → ElementsHelper → Option ElementsHelper
unfolding same_text grow
elements_tstart xpath self = some (
    if same_text xpath (codes "/elements/element")
    then record self { elems = grow self.index new_elements self.elems }
    else self)

-- `elements_tend`
unfoldable pub elements_tend : Bytes → ElementsHelper → Option ElementsHelper
unfolding same_text
elements_tend xpath self = some (
    if same_text xpath (codes "/elements/element")
    then record self { index = self.index + 1 }
    else self)

-- `elements_cdata`
unfoldable pub elements_cdata : Bytes → Bytes → ElementsHelper → Option ElementsHelper
unfolding same_text set_element
elements_cdata xpath s self =
    if same_text xpath (codes "/elements/element/@code")
    then set_element (λ e. record e { name = set s }) self
    else if same_text xpath (codes "/elements/element/title1")
    then set_element (λ e. record e { title = set s }) self
    else if same_text xpath (codes "/elements/element/title2")
    then set_element (λ e. record e { title2 = set s }) self
    else if same_text xpath (codes "/elements/element/function")
    then set_element (λ e. record e { function = set s }) self
    else if same_text xpath (codes "/elements/element/format")
    then set_element (λ e. record e { format = set s }) self
    else if same_text xpath (codes "/elements/element/is_coded")
    then set_element (λ e. record e { is_coded = set (is_one s) }) self
    else some self

abbrev pub elements_handlers : Handlers ElementsHelper
elements_handlers = record {
  on_start = elements_tstart;
  on_end = elements_tend;
  on_cdata = elements_cdata;
}

-- `load_elements`
unfoldable pub load_elements :
    Expat → Option Bytes → List ElementEntry → Option (Status × List ElementEntry)
unfolding parse_xml_file elements_tstart elements_tend elements_cdata
load_elements expat file old =
    parse_xml_file expat elements_handlers file start_elements
    >>= published old (λ self. take self.index self.elems)

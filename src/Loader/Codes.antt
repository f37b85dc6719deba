-- ===== src/Loader/Codes.antt =====
-- The handlers of libedistruct/struct_loader.c for coded values.
pub mod Document
pub mod Fill
pub mod Read
use libedi.Base.{ℕ, ◌+◌, List, [], ◌++◌, Option, some, take, drop, if◌then◌else◌, ◌==◌, length}
use libedi.Base.Chars.{Bytes, codes, same_text, same_prefix}
use libedi.Loader.Memory.{◌>>=◌, Cell, junk, set, replicate, write_at, grow}
use libedi.Loader.Driver.{Handlers}
use libedi.Loader.File.{Expat, Status, published, parse_xml_file}

-- `edistruct_coded_t` while it is filled.
pub record CodeEntry : Type 0 where
  pub name : Cell Bytes
  pub title : Cell Bytes
  pub title2 : Cell Bytes
  pub function : Cell Bytes

-- `struct edistruct_coded_elements` while it is filled; `vals` is the array that its pointer leads to,
-- NULL an empty one.
pub record CodedEntry : Type 0 where
  pub el : Cell Bytes
  pub vals : Cell (List CodeEntry)
  pub nvals : Cell ℕ

-- What the arrays grow by: none of it is cleared.
abbrev pub junk_code : CodeEntry
junk_code = record { name = junk; title = junk; title2 = junk; function = junk }

abbrev pub new_codes : List CodeEntry
new_codes = replicate 10 junk_code

abbrev pub junk_coded : CodedEntry
junk_coded = record { el = junk; vals = junk; nvals = junk }

abbrev pub new_coded : List CodedEntry
new_coded = replicate 10 junk_coded

-- `struct codes_parse_helper`; `cv_alloc` and `cc_alloc` are the lengths of `cv` and `cc`.
pub record CodesHelper : Type 0 where
  pub cv : List CodedEntry
  pub cv_index : ℕ
  pub cc : List CodeEntry
  pub cc_index : ℕ

abbrev pub start_codes : CodesHelper
start_codes = record { cv = []; cv_index = 0; cc = []; cc_index = 0 }

-- `self->cv[self->cv_index].… = …`
unfoldable pub set_coded : (CodedEntry → CodedEntry) → CodesHelper → Option CodesHelper
unfolding write_at
set_coded f self = write_at self.cv_index f self.cv >>= λ cv. some (record self { cv = cv })

-- `cur->… = strndup(s, len)`
unfoldable pub set_code : (CodeEntry → CodeEntry) → CodesHelper → Option CodesHelper
unfolding write_at
set_code f self = write_at self.cc_index f self.cc >>= λ cc. some (record self { cc = cc })

abbrev pub coded_path : Bytes
coded_path = codes "/coded_values/coded_element"

abbrev pub value_path : Bytes
value_path = codes "/coded_values/coded_element/value"

-- An array of codes that is full grows, and the entry gets its new address. What it leads to is
-- written later, and the end of the coded element sets it again.
unfoldable pub grow_codes : CodesHelper → Option CodesHelper
unfolding set_coded
grow_codes self =
    if self.cc_index == length self.cc
    then (let cc = self.cc ++ new_codes in
        set_coded (λ e. record e { vals = set cc }) (record self { cc = cc }))
    else some self

-- `codes_tstart`
unfoldable pub codes_tstart : Bytes → CodesHelper → Option CodesHelper
unfolding same_text grow grow_codes
codes_tstart xpath self =
    if same_text xpath coded_path
    then some (record self { cv = grow self.cv_index new_coded self.cv })
    else if same_text xpath value_path
    then grow_codes self
    else some self

-- `codes_tend`
unfoldable pub codes_tend : Bytes → CodesHelper → Option CodesHelper
unfolding same_text set_coded
codes_tend xpath self =
    if same_text xpath coded_path
    then (set_coded (λ e. record e { vals = set self.cc; nvals = set self.cc_index }) self >>= λ s.
        some (record s { cv_index = s.cv_index + 1; cc = []; cc_index = 0 }))
    else if same_text xpath value_path
    then some (record self { cc_index = self.cc_index + 1 })
    else some self

-- The tests of `codes_cdata` on `p`.
unfoldable pub code_text : Bytes → Bytes → CodesHelper → Option CodesHelper
unfolding same_text set_code
code_text p s self =
    if same_text p (codes "/@code")
    then set_code (λ e. record e { name = set s }) self
    else if same_text p (codes "/title1")
    then set_code (λ e. record e { title = set s }) self
    else if same_text p (codes "/title2")
    then set_code (λ e. record e { title2 = set s }) self
    else if same_text p (codes "/function")
    then set_code (λ e. record e { function = set s }) self
    else some self

-- `codes_cdata`; the path of the code of the coded element is as long as that of a value.
unfoldable pub codes_cdata : Bytes → Bytes → CodesHelper → Option CodesHelper
unfolding same_text same_prefix set_coded code_text
codes_cdata xpath s self =
    if same_text xpath (codes "/coded_values/coded_element/@code")
    then (set_coded (λ e. record e { el = set s }) self >>= code_text (drop 33 xpath) s)
    else if same_prefix 33 xpath value_path
    then code_text (drop 33 xpath) s self
    else some self

abbrev pub codes_handlers : Handlers CodesHelper
codes_handlers = record { on_start = codes_tstart; on_end = codes_tend; on_cdata = codes_cdata }

-- `load_codes`
unfoldable pub load_codes :
    Expat → Option Bytes → List CodedEntry → Option (Status × List CodedEntry)
unfolding parse_xml_file codes_tstart codes_tend codes_cdata
load_codes expat file old =
    parse_xml_file expat codes_handlers file start_codes
    >>= published old (λ self. take self.cv_index self.cv)

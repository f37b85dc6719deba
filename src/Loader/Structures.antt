-- ===== src/Loader/Structures.antt =====
-- `edistruct_load_xml_files` of libedistruct/struct_loader.c: the four files of a directory, one after
-- the other, and the tables that they fill.
use libedi.Base.{◌+◌, List, [], ◌∷◌, ◌++◌, Option, none, some, length, leb, map, if◌then◌else◌}
use libedi.Base.Chars.{Bytes, codes}
use libedi.Struct.Tables.{SegmentInfo, CompositeInfo, Structs}
use libedi.Loader.Memory.{◌>>=◌}
use libedi.Loader.File.{Expat, Status, loaded, bad_xml, no_file}
use libedi.Loader.Segments.{Entry, load_segments}
use libedi.Loader.Elements.{ElementEntry, load_elements}
use libedi.Loader.Codes.{CodedEntry, load_codes}
use libedi.Loader.Tables.{read_all, entry_info}
use libedi.Loader.Tables.{element_info}
use libedi.Loader.Tables.{coded_info}

-- `concat_path`: 15 bytes more than the directory are allocated, for `/`, the name and the NUL.
unfoldable pub concat_path : Bytes → Bytes → Option Bytes
concat_path dir fn =
    if leb (length dir + 1 + length fn + 1) (length dir + 15) then some (dir ++ b'/' ∷ fn) else none

-- `loaded_structs`; each count is the length of its table.
pub record LoadedStructs : Type 0 where
  pub segs : List Entry
  pub comps : List Entry
  pub elems : List ElementEntry
  pub codes : List CodedEntry

-- What is returned, the tables, and the files that an error was printed for.
pub record Loading : Type 0 where
  pub result : Status
  pub structs : LoadedStructs
  pub errors : List Bytes

-- `if(r != 0) fprintf(stderr, "Error loading %s\n", fn);`
abbrev pub report : Status → Bytes → List Bytes
report loaded fn = []
report bad_xml fn = fn ∷ []
report no_file fn = fn ∷ []

-- `files` is what can be opened by each path.
module _ (expat : Expat) (files : Bytes → Option Bytes) (dir : Bytes) where
  unfoldable pub edistruct_load_xml_files : LoadedStructs → Option Loading
  unfolding concat_path load_segments load_elements load_codes
  edistruct_load_xml_files old = do
    segs_xml ← concat_path dir (codes "segs.xml")
    (r0, segs) ← load_segments (codes "/segments/segment") expat (files segs_xml) old.segs
    comps_xml ← concat_path dir (codes "comps.xml")
    (r1, comps) ← load_segments (codes "/composites/composite") expat (files comps_xml) old.comps
    elems_xml ← concat_path dir (codes "elems.xml")
    (r2, elems) ← load_elements expat (files elems_xml) old.elems
    coded_xml ← concat_path dir (codes "coded.xml")
    (r3, coded) ← load_codes expat (files coded_xml) old.codes
    some (record {
      result = r3;
      structs = record { segs = segs; comps = comps; elems = elems; codes = coded };
      errors =
          report r0 segs_xml ++ report r1 comps_xml ++ report r2 elems_xml ++ report r3 coded_xml;
    })

-- `(edistruct_segment_t**)&loaded_structs.comps`: a segment is read as a composite.
abbrev pub composite_of : SegmentInfo → CompositeInfo
composite_of s = record {
  name = s.name;
  title = s.title;
  title2 = s.title2;
  function = s.function;
  children = s.children;
}

-- The tables as the searches read them.
unfoldable pub structs_of : LoadedStructs → Option Structs
unfolding read_all entry_info element_info coded_info
structs_of l = do
  segs ← read_all entry_info l.segs
  comps ← read_all entry_info l.comps
  elems ← read_all element_info l.elems
  coded ← read_all coded_info l.codes
  some (record { segs = segs; elems = elems; comps = map composite_of comps; codes = coded })

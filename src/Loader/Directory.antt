-- ===== src/Loader/Directory.antt =====
-- What `edistruct_load_xml_files` of libedistruct/struct_loader.c makes of a directory in which each of
-- the four files is the document that it should be, or cannot be opened.
use libedi.Base.{List, [], ◌∷◌, ◌++◌, Option, none, some, ◌≡◌, refl, map}
use libedi.Base.Chars.{Bytes, codes, same_prefix}
use libedi.Loader.File.{Expat, Status, loaded, no_file, events_in}
use libedi.Loader.Tree.{Nodes, events_of, Fit}
use libedi.Loader.Document.{Gaps, Described, info_of, document}
use libedi.Loader.Elements.Document.{DescribedElement, element_info_of, elements_document}
use libedi.Loader.Codes.Document.{DescribedCoded, coded_info_of, codes_document}
use libedi.Loader.Segments.{Entry, load_segments}
use libedi.Loader.Segments.Load.{load_segments-Loaded}
use libedi.Loader.Elements.{ElementEntry, load_elements}
use libedi.Loader.Tables.{element_info}
use libedi.Loader.Elements.Read.{load_elements-LoadedElements}
use libedi.Loader.Codes.{CodedEntry, load_codes}
use libedi.Loader.Tables.{coded_info}
use libedi.Loader.Codes.Read.{load_codes-LoadedCodes}
use libedi.Loader.Tables.{read_all, entry_info}

-- A file with one row for each entry.
pub record Sheet (D : Type 0) : Type 0 where
  pub gaps : Gaps
  pub count : Bytes
  pub entries : List D

-- The files; `none` is one that cannot be opened.
pub record Directory : Type 0 where
  pub segs : Option (Sheet Described)
  pub comps : Option (Sheet Described)
  pub elems : Option (Sheet DescribedElement)
  pub coded : Option (Sheet DescribedCoded)

abbrev pub segs_document : Sheet Described → Nodes
segs_document s = document s.gaps (codes "segments") s.count (codes "segment") s.entries

abbrev pub comps_document : Sheet Described → Nodes
comps_document s = document s.gaps (codes "composites") s.count (codes "composite") s.entries

abbrev pub elems_document : Sheet DescribedElement → Nodes
elems_document s = elements_document s.gaps s.count s.entries

abbrev pub coded_document : Sheet DescribedCoded → Nodes
coded_document s = codes_document s.gaps s.count s.entries

-- What expat finds in a file, and that its paths fit.
pub record Holds (expat : Expat) (file : Option Bytes) (nodes : Nodes) : Type 0 where
  pub text : Bytes
  pub is_text : file ≡ some text
  pub is_document : events_in expat text ≡ some (events_of nodes)
  pub fits : Fit [] nodes

abbrev pub HoldsIf :
    {D : Type 0} → Expat → (Sheet D → Nodes) → Option Bytes → Option (Sheet D) → Type 0
HoldsIf expat document_of file none = file ≡ none
HoldsIf expat document_of file (some s) = Holds expat file (document_of s)

abbrev pub path_in : Bytes → Bytes → Bytes
path_in dir fn = dir ++ b'/' ∷ fn

pub record IsDirectory (expat : Expat) (files : Bytes → Option Bytes) (dir : Bytes) (d : Directory)
    : Type 0 where
  pub segs : HoldsIf expat segs_document (files (path_in dir (codes "segs.xml"))) d.segs
  pub comps : HoldsIf expat comps_document (files (path_in dir (codes "comps.xml"))) d.comps
  pub elems : HoldsIf expat elems_document (files (path_in dir (codes "elems.xml"))) d.elems
  pub coded : HoldsIf expat coded_document (files (path_in dir (codes "coded.xml"))) d.coded

abbrev pub status_of : {D : Type 0} → Option (Sheet D) → Status
status_of none = no_file
status_of (some s) = loaded

-- A table with the entries of a file, or the one that was there before.
abbrev pub Reads :
    {D E I : Type 0} → (E → Option I) → (D → I) → List E → Option (Sheet D) → List E → Type 0
Reads info of old none table = table ≡ old
Reads info of old (some s) table = read_all info table ≡ some (map of s.entries)

-- What one of the loaders makes of its file.
pub record Part {D E I : Type 0} (info : E → Option I) (of : D → I) (old : List E)
    (sheet : Option (Sheet D)) (o : Option (Status × List E)) : Type 0 where
  pub table : List E
  pub is_loaded : o ≡ some (status_of sheet, table)
  pub reads : Reads info of old sheet table

module _ (expat : Expat) where
  pub segs-Part :
      (file : Option Bytes) (old : List Entry) (sheet : Option (Sheet Described))
      → HoldsIf expat segs_document file sheet
      → Part entry_info info_of old sheet (load_segments (codes "/segments/segment") expat file old)
  unfolding load_segments same_prefix
  segs-Part file old none h = rw h (record { table = old; is_loaded = refl; reads = refl })
  segs-Part file old (some s) h =
      let l =
        load_segments-Loaded s.gaps (codes "segments") s.count (codes "segment") refl expat h.text
          old s.entries h.is_document h.fits in
      rw h.is_text (record { table = l.table; is_loaded = l.is_loaded; reads = l.is_read })

  pub comps-Part :
      (file : Option Bytes) (old : List Entry) (sheet : Option (Sheet Described))
      → HoldsIf expat comps_document file sheet
      → Part entry_info info_of old sheet
          (load_segments (codes "/composites/composite") expat file old)
  unfolding load_segments same_prefix
  comps-Part file old none h = rw h (record { table = old; is_loaded = refl; reads = refl })
  comps-Part file old (some s) h =
      let l =
        load_segments-Loaded s.gaps (codes "composites") s.count (codes "composite") refl expat
          h.text old s.entries h.is_document h.fits in
      rw h.is_text (record { table = l.table; is_loaded = l.is_loaded; reads = l.is_read })

  pub elems-Part :
      (file : Option Bytes) (old : List ElementEntry) (sheet : Option (Sheet DescribedElement))
      → HoldsIf expat elems_document file sheet
      → Part element_info element_info_of old sheet (load_elements expat file old)
  unfolding load_elements
  elems-Part file old none h = rw h (record { table = old; is_loaded = refl; reads = refl })
  elems-Part file old (some s) h =
      let l =
        load_elements-LoadedElements s.gaps s.count expat h.text old s.entries h.is_document
          h.fits in
      rw h.is_text (record { table = l.table; is_loaded = l.is_loaded; reads = l.is_read })

  pub coded-Part :
      (file : Option Bytes) (old : List CodedEntry) (sheet : Option (Sheet DescribedCoded))
      → HoldsIf expat coded_document file sheet
      → Part coded_info coded_info_of old sheet (load_codes expat file old)
  unfolding load_codes
  coded-Part file old none h = rw h (record { table = old; is_loaded = refl; reads = refl })
  coded-Part file old (some s) h =
      let l =
        load_codes-LoadedCodes s.gaps s.count expat h.text old s.entries h.is_document h.fits in
      rw h.is_text (record { table = l.table; is_loaded = l.is_loaded; reads = l.is_read })

-- ===== src/Loader/Load.antt =====
-- `edistruct_load_xml_files` of libedistruct/struct_loader.c on such a directory, and the searches of
-- libedistruct/lookup.c in what it loads.
use libedi.Base.{
  List, [], ◌∷◌, ◌++◌, Option, none, some, ◌≡◌, refl, map, length, ◌≤◌, ◌+◌, le→leb, arith,
}
use libedi.Base.Chars.{Bytes, codes}
use libedi.Struct.Tables.{Structs}
use libedi.Struct.Lookup.{
  set_struct, segment_name, element_name, composite_name, find_segment, find_element,
  find_composite, find_coded_value,
}
use libedi.Struct.Search.{Finds}
use libedi.Struct.Coded.{AreTables, find_by_name, FindsCoded, find_coded_value-FindsCoded}
use libedi.Loader.File.{Expat}
use libedi.Loader.Document.{Described, info_of}
use libedi.Loader.Elements.Document.{DescribedElement, element_info_of}
use libedi.Loader.Codes.Document.{DescribedCoded, coded_info_of}
use libedi.Loader.Tables.{element_info}
use libedi.Loader.Tables.{coded_info}
use libedi.Loader.Tables.{entry_info}
use libedi.Loader.Structures.{
  LoadedStructs, Loading, concat_path, edistruct_load_xml_files, composite_of, structs_of, report,
}
use libedi.Loader.Directory.{
  Sheet, Directory, IsDirectory, status_of, path_in, Reads, segs-Part, comps-Part, elems-Part,
  coded-Part,
}

-- The path fits into what is allocated for it.
pub concat_path_fits :
    (dir fn : Bytes) → length fn ≤ 13 → concat_path dir fn ≡ some (dir ++ b'/' ∷ fn)
unfolding concat_path
concat_path_fits dir fn h =
    rw (le→leb (length dir + 1 + length fn + 1) (length dir + 15) (omega (arith, h)))

-- The path of a file that cannot be opened.
abbrev missing : {D : Type 0} → Bytes → Option (Sheet D) → List Bytes
missing path none = path ∷ []
missing path (some s) = []

report-missing :
    {D : Type 0} (path : Bytes) (sheet : Option (Sheet D))
    → report (status_of sheet) path ≡ missing path sheet
report-missing path none = refl
report-missing path (some s) = refl

abbrev missing_files : Bytes → Directory → List Bytes
missing_files dir d =
    missing (path_in dir (codes "segs.xml")) d.segs
    ++ missing (path_in dir (codes "comps.xml")) d.comps
    ++ missing (path_in dir (codes "elems.xml")) d.elems
    ++ missing (path_in dir (codes "coded.xml")) d.coded

-- What is loaded from the files of `d`.
pub record Loads (dir : Bytes) (old : LoadedStructs) (d : Directory) (o : Option Loading)
    : Type 0 where
  pub loading : Loading
  pub is_loading : o ≡ some loading
  pub errors : loading.errors ≡ missing_files dir d
  pub result : loading.result ≡ status_of d.coded
  pub segs : Reads entry_info info_of old.segs d.segs loading.structs.segs
  pub comps : Reads entry_info info_of old.comps d.comps loading.structs.comps
  pub elems : Reads element_info element_info_of old.elems d.elems loading.structs.elems
  pub codes : Reads coded_info coded_info_of old.codes d.coded loading.structs.codes

module _ (expat : Expat) (files : Bytes → Option Bytes) (dir : Bytes) (old : LoadedStructs) where
  -- Of four files each of which is its document or cannot be opened, those that are there are
  -- loaded, so that their entries are read from their tables; the tables of the others stay as they
  -- were, and an error is printed for each of them. What is returned says only whether the last
  -- file, coded.xml, could be opened.
  pub edistruct_load_xml_files-Loads :
      (d : Directory)
      → IsDirectory expat files dir d
      → Loads dir old d (edistruct_load_xml_files expat files dir old)
  unfolding edistruct_load_xml_files
  edistruct_load_xml_files-Loads d h =
      let s = segs-Part expat (files (path_in dir (codes "segs.xml"))) old.segs d.segs h.segs in
      let c =
        comps-Part expat (files (path_in dir (codes "comps.xml"))) old.comps d.comps h.comps in
      let e =
        elems-Part expat (files (path_in dir (codes "elems.xml"))) old.elems d.elems h.elems in
      let v =
        coded-Part expat (files (path_in dir (codes "coded.xml"))) old.codes d.coded h.coded in
      record {
        loading = record {
          result = status_of d.coded;
          structs = record { segs = s.table; comps = c.table; elems = e.table; codes = v.table };
          errors = missing_files dir d;
        };
        is_loading = simp (
          concat_path_fits dir (codes "segs.xml") (omega arith),
          concat_path_fits dir (codes "comps.xml") (omega arith),
          concat_path_fits dir (codes "elems.xml") (omega arith),
          concat_path_fits dir (codes "coded.xml") (omega arith),
          s.is_loaded,
          c.is_loaded,
          e.is_loaded,
          v.is_loaded,
          report-missing,
        );
        errors = refl;
        result = refl;
        segs = s.reads;
        comps = c.reads;
        elems = e.reads;
        codes = v.reads;
      }

-- The tables that the four documents describe.
abbrev pub described :
    Sheet Described → Sheet Described → Sheet DescribedElement → Sheet DescribedCoded → Structs
described segs comps elems coded = record {
  segs = map info_of segs.entries;
  elems = map element_info_of elems.entries;
  comps = map composite_of (map info_of comps.entries);
  codes = map coded_info_of coded.entries;
}

-- The searches find what is described, where it is.
pub record FindsAll (c : Structs) (tables : AreTables c) (o : Option Loading) : Type 0 where
  pub loading : Loading
  pub is_loading : o ≡ some loading
  pub no_errors : loading.errors ≡ []
  pub segments :
      (name : Bytes)
      → Finds segment_name c.segs name (find_segment (set_struct (structs_of loading.structs)) name)
  pub elements :
      (name : Bytes)
      → Finds element_name c.elems name
          (find_element (set_struct (structs_of loading.structs)) name)
  pub composites :
      (name : Bytes)
      → Finds composite_name c.comps name
          (find_composite (set_struct (structs_of loading.structs)) name)
  pub values :
      (elem name : Bytes)
      → FindsCoded c tables elem name
          (find_coded_value (set_struct (structs_of loading.structs)) elem name)

-- All four files.
abbrev pub whole :
    Sheet Described → Sheet Described → Sheet DescribedElement → Sheet DescribedCoded → Directory
whole segs comps elems coded = record {
  segs = some segs;
  comps = some comps;
  elems = some elems;
  coded = some coded;
}

-- The tables are read as they are described.
pub structs_of-described :
    (segs comps : Sheet Described) (elems : Sheet DescribedElement) (coded : Sheet DescribedCoded)
    (dir : Bytes) (old : LoadedStructs) {o : Option Loading}
    (l : Loads dir old (whole segs comps elems coded) o)
    → structs_of l.loading.structs ≡ some (described segs comps elems coded)
unfolding structs_of
structs_of-described segs comps elems coded dir old l = rw (l.segs, l.comps, l.elems, l.codes) refl

module _ (expat : Expat) (files : Bytes → Option Bytes) (dir : Bytes) (old : LoadedStructs)
    (segs comps : Sheet Described) (elems : Sheet DescribedElement)
    (coded : Sheet DescribedCoded) where
  -- Once the four files are loaded, each of them a document whose entries are sorted by name and
  -- not empty, the searches for segments, elements, composites and coded values find by every name
  -- the entry that the documents describe under it, or NULL where they describe none.
  pub edistruct_load_xml_files-FindsAll :
      IsDirectory expat files dir (whole segs comps elems coded)
      → (tables : AreTables (described segs comps elems coded))
      → FindsAll
          (described segs comps elems coded)
          tables
          (edistruct_load_xml_files expat files dir old)
  edistruct_load_xml_files-FindsAll h tables =
      let l = edistruct_load_xml_files-Loads expat files dir old (whole segs comps elems coded) h in
      let c = described segs comps elems coded in
      let read = structs_of-described segs comps elems coded dir old l in
      record {
        loading = l.loading;
        is_loading = l.is_loading;
        no_errors = l.errors;
        segments = λ name. rw read ((find_by_name c tables name).0);
        elements = λ name. rw read ((find_by_name c tables name).1);
        composites = λ name. rw read ((find_by_name c tables name).2);
        values = λ elem name. rw read (find_coded_value-FindsCoded c tables elem name);
      }

-- ===== src/Tests/Loader.antt =====
-- Runs of libedistruct/struct_loader.c on small files.
use libedi.Base.{
  ℕ, Bool, true, false, List, [], ◌∷◌, Option, none, some, ◌≡◌, refl, length, ltb, ltb→lt, ◌&&◌,
  if◌then◌else◌, get_elem?, some_eq, zero, suc,
}
use libedi.Base.Chars.{Bytes, codes, same_text}
use libedi.Struct.Lookup.{segment_name, element_name, composite_name, coded_name, coded_el}
use libedi.Struct.Tables.{CodedElements}
use libedi.Struct.Coded.{IsTable, AreTables}
use libedi.Tests.Tables.{one_entry}
use libedi.Loader.Driver.{xpath_max, Event}
use libedi.Loader.File.{Expat, events_in}
use libedi.Loader.Tree.{
  Nodes, no_node, element, piece, events_of, child_path, attribute_path, FitAttributes, Fit,
}
use libedi.Loader.Document.{Gaps, Described}
use libedi.Loader.Elements.Document.{DescribedElement}
use libedi.Loader.Codes.Document.{DescribedCoded}
use libedi.Loader.Structures.{LoadedStructs, edistruct_load_xml_files}
use libedi.Loader.Directory.{
  Sheet, Directory, Holds, IsDirectory, segs_document, comps_document, elems_document,
  coded_document,
}
use libedi.Loader.Load.{
  described, whole, Loads, FindsAll, edistruct_load_xml_files-Loads,
  edistruct_load_xml_files-FindsAll,
}

-- Whether every path in a document fits.
abbrev attributes_fit : Bytes → List (Bytes × Bytes) → Bool
attributes_fit q [] = true
attributes_fit q ((n, v) ∷ attrs) =
    ltb (length (attribute_path q n)) xpath_max && attributes_fit q attrs

abbrev pub fits : Bytes → Nodes → Bool
fits p no_node = true
fits p (element n attrs kids rest) =
    ltb (length (child_path p n)) xpath_max
    && (attributes_fit (child_path p n) attrs && (fits (child_path p n) kids && fits p rest))
fits p (piece s rest) = fits p rest

both : (a b : Bool) → (a && b) ≡ true → (a ≡ true) × (b ≡ true)
both true b e = (refl, e)
both false b e = cc

attributes_fit-FitAttributes :
    (q : Bytes) (attrs : List (Bytes × Bytes))
    → attributes_fit q attrs ≡ true
    → FitAttributes q attrs
attributes_fit-FitAttributes q [] e = tt
attributes_fit-FitAttributes q ((n, v) ∷ attrs) e =
    let h = both _ _ e in (ltb→lt _ _ h.0, attributes_fit-FitAttributes q attrs h.1)

pub fits-Fit : (p : Bytes) (nodes : Nodes) → fits p nodes ≡ true → Fit p nodes
fits-Fit p no_node e = tt
fits-Fit p (element n attrs kids rest) e =
    let h = both _ _ e in
    let k = both _ _ h.1 in
    let l = both _ _ k.1 in
    (
      ltb→lt _ _ h.0,
      attributes_fit-FitAttributes (child_path p n) attrs k.0,
      fits-Fit (child_path p n) kids l.0,
      fits-Fit p rest l.1,
    )
fits-Fit p (piece s rest) e = fits-Fit p rest e

abbrev pub gaps : Gaps
gaps = record { before = []; after = codes "\n" ∷ []; inside = [] }

abbrev pub segs : Sheet Described
segs = record {
  gaps = gaps;
  count = codes "1";
  entries =
      record {
        name = codes "BGM";
        title = codes "BEGINNING OF MESSAGE";
        title2 = codes "beginning_of_message";
        function = codes "To begin.";
        children = codes "C002" ∷ codes "1004" ∷ [];
      }
      ∷ [];
}

abbrev pub comps : Sheet Described
comps = record {
  gaps = gaps;
  count = codes "1";
  entries =
      record {
        name = codes "C002";
        title = codes "NAME";
        title2 = codes "name";
        function = codes "To name.";
        children = codes "1001" ∷ [];
      }
      ∷ [];
}

abbrev pub elems : Sheet DescribedElement
elems = record {
  gaps = gaps;
  count = codes "1";
  entries =
      record {
        name = codes "1001";
        title = codes "Code";
        title2 = codes "code";
        function = codes "To code.";
        format = codes "an..3";
        is_coded = true;
      }
      ∷ [];
}

abbrev pub coded : Sheet DescribedCoded
coded = record {
  gaps = gaps;
  count = codes "1";
  entries =
      record {
        el = codes "1001";
        count = codes "1";
        count_first = true;
        vals =
            record {
              name = codes "380";
              title = codes "Invoice";
              title2 = codes "invoice";
              function = codes "To claim.";
            }
            ∷ [];
      }
      ∷ [];
}

-- An XML parser for files of one letter each.
abbrev events_for : Bytes → List Event
events_for file =
    if same_text file (codes "s")
    then events_of (segs_document segs)
    else if same_text file (codes "c")
    then events_of (comps_document comps)
    else if same_text file (codes "e")
    then events_of (elems_document elems)
    else events_of (coded_document coded)

abbrev pub toy : Expat
toy = record { State = Unit; create = tt; parse = λ p buf done. (events_for buf, some p) }

-- The directory `d`, and the same without comps.xml and coded.xml.
abbrev pub files : Bytes → Option Bytes
files path =
    if same_text path (codes "d/segs.xml")
    then some (codes "s")
    else if same_text path (codes "d/comps.xml")
    then some (codes "c")
    else if same_text path (codes "d/elems.xml")
    then some (codes "e")
    else if same_text path (codes "d/coded.xml")
    then some (codes "v")
    else none

abbrev fewer_files : Bytes → Option Bytes
fewer_files path =
    if same_text path (codes "d/segs.xml")
    then some (codes "s")
    else if same_text path (codes "d/elems.xml")
    then some (codes "e")
    else none

abbrev held :
    (file : Bytes) (nodes : Nodes)
    → events_in toy file ≡ some (events_of nodes)
    → fits [] nodes ≡ true
    → Holds toy (some file) nodes
held file nodes e f = record {
  text = file;
  is_text = refl;
  is_document = e;
  fits = fits-Fit [] nodes f;
}

abbrev part : Directory
part = record { segs = some segs; comps = none; elems = some elems; coded = none }

pub whole-IsDirectory : IsDirectory toy files (codes "d") (whole segs comps elems coded)
unfolding events_in same_text
whole-IsDirectory = record {
  segs = held (codes "s") (segs_document segs) refl refl;
  comps = held (codes "c") (comps_document comps) refl refl;
  elems = held (codes "e") (elems_document elems) refl refl;
  coded = held (codes "v") (coded_document coded) refl refl;
}

part-IsDirectory : IsDirectory toy fewer_files (codes "d") part
unfolding events_in same_text
part-IsDirectory = record {
  segs = held (codes "s") (segs_document segs) refl refl;
  comps = refl;
  elems = held (codes "e") (elems_document elems) refl refl;
  coded = refl;
}

abbrev pub no_structs : LoadedStructs
no_structs = record { segs = []; comps = []; elems = []; codes = [] }

tables : AreTables (described segs comps elems coded)
tables = record {
  segs = one_entry segment_name _;
  elems = one_entry element_name _;
  comps = one_entry composite_name _;
  codes = one_entry coded_el _;
  vals = single;
}
  where
    single :
        (i : ℕ) (t : CodedElements)
        → get_elem? (described segs comps elems coded).codes i ≡ some t
        → IsTable coded_name t.vals
    single zero t p = rw (← (some_eq p)) (one_entry coded_name _)
    single (suc i) t p = cc

edistruct_load_xml_files-Loads_example :
    Loads
      (codes "d")
      no_structs
      part
      (edistruct_load_xml_files toy fewer_files (codes "d") no_structs)
edistruct_load_xml_files-Loads_example =
    edistruct_load_xml_files-Loads toy fewer_files (codes "d") no_structs part part-IsDirectory

edistruct_load_xml_files-FindsAll_example :
    FindsAll
      (described segs comps elems coded)
      tables
      (edistruct_load_xml_files toy files (codes "d") no_structs)
edistruct_load_xml_files-FindsAll_example =
    edistruct_load_xml_files-FindsAll toy files (codes "d") no_structs segs comps elems coded
      whole-IsDirectory tables

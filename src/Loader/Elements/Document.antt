-- ===== src/Loader/Elements/Document.antt =====
-- The document elems.xml that libedistruct/struct_loader.c reads, as libedistruct/conv_specs.pl writes
-- it.
use libedi.Base.{Bool, List, [], ◌∷◌, some, if◌then◌else◌}
use libedi.Base.Chars.{Bytes, codes}
use libedi.Struct.Tables.{ElementInfo}
use libedi.Loader.Tree.{Nodes, no_node, element}
use libedi.Loader.Document.{Gaps, pieces, rows, leaf}

-- An element with all of its strings.
pub record DescribedElement : Type 0 where
  pub name : Bytes
  pub title : Bytes
  pub title2 : Bytes
  pub function : Bytes
  pub format : Bytes
  pub is_coded : Bool

abbrev pub element_info_of : DescribedElement → ElementInfo
element_info_of d = record {
  name = d.name;
  title = some d.title;
  title2 = some d.title2;
  function = some d.function;
  format = some d.format;
  is_coded = d.is_coded;
}

abbrev pub digit : Bool → Bytes
digit b = if b then codes "1" else codes "0"

module _ (gaps : Gaps) where
  open gaps use {before, after, inside}

  abbrev pub coded_field : DescribedElement → Nodes
  coded_field d = pieces inside (leaf (codes "is_coded") (digit d.is_coded) (pieces inside no_node))

  abbrev pub element_fields : DescribedElement → Nodes
  element_fields d = pieces inside (
      leaf (codes "title1") d.title (
        pieces inside (
          leaf (codes "title2") d.title2 (
            pieces inside (
              leaf (codes "function") d.function
                (pieces inside (leaf (codes "format") d.format (coded_field d))))))))

  abbrev pub element_row : DescribedElement → Nodes → Nodes
  element_row d rest =
      element (codes "element") ((codes "code", d.name) ∷ []) (element_fields d) rest

  -- The document `<elements count="…"><element code="…">…</element>…</elements>`.
  abbrev pub elements_document : Bytes → List DescribedElement → Nodes
  elements_document count ds =
      element (codes "elements") ((codes "count", count) ∷ [])
        (pieces before (rows element_row after ds)) no_node

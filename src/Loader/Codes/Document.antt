-- ===== src/Loader/Codes/Document.antt =====
-- The document coded.xml that libedistruct/struct_loader.c reads, as libedistruct/conv_specs.pl writes
-- it.
use libedi.Base.{Bool, List, [], ◌∷◌, some, map, if◌then◌else◌}
use libedi.Base.Chars.{Bytes, codes}
use libedi.Struct.Tables.{Coded, CodedElements}
use libedi.Loader.Tree.{Nodes, no_node, element}
use libedi.Loader.Document.{Gaps, pieces, rows, leaf}

-- A coded value with all of its strings.
pub record DescribedCode : Type 0 where
  pub name : Bytes
  pub title : Bytes
  pub title2 : Bytes
  pub function : Bytes

-- A coded element, with the text of its count and where that attribute stands.
pub record DescribedCoded : Type 0 where
  pub el : Bytes
  pub vals : List DescribedCode
  pub count : Bytes
  pub count_first : Bool

abbrev pub code_info_of : DescribedCode → Coded
code_info_of d = record {
  name = d.name;
  title = some d.title;
  title2 = some d.title2;
  function = some d.function;
}

abbrev pub coded_info_of : DescribedCoded → CodedElements
coded_info_of c = record { el = c.el; vals = map code_info_of c.vals }

abbrev pub coded_attributes : DescribedCoded → List (Bytes × Bytes)
coded_attributes c =
    if c.count_first
    then (codes "count", c.count) ∷ (codes "code", c.el) ∷ []
    else (codes "code", c.el) ∷ (codes "count", c.count) ∷ []

module _ (gaps : Gaps) where
  open gaps use {before, after, inside}

  abbrev pub value_fields : DescribedCode → Nodes
  value_fields d = pieces inside (
      leaf (codes "title1") d.title (
        pieces inside (
          leaf (codes "title2") d.title2
            (pieces inside (leaf (codes "function") d.function (pieces inside no_node))))))

  abbrev pub value_row : DescribedCode → Nodes → Nodes
  value_row d rest = element (codes "value") ((codes "code", d.name) ∷ []) (value_fields d) rest

  abbrev pub coded_row : DescribedCoded → Nodes → Nodes
  coded_row c rest =
      element (codes "coded_element") (coded_attributes c)
        (pieces inside (rows value_row inside c.vals)) rest

  -- The document
  -- `<coded_values count="…"><coded_element code="…" count="…">…</coded_element>…</coded_values>`.
  abbrev pub codes_document : Bytes → List DescribedCoded → Nodes
  codes_document count cs =
      element (codes "coded_values") ((codes "count", count) ∷ [])
        (pieces before (rows coded_row after cs)) no_node

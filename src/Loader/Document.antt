-- ===== src/Loader/Document.antt =====
-- The documents that libedistruct/struct_loader.c reads, as the scripts of libedistruct write them:
-- segs.xml and comps.xml.
use libedi.Base.{List, [], ◌∷◌, some}
use libedi.Base.Chars.{Bytes, codes}
use libedi.Struct.Tables.{SegmentInfo}
use libedi.Loader.Tree.{Nodes, no_node, element, piece}

-- A segment or a composite with all of its strings.
pub record Described : Type 0 where
  pub name : Bytes
  pub title : Bytes
  pub title2 : Bytes
  pub function : Bytes
  pub children : List Bytes

abbrev pub info_of : Described → SegmentInfo
info_of d = record {
  name = d.name;
  title = some d.title;
  title2 = some d.title2;
  function = some d.function;
  children = d.children;
}

-- An element with one piece of text in it.
abbrev pub leaf : Bytes → Bytes → Nodes → Nodes
leaf n t rest = element n [] (piece t no_node) rest

-- Text between elements, in the pieces in which it comes.
abbrev pub pieces : List Bytes → Nodes → Nodes
pieces [] rest = rest
pieces (t ∷ ts) rest = piece t (pieces ts rest)

-- Elements one after the other, each with text behind it.
abbrev pub rows {ℓ} : {D : Type ℓ} → (D → Nodes → Nodes) → List Bytes → List D → Nodes
rows row after [] = no_node
rows row after (d ∷ ds) = row d (pieces after (rows row after ds))

-- What stands between elements, line feeds and spaces: in front of the first item, behind every item,
-- and around what is in an item.
pub record Gaps : Type 0 where
  pub before : List Bytes
  pub after : List Bytes
  pub inside : List Bytes

module _ (gaps : Gaps) where
  open gaps use {before, after, inside}

  abbrev pub children_nodes : List Bytes → Nodes
  children_nodes [] = pieces inside no_node
  children_nodes (c ∷ cs) = pieces inside (leaf (codes "child") c (children_nodes cs))

  abbrev pub children_element : List Bytes → Nodes
  children_element cs =
      pieces inside (element (codes "children") [] (children_nodes cs) (pieces inside no_node))

  abbrev pub fields_of : Described → Nodes
  fields_of d = pieces inside (
      leaf (codes "title1") d.title (
        pieces inside (
          leaf (codes "title2") d.title2
            (pieces inside (leaf (codes "function") d.function (children_element d.children))))))

  abbrev pub item_row : Bytes → Described → Nodes → Nodes
  item_row item d rest = element item ((codes "code", d.name) ∷ []) (fields_of d) rest

  -- The document `<root count="…"><item code="…">…</item>…</root>`.
  abbrev pub document : Bytes → Bytes → Bytes → List Described → Nodes
  document root count item ds =
      element root ((codes "count", count) ∷ []) (pieces before (rows (item_row item) after ds))
        no_node

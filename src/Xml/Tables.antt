-- ===== src/Xml/Tables.antt =====
-- Tables of libedistruct that are sorted and have their titles are in order for libedixml/conv.c.
use libedi.Base.{[], ◌≢◌, List, some, ◌≡◌, All, All-get_elem}
use libedi.Base.Chars.{Bytes}
use libedi.Interchange.{Value, Segment}
use libedi.Struct.Tables.{Coded, Structs}
use libedi.Struct.Lookup.{
  Found, hit, miss, fault, unfinished, segment_name, element_name, find_segment, find_element,
  find_coded_value,
}
use libedi.Struct.Search.{Finds}
use libedi.Struct.Coded.{AreTables, find_by_name, FindsCoded, find_coded_value-FindsCoded}
use libedi.Xml.Nested.{OrNull, Goes, Anything}
use libedi.Xml.Tokens.{Config, IsQuiet}
use libedi.Xml.Segments.{segment_to_xml}
use libedi.Xml.Complete.{IsCoded, IsElement}
use libedi.Xml.Whole.{IsSegmentInfo, AreComplete, segment_to_xml-Goes}

-- Every entry has the strings that are written, and every child of a segment that is a composite is
-- in the tables.
pub record AreTitled (c : Structs) : Type 0 where
  pub segs : All (IsSegmentInfo (some c)) c.segs
  pub elems : All IsElement c.elems
  pub codes : All (λ t. All IsCoded t.vals) c.codes

found-OrNull :
    {A : Type 0} (P : A → Type 0) (name_of : A → Bytes) (table : List A) (name : Bytes)
    (r : Found A)
    → All P table
    → Finds name_of table name r
    → OrNull P r
found-OrNull P name_of table name (hit x) h f = All-get_elem P table f.0 x h f.1
found-OrNull P name_of table name miss h f = tt
found-OrNull P name_of table name fault h f = f
found-OrNull P name_of table name unfinished h f = f

module _ (c : Structs) (tables : AreTables c) (titled : AreTitled c) where
  coded-OrNull :
      (elem name : Bytes) (r : Found Coded) → FindsCoded c tables elem name r → OrNull IsCoded r
  coded-OrNull elem name (hit x) (i, t, p, _, j, q, _) =
      All-get_elem IsCoded t.vals j x
        (All-get_elem (λ u. All IsCoded u.vals) c.codes i t titled.codes p) q
  coded-OrNull elem name miss f = tt
  coded-OrNull elem name fault f = f
  coded-OrNull elem name unfinished f = f

  tables-AreComplete : AreComplete (some c)
  tables-AreComplete = record {
    elements = record {
      elements = λ name.
          found-OrNull IsElement element_name c.elems name (find_element (some c) name) titled.elems
            (find_by_name c tables name).1;
      coded = λ el name.
          coded-OrNull el name (find_coded_value (some c) el name)
            (find_coded_value-FindsCoded c tables el name);
    };
    segments = λ name.
        found-OrNull (IsSegmentInfo (some c)) segment_name c.segs name (find_segment (some c) name)
          titled.segs (find_by_name c tables name).0;
  }

-- With tables that are sorted and titled, errors not written as comments and a `size_t` as wide as `int`, a segment that has a
-- tag and an element is converted with no undefined behaviour, whatever its values and the other
-- options, and the tags written are nested: each is closed by one of its own name, and none is left
-- open.
pub segment_to_xml-nested :
    {st : List Bytes} (opts : Config) (c : Structs) (seg : Segment) (tag : Value)
    → AreTables c
    → AreTitled c
    → IsQuiet opts
    → seg.tag ≡ some tag
    → seg.elements ≢ []
    → Goes st st Anything (segment_to_xml opts (some c) seg)
segment_to_xml-nested opts c seg tag tables titled quiet e ne =
    segment_to_xml-Goes opts (some c) quiet (tables-AreComplete c tables titled) seg tag e ne

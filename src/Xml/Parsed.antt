-- ===== src/Xml/Parsed.antt =====
-- The segments that libedi/parse.c reads, converted by `segment_to_xml` of libedixml/conv.c.
use libedi.Base.{[], Option, none, ◌≡◌, ◌⊎◌}
use libedi.Interchange.{Segment, Interchange}
use libedi.Struct.Tables.{Structs}
use libedi.Xml.Tokens.{Config}
use libedi.Xml.Segments.{segment_to_xml}
use libedi.Xml.Nested.{Anything}
use libedi.Xml.Delivered.{Delivers}

-- What the conversion of a segment comes to: undefined behaviour for one without elements, whose tag
-- is NULL, and nested tags on stdout, or in the buffer, for every other one.
abbrev pub Converts : Config → Option Structs → Segment → Type 0
Converts opts cur s =
    ((s.elements ≡ []) × (segment_to_xml opts cur s ≡ none))
    ⊎ Delivers [] [] Anything (segment_to_xml opts cur s)

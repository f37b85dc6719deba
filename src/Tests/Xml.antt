-- ===== src/Tests/Xml.antt =====
-- Runs of the converter of libedixml/conv.c and of `escape_xml` of libedixml/output.c.
use libedi.Base.{◌↔◌, ℕ, [], ◌∷◌, ◌≡◌, refl, none, some, true, false, length, ◌+◌, ◌≤◌}
use libedi.Base.Chars.{Bytes, codes, same_text}
use libedi.Interchange.{Value, simple, Segment, Interchange}
use libedi.Struct.Tables.{Structs}
use libedi.Struct.Lookup.{strcmp, find_segment, find_element, find_composite, find_coded_value}
use libedi.Xml.Tokens.{
  Config, Ran, print, and_then, error, error_counting, escape_xml, escape_loop, escape_char, extra,
}
use libedi.Xml.Elements.{element_to_xml, element_missing_xml, can_be_truncated}
use libedi.Xml.Segments.{segment_to_xml, names_composite, composite_to_xml}
use libedi.Xml.Escape.{Reads, IsText, escape_xml-Reads, escape_xml_room}

-- What the runs below compute with.
program : Unit {0}
unfolding same_text strcmp find_segment find_element find_composite find_coded_value and_then error
    error_counting escape_xml escape_loop escape_char extra element_to_xml element_missing_xml
    segment_to_xml names_composite can_be_truncated composite_to_xml
program = tt

abbrev structs : Structs
structs = record {
  segs =
      record {
        name = codes "BGM";
        title = some (codes "Beginning of message");
        title2 = some (codes "Beginning");
        function = none;
        children = codes "MC002" ∷ codes "C1004" ∷ [];
      }
      ∷ [];
  elems =
      record {
        name = codes "1001";
        title = some (codes "Name code");
        title2 = some (codes "Name");
        function = none;
        format = none;
        is_coded = true;
      }
      ∷ record {
        name = codes "1004";
        title = some (codes "Identifier");
        title2 = some (codes "Id");
        function = none;
        format = none;
        is_coded = false;
      }
      ∷ [];
  comps =
      record {
        name = codes "C002";
        title = some (codes "Document");
        title2 = some (codes "Document");
        function = none;
        children = codes "M1001" ∷ [];
      }
      ∷ [];
  codes =
      record {
        el = codes "1001";
        vals =
            record {
              name = codes "7";
              title = some (codes "Order & reply");
              title2 = some (codes "Order");
              function = some (codes "An order");
            }
            ∷ [];
      }
      ∷ [];
}

abbrev config : Config
config = record {
  comments_segment_names = false;
  comments_coded_values = false;
  comments_element_names = false;
  comments_errors = false;
  translate_coded_values = true;
  translate_coded_to_elements = false;
  size_is_int = true;
}

abbrev value : Bytes → Value
value t = record { at = record { pool = 0; offset = 0 }; text = t; len = 1 }

-- The composite is cut short, so that the parser takes it for a simple element.
abbrev segment : Segment
segment = record {
  elements =
      simple (value (codes "BGM")) ∷ simple (value (codes "7")) ∷ simple (value (codes "a<b")) ∷ [];
  tag = some (value (codes "BGM"));
  offset = 0;
}

abbrev printed : Ran (Unit {0}) → Bytes
printed none = []
printed (some (ts, u)) = print ts

abbrev expected : Bytes
expected =
    codes
      "<S:Beginning>\n<C:Document>\n<E:Name><X:coded code=\"7\">Order &amp; reply</X:coded></E:Name>\n</C:Document>\n<E:Id>a&lt;b</E:Id>\n</S:Beginning>\n"

convert : printed (segment_to_xml config (some structs) segment) ≡ expected
unfolding program
convert = refl

escape_xml-Reads_example :
    (Reads (escape_xml (codes "a<b&c")) (codes "a<b&c") ↔ IsText (codes "a<b&c"))
    × ((t : Bytes) → Reads (escape_xml (codes "a<b&c")) t → t ≡ codes "a<b&c")
escape_xml-Reads_example = escape_xml-Reads (codes "a<b&c")

escape_xml_room_example :
    length (escape_xml (codes "a<b&c")) + 1
    ≤ (escape_loop (length (codes "a<b&c") + 1, []) (codes "a<b&c")).0
escape_xml_room_example = escape_xml_room (codes "a<b&c")

-- A segment with a value, and one without any element.
abbrev parsed_text : Bytes
parsed_text = codes "BGM+7''"

abbrev first_segment : Segment
first_segment = record {
  elements =
      simple (record { at = record { pool = 0; offset = 0 }; text = codes "BGM"; len = 3 })
      ∷ simple (record { at = record { pool = 0; offset = 4 }; text = codes "7"; len = 1 })
      ∷ [];
  tag = some (record { at = record { pool = 0; offset = 0 }; text = codes "BGM"; len = 3 });
  offset = 0;
}

abbrev second_segment : Segment
second_segment = record { elements = []; tag = none; offset = 6 }

abbrev parsed : Interchange
parsed = record {
  segments = first_segment ∷ second_segment ∷ [];
  pools = record { poolsize = 512; used = 6 } ∷ [];
}

convert_empty : segment_to_xml config (some structs) second_segment ≡ none
unfolding program
convert_empty = refl

-- An interchange with its envelope; the service segments are not in the tables.
abbrev enclosed_text : Bytes
enclosed_text = codes "UNB+1'BGM+7'UNZ+0'"

abbrev kept_at : ℕ → Bytes → Value
kept_at n t = record { at = record { pool = 0; offset = n }; text = t; len = length t }

abbrev two_elements : ℕ → ℕ → Bytes → Bytes → Segment
two_elements o n t v = record {
  elements = simple (kept_at n t) ∷ simple (kept_at (n + 4) v) ∷ [];
  tag = some (kept_at n t);
  offset = o;
}

abbrev enclosed : Interchange
enclosed = record {
  segments =
      two_elements 0 0 (codes "UNB") (codes "1")
      ∷ two_elements 6 6 (codes "BGM") (codes "7")
      ∷ two_elements 12 12 (codes "UNZ") (codes "0")
      ∷ [];
  pools = record { poolsize = 512; used = 18 } ∷ [];
}

-- ===== src/Xml/Conv.antt =====
-- `edi2xml_conv` of libedixml/conv.c.
use libedi.Base.{
  Bool, true, false, not, List, [], ◌∷◌, Option, none, some, length, ltb, if◌then◌else◌,
}
use libedi.Base.Chars.{Bytes, codes, same_text}
use libedi.Interchange.{Value, Element, composite, Segment}
use libedi.Struct.Tables.{Structs}
use libedi.Detect.Registry.{Registry}
use libedi.Parse.Parser.{parser_create}
use libedi.Parse.Entry.{Outcome, returned, faulted, unfinished, parser_parse}
use libedi.Xml.Tokens.{
  Config, open_tag, close_tag, open_with, Ran, and_then, returns, output, output_plain, newline,
  error_counting,
}
use libedi.Xml.Segments.{segment_to_xml}

-- `namespaces`
abbrev pub namespaces : Bytes
namespaces =
    codes
      "xmlns:X=\"http://www.ctm.ru/edi/xchg\" xmlns:S=\"http://www.ctm.ru/edi/segs\" xmlns:C=\"http://www.ctm.ru/edi/comps\" xmlns:E=\"http://www.ctm.ru/edi/els\" xmlns:Z=\"http://www.ctm.ru/edi/codes\""

-- The test of `parse_message_header`, whose result is not used any further.
unfoldable pub is_message_header : List Element → Bool
is_message_header (a ∷ b ∷ composite vs ∷ []) = not (ltb (length vs) 4)
is_message_header es = false

unfoldable pub parse_message_header : Config → Segment → Ran (Unit {0})
unfolding is_message_header error_counting
parse_message_header opts seg =
    if is_message_header seg.elements then returns tt else error_counting opts

-- `if(0 == strcmp(tag, …)) { … }`
abbrev pub when_tag : Bytes → Bytes → Ran (Unit {0}) → Ran (Unit {0})
when_tag tag name act = if same_text tag name then act else returns tt

module _ (opts : Config) where
  -- What is written in front of a segment.
  unfoldable pub opening : Segment → Bytes → Ran (Unit {0})
  unfolding and_then same_text parse_message_header
  opening seg tag =
      and_then
        (when_tag tag (codes "UNB")
          (output (open_with (codes "X:interchange") namespaces ∷ newline ∷ [])))
        λ _.
          and_then
            (when_tag tag (codes "UNG") (output_plain (open_tag (codes "X:group") ∷ newline ∷ [])))
            λ _. when_tag tag (codes "UNH") (
              and_then (parse_message_header opts seg)
                λ _. output_plain (open_tag (codes "X:message") ∷ newline ∷ []))

  -- What is written behind it.
  unfoldable pub closing : Bytes → Ran (Unit {0})
  unfolding and_then same_text
  closing tag =
      and_then
        (when_tag tag (codes "UNZ")
          (output_plain (close_tag (codes "X:interchange") ∷ newline ∷ [])))
        λ _.
          and_then
            (when_tag tag (codes "UNE") (output_plain (close_tag (codes "X:group") ∷ newline ∷ [])))
            λ _.
              when_tag tag (codes "UNT")
                (output_plain (close_tag (codes "X:message") ∷ newline ∷ []))

  module _ (cur : Option Structs) where
    -- The body of the loop: a NULL tag goes to `strcmp`.
    abbrev pub conv_tagged : Segment → Option Value → Ran (Unit {0})
    conv_tagged seg none = none
    conv_tagged seg (some tag) =
        and_then (opening seg tag.text)
          λ _. and_then (segment_to_xml opts cur seg) λ _. closing tag.text

    unfoldable pub conv_segments : List Segment → Ran (Unit {0})
    unfolding and_then opening closing segment_to_xml
    conv_segments [] = returns tt
    conv_segments (seg ∷ segs) = and_then (conv_tagged seg seg.tag) λ _. conv_segments segs

    -- The result is `true` for 0 and `false` for -1.
    abbrev pub conv_parsed : Outcome → Ran Bool
    conv_parsed (returned p none) = returns false
    conv_parsed (returned p (some i)) = and_then (conv_segments i.segments) λ _. returns true
    conv_parsed faulted = none
    conv_parsed unfinished = none

    -- `edi2xml_conv` where `conv` is not open: its calls of `output`, and its result.
    unfoldable pub edi2xml_conv : Registry → Bytes → Ran Bool
    unfolding and_then conv_segments parser_parse parser_create
    edi2xml_conv reg edi_text = conv_parsed (parser_parse reg (parser_create none) edi_text)

-- ===== src/Xml/Segments.antt =====
-- `segment_to_xml` of libedixml/conv.c.
use libedi.Base.{
  Bool, true, false, ◌||◌, List, [], ◌∷◌, ◌++◌, Option, none, some, ◌==◌, if◌then◌else◌, is_nil,
}
use libedi.Base.Chars.{Bytes, codes, same_text}
use libedi.Interchange.{Value, Element, untyped, simple, composite, Segment}
use libedi.Struct.Tables.{SegmentInfo, CompositeInfo, Structs}
use libedi.Struct.Lookup.{find_segment, find_composite}
use libedi.Xml.Tokens.{
  Config, open_tag, close_tag, comment, Ran, and_then, returns, output, newline, string, error,
  error_counting,
}
use libedi.Xml.Elements.{search, element_to_xml, element_missing_xml, can_be_truncated}

-- `*s == 'C' || *s == 'S'`
unfoldable pub names_composite : Bytes → Bool
names_composite [] = false
names_composite (c ∷ s) = c == b'C' || c == b'S'

module _ (opts : Config) (cur : Option Structs) where
  -- A value of a composite, or the comment that it is missing; `child` is the entry of the table,
  -- whose first byte is skipped.
  abbrev pub value_to_xml : Bytes → Option Value → Ran (Unit {0})
  value_to_xml [] v = none
  value_to_xml (c ∷ name) none = element_missing_xml opts cur name
  value_to_xml (c ∷ name) (some v) =
      let missing = element_missing_xml opts cur name in
      if v.len == 0 then missing else element_to_xml opts cur name v.text

  -- The loop over the children of a composite.
  unfoldable pub values_to_xml : List Bytes → List Value → Ran (Unit {0})
  unfolding and_then element_to_xml element_missing_xml
  values_to_xml [] vs = returns tt
  values_to_xml (child ∷ children) [] =
      and_then (value_to_xml child none) λ _. values_to_xml children []
  values_to_xml (child ∷ children) (v ∷ vs) =
      and_then (value_to_xml child (some v)) λ _. values_to_xml children vs

  -- The branch on `is_composite` for a composite of the table.
  unfoldable pub composite_to_xml : Bytes → CompositeInfo → List Value → Ran (Unit {0})
  unfolding and_then values_to_xml
  composite_to_xml s c vs =
      and_then (if opts.comments_element_names then output (comment s ∷ []) else returns tt) λ _.
        and_then (string c.title2) λ title2.
          and_then (output (open_tag (codes "C:" ++ title2) ∷ newline ∷ [])) λ _.
            and_then (values_to_xml c.children vs)
              λ _. output (close_tag (codes "C:" ++ title2) ∷ newline ∷ [])

  -- What one child of the segment leads to: the next child with the next element, the next child
  -- with the same one, or `break`.
  pub data Next : Type 0 where
    advance keep stop : Next

  abbrev pub and_advance : Ran (Unit {0}) → Ran Next
  and_advance r = and_then r λ _. returns advance

  -- An element of the wrong type.
  abbrev pub mismatched : Bool → Bytes → Ran Next
  mismatched is_optional s =
      let missing = and_advance (element_missing_xml opts cur s) in
      if is_optional then missing else (and_then (error opts) λ _. returns stop)

  -- A simple element where a composite is due is made one if that may be cut short; `values` is
  -- what it has then.
  abbrev pub truncated : Bool → Bytes → CompositeInfo → List Value → Ran Next
  truncated is_optional s c vs =
      and_then (can_be_truncated c.children)
        λ may. if may then and_advance (composite_to_xml s c vs) else mismatched is_optional s

  -- A child that is a composite; NULL from the search is followed.
  abbrev pub composite_child : Bool → Bytes → Element → Option CompositeInfo → Ran Next
  composite_child is_optional s e none = none
  composite_child is_optional s (composite vs) (some c) = and_advance (composite_to_xml s c vs)
  composite_child is_optional s (simple v) (some c) = truncated is_optional s c (v ∷ [])
  composite_child is_optional s untyped (some c) = truncated is_optional s c []

  abbrev pub simple_child : Bool → Bytes → Element → Ran Next
  simple_child is_optional s (simple v) = and_advance (element_to_xml opts cur s v.text)
  simple_child is_optional s e = mismatched is_optional s

  abbrev pub element_child : Bool → Bytes → Element → Option CompositeInfo → Ran Next
  element_child is_optional s e cstruct =
      if names_composite s
      then composite_child is_optional s e cstruct
      else simple_child is_optional s e

  abbrev pub absent : Bool → Ran Next
  absent is_optional =
      if is_optional then returns keep else (and_then (error opts) λ _. returns stop)

  abbrev pub find_child : Bytes → Ran (Option CompositeInfo)
  find_child s = if names_composite s then search (find_composite cur s) else returns none

  -- The body of the loop over the children, for the child and what is left of the elements.
  unfoldable pub child_to_xml : Bytes → List Element → Ran Next
  unfolding and_then names_composite
  child_to_xml [] es = none
  child_to_xml (c ∷ s) [] = and_then (find_child s) λ _. absent (c == b'C')
  child_to_xml (c ∷ s) (e ∷ es) = and_then (find_child s) (element_child (c == b'C') s e)

  abbrev pub rest_after : Next → List Element → List Element
  rest_after advance [] = []
  rest_after advance (e ∷ es) = es
  rest_after _ es = es

  abbrev pub goes_on : Next → Bool
  goes_on stop = false
  goes_on _ = true

  -- The loop over the children: the elements that are left.
  unfoldable pub children_to_xml : List Bytes → List Element → Ran (List Element)
  unfolding and_then child_to_xml
  children_to_xml [] es = returns es
  children_to_xml (child ∷ children) es = and_then (child_to_xml child es) λ n.
      let rest = children_to_xml children (rest_after n es) in
      if goes_on n then rest else returns es

  -- The elements from `data_element_index` on: the first one is skipped if it is the tag.
  unfoldable pub data_elements : Value → List Element → Ran (List Element)
  unfolding same_text
  data_elements tag [] = none
  data_elements tag (simple v ∷ es) =
      if same_text v.text tag.text then returns es else returns (simple v ∷ es)
  data_elements tag es = returns es

  abbrev pub extra_data : List Element → Ran (Unit {0})
  extra_data es = if is_nil es then returns tt else error_counting opts

  unfoldable pub segment_found : Value → List Element → Option SegmentInfo → Ran (Unit {0})
  unfolding and_then error error_counting data_elements children_to_xml
  segment_found tag es none = error opts
  segment_found tag es (some info) = and_then (data_elements tag es) λ data_es.
      and_then
        (if opts.comments_segment_names
          then output (comment info.name ∷ newline ∷ [])
          else returns tt)
        λ _. and_then (string info.title2) λ title2.
          and_then (output (open_tag (codes "S:" ++ title2) ∷ newline ∷ [])) λ _.
            and_then (children_to_xml info.children data_es) λ rest.
              and_then (extra_data rest)
                λ _. output (close_tag (codes "S:" ++ title2) ∷ newline ∷ [])

  abbrev pub tagged_to_xml : List Element → Option Value → Ran (Unit {0})
  tagged_to_xml es none = none
  tagged_to_xml es (some tag) = and_then (search (find_segment cur tag.text)) (segment_found tag es)

  unfoldable pub segment_to_xml : Segment → Ran (Unit {0})
  unfolding and_then segment_found
  segment_to_xml seg = tagged_to_xml seg.elements seg.tag

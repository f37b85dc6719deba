-- ===== src/Xml/Whole.antt =====
-- `segment_to_xml` of libedixml/conv.c with tables that are in order: it comes to its end, and its
-- tags are nested.
use libedi.Base.{
  ℕ, Bool, true, false, List, [], ◌∷◌, ◌++◌, Option, none, some, ◌≡◌, ◌≢◌, ◌⊎◌, ◌==◌, refl, All,
  Bool-cases, inl, inr, is_nil,
}
use libedi.Base.Chars.{Bytes, codes, same_text}
use libedi.Interchange.{Value, Element, untyped, simple, composite, Segment}
use libedi.Struct.Tables.{SegmentInfo, CompositeInfo, Structs}
use libedi.Struct.Lookup.{hit, find_segment, find_composite}
use libedi.Xml.Tokens.{Config, IsQuiet, Ran}
use libedi.Xml.Elements.{can_be_truncated}
use libedi.Xml.Segments.{
  names_composite, value_to_xml, values_to_xml, composite_to_xml, advance, keep, stop, and_advance,
  mismatched, truncated, composite_child, simple_child, element_child, absent, find_child,
  child_to_xml, rest_after, goes_on, children_to_xml, data_elements, extra_data, segment_found,
  segment_to_xml,
}
use libedi.Xml.Nested.{
  starts, first_call, no_token, remark, data_text, opens, closes, Goes, Anything, HasString, OrNull,
  IfSome, output-Goes, returns-Goes, string-Goes, search-Goes, and_then-Goes, behind-Goes, if-Goes,
}
use libedi.Xml.Complete.{
  HasElements, error-Goes, error_counting-Goes, element_to_xml-Goes, element_missing_xml-Goes,
}

-- A composite of the tables that is in order: with a title to name its tag, one child at least, and
-- no child without its first byte.
pub record IsComposite (c : CompositeInfo) : Type 0 where
  pub titled : HasString c.title2
  pub some_child : c.children ≢ []
  pub marked : All (λ s. s ≢ []) c.children

-- A child of a segment: its first byte, and the name of an element or of a composite in the tables.
abbrev pub IsChild : Option Structs → Bytes → Type 0
IsChild cur [] = ⊥
IsChild cur (c ∷ s) =
    names_composite s ≡ true
    → (info : CompositeInfo) × (find_composite cur s ≡ hit info) × IsComposite info

abbrev pub IsSegmentInfo : Option Structs → SegmentInfo → Type 0
IsSegmentInfo cur s = HasString s.title2 × All (IsChild cur) s.children

-- What the search for a child may return: a composite in order where the name is that of one.
abbrev FitsChild : Bytes → Option CompositeInfo → Type 0
FitsChild s o =
    names_composite s ≡ true → (info : CompositeInfo) × (o ≡ some info) × IsComposite info

-- Tables that are in order.
pub record AreComplete (cur : Option Structs) : Type 0 where
  pub elements : HasElements cur
  pub segments : (name : Bytes) → OrNull (IsSegmentInfo cur) (find_segment cur name)

module _ (opts : Config) (cur : Option Structs) (quiet : IsQuiet opts)
    (tables : AreComplete cur) where
  module _ {st : List Bytes} where
    value_to_xml-Goes :
        (child : Bytes) (v : Option Value)
        → child ≢ []
        → Goes st st Anything (value_to_xml opts cur child v)
    value_to_xml-Goes [] v ne = absurd (ne refl)
    value_to_xml-Goes (c ∷ name) none ne =
        element_missing_xml-Goes opts cur quiet tables.elements name
    value_to_xml-Goes (c ∷ name) (some v) ne =
        if-Goes (v.len == 0) (element_missing_xml-Goes opts cur quiet tables.elements name)
          (element_to_xml-Goes opts cur quiet tables.elements name v.text)

    values_to_xml-Goes :
        (children : List Bytes) (vs : List Value)
        → All (λ s. s ≢ []) children
        → Goes st st Anything (values_to_xml opts cur children vs)
    unfolding values_to_xml
    values_to_xml-Goes [] vs h = returns-Goes tt tt
    values_to_xml-Goes (child ∷ children) [] h =
        and_then-Goes (value_to_xml-Goes child none h.0) λ _ _. values_to_xml-Goes children [] h.1
    values_to_xml-Goes (child ∷ children) (v ∷ vs) h =
        and_then-Goes (value_to_xml-Goes child (some v) h.0)
          λ _ _. values_to_xml-Goes children vs h.1

  module _ {st : List Bytes} where
    composite_to_xml-Goes :
        (s : Bytes) (c : CompositeInfo) (vs : List Value)
        → IsComposite c
        → Goes st st Anything (composite_to_xml opts cur s c vs)
    unfolding composite_to_xml
    composite_to_xml-Goes s c vs h =
        and_then-Goes
          (if-Goes opts.comments_element_names (output-Goes (remark _ no_token))
            (returns-Goes tt tt))
          λ _ _. and_then-Goes (string-Goes h.titled) λ title2 _.
            behind-Goes first_call
              (starts true (opens (codes "C:" ++ title2) (data_text _ no_token)))
              (and_then-Goes (values_to_xml-Goes c.children vs h.marked)
                λ _ _. output-Goes (closes _ (data_text _ no_token)))

    and_advance-Goes :
        {o : Ran (Unit {0})} → Goes st st Anything o → Goes st st Anything (and_advance opts cur o)
    and_advance-Goes g = and_then-Goes g λ _ _. returns-Goes advance tt

    mismatched-Goes :
        (is_optional : Bool) (s : Bytes) → Goes st st Anything (mismatched opts cur is_optional s)
    mismatched-Goes b s =
        if-Goes b (and_advance-Goes (element_missing_xml-Goes opts cur quiet tables.elements s))
          (and_then-Goes (error-Goes opts cur quiet) λ _ _. returns-Goes stop tt)

    can_be_truncated-Goes :
        (children : List Bytes) → children ≢ [] → Goes st st Anything (can_be_truncated children)
    unfolding can_be_truncated
    can_be_truncated-Goes [] ne = absurd (ne refl)
    can_be_truncated-Goes (c ∷ children) ne = returns-Goes _ tt

    truncated-Goes :
        (b : Bool) (s : Bytes) (c : CompositeInfo) (vs : List Value)
        → IsComposite c
        → Goes st st Anything (truncated opts cur b s c vs)
    truncated-Goes b s c vs h =
        and_then-Goes (can_be_truncated-Goes c.children h.some_child) λ may _.
          if-Goes may (and_advance-Goes (composite_to_xml-Goes s c vs h)) (mismatched-Goes b s)

    composite_child-Goes :
        (b : Bool) (s : Bytes) (e : Element) (c : CompositeInfo)
        → IsComposite c
        → Goes st st Anything (composite_child opts cur b s e (some c))
    composite_child-Goes b s untyped c h = truncated-Goes b s c [] h
    composite_child-Goes b s (simple v) c h = truncated-Goes b s c (v ∷ []) h
    composite_child-Goes b s (composite vs) c h = and_advance-Goes (composite_to_xml-Goes s c vs h)

    simple_child-Goes :
        (b : Bool) (s : Bytes) (e : Element) → Goes st st Anything (simple_child opts cur b s e)
    simple_child-Goes b s untyped = mismatched-Goes b s
    simple_child-Goes b s (composite vs) = mismatched-Goes b s
    simple_child-Goes b s (simple v) =
        and_advance-Goes (element_to_xml-Goes opts cur quiet tables.elements s v.text)

    absent-Goes : (b : Bool) → Goes st st Anything (absent opts cur b)
    absent-Goes b =
        if-Goes b (returns-Goes keep tt)
          (and_then-Goes (error-Goes opts cur quiet) λ _ _. returns-Goes stop tt)

    find_child-Goes :
        (c : ℕ) (s : Bytes) → IsChild cur (c ∷ s) → Goes st st (FitsChild s) (find_child opts cur s)
    find_child-Goes c s h = by_name (Bool-cases (names_composite s))
      where
        by_name :
            (names_composite s ≡ true) ⊎ (names_composite s ≡ false)
            → Goes st st (FitsChild s) (find_child opts cur s)
        by_name (inl e) =
            let (info, found, good) = h e in
            rw (e, found) (returns-Goes (some info) (λ _. (info, refl, good)))
        by_name (inr n) = rw n (returns-Goes none (λ e. absurd cc))

    element_child-Goes :
        (b : Bool) (s : Bytes) (e : Element) (o : Option CompositeInfo)
        → FitsChild s o
        → Goes st st Anything (element_child opts cur b s e o)
    element_child-Goes b s e o h = by_name (Bool-cases (names_composite s))
      where
        by_name :
            (names_composite s ≡ true) ⊎ (names_composite s ≡ false)
            → Goes st st Anything (element_child opts cur b s e o)
        by_name (inl k) =
            let (info, found, good) = h k in rw (k, found) (composite_child-Goes b s e info good)
        by_name (inr n) = rw n (simple_child-Goes b s e)

    child_to_xml-Goes :
        (s : Bytes) (es : List Element)
        → IsChild cur s
        → Goes st st Anything (child_to_xml opts cur s es)
    unfolding child_to_xml
    child_to_xml-Goes [] es h = absurd h
    child_to_xml-Goes (c ∷ s) [] h =
        and_then-Goes (find_child-Goes c s h) λ _ _. absent-Goes (c == b'C')
    child_to_xml-Goes (c ∷ s) (e ∷ es) h =
        and_then-Goes (find_child-Goes c s h) (element_child-Goes (c == b'C') s e)

    data_elements-Goes :
        (tag : Value) (es : List Element)
        → es ≢ []
        → Goes st st Anything (data_elements opts cur tag es)
    unfolding data_elements
    data_elements-Goes tag [] ne = absurd (ne refl)
    data_elements-Goes tag (simple v ∷ es) ne =
        if-Goes (same_text v.text tag.text) (returns-Goes es tt) (returns-Goes (simple v ∷ es) tt)
    data_elements-Goes tag (untyped ∷ es) ne = returns-Goes _ tt
    data_elements-Goes tag (composite vs ∷ es) ne = returns-Goes _ tt

    extra_data-Goes : (es : List Element) → Goes st st Anything (extra_data opts cur es)
    extra_data-Goes es =
        if-Goes (is_nil es) (returns-Goes tt tt) (error_counting-Goes opts cur quiet)

  children_to_xml-Goes :
      {st : List Bytes} (children : List Bytes) (es : List Element)
      → All (IsChild cur) children
      → Goes st st Anything (children_to_xml opts cur children es)
  unfolding children_to_xml
  children_to_xml-Goes [] es h = returns-Goes es tt
  children_to_xml-Goes (child ∷ children) es h =
      and_then-Goes (child_to_xml-Goes child es h.0) λ n _.
        if-Goes (goes_on opts cur n) (children_to_xml-Goes children (rest_after opts cur n es) h.1)
          (returns-Goes es tt)

  segment_found-Goes :
      {st : List Bytes} (tag : Value) (es : List Element) (info : Option SegmentInfo)
      → es ≢ []
      → IfSome (IsSegmentInfo cur) info
      → Goes st st Anything (segment_found opts cur tag es info)
  unfolding segment_found
  segment_found-Goes tag es none ne h = error-Goes opts cur quiet
  segment_found-Goes tag es (some info) ne h =
      and_then-Goes (data_elements-Goes tag es ne) λ data_es _.
        and_then-Goes
          (if-Goes opts.comments_segment_names (output-Goes (remark _ (data_text _ no_token)))
            (returns-Goes tt tt))
          λ _ _. and_then-Goes (string-Goes h.0) λ title2 _.
            behind-Goes first_call
              (starts true (opens (codes "S:" ++ title2) (data_text _ no_token)))
              (and_then-Goes (children_to_xml-Goes info.children data_es h.1) λ rest _.
                and_then-Goes (extra_data-Goes rest)
                  λ _ _. output-Goes (closes _ (data_text _ no_token)))

  pub segment_to_xml-Goes :
      {st : List Bytes} (seg : Segment) (tag : Value)
      → seg.tag ≡ some tag
      → seg.elements ≢ []
      → Goes st st Anything (segment_to_xml opts cur seg)
  unfolding segment_to_xml
  segment_to_xml-Goes seg tag e ne = rw e (
      and_then-Goes (search-Goes (find_segment cur tag.text) (tables.segments tag.text))
        (λ info h. segment_found-Goes tag seg.elements info ne h))

-- ===== src/Xml/Complete.antt =====
-- What `segment_to_xml` of libedixml/conv.c writes with tables that are in order.
use libedi.Base.{true, List, ◌++◌, Option, none, some}
use libedi.Base.Chars.{Bytes, codes}
use libedi.Struct.Tables.{ElementInfo, Coded, Structs}
use libedi.Struct.Lookup.{find_element, find_coded_value}
use libedi.Xml.Tokens.{Config, IsQuiet, Token, error, error_counting}
use libedi.Xml.Elements.{
  comment_coded, translate_coded, coded_found, coded_to_xml, text_or, comment_name, element_found,
  element_to_xml, missing_found, element_missing_xml,
}
use libedi.Xml.Nested.{
  Moves, starts, first_call, no_token, empty, remark, data_text, opens, opens_coded, closes,
  Moves-append, Goes, Anything, HasString, OrNull, IfSome, output-Goes, returns-Goes, string-Goes,
  search-Goes, and_then-Goes, behind-Goes, if-Goes,
}

abbrev pub IsCoded : Coded → Type 0
IsCoded z = HasString z.title × HasString z.title2 × HasString z.function

abbrev pub IsElement : ElementInfo → Type 0
IsElement e = HasString e.title × HasString e.title2

-- The tables of elements and coded values: each search ends, and what it finds has its strings.
pub record HasElements (cur : Option Structs) : Type 0 where
  pub elements : (name : Bytes) → OrNull IsElement (find_element cur name)
  pub coded : (el name : Bytes) → OrNull IsCoded (find_coded_value cur el name)

-- Markup that is returned leaves the tags open that it finds open.
abbrev IsMarkup : Option (List Token) → Type 0
IsMarkup t = (val : Bytes) (st : List Bytes) → Moves st (text_or val t) st

no-IsMarkup : IsMarkup none
no-IsMarkup val s = data_text _ no_token

module _ (opts : Config) (cur : Option Structs) (quiet : IsQuiet opts) where
  pub error-Goes : {st : List Bytes} → Goes st st Anything (error opts)
  unfolding error
  error-Goes = rw (quiet.no_comments) (returns-Goes tt tt)

  pub error_counting-Goes : {st : List Bytes} → Goes st st Anything (error_counting opts)
  unfolding error_counting
  error_counting-Goes = rw (quiet.counts) error-Goes

  module _ (tables : HasElements cur) {st : List Bytes} where
    comment_coded-Goes :
        (val : Bytes) (z : Coded) → IsCoded z → Goes st st Anything (comment_coded opts cur val z)
    unfolding comment_coded
    comment_coded-Goes val z h =
        if-Goes opts.comments_coded_values
          (and_then-Goes (string-Goes h.0)
            λ _ _. and_then-Goes (string-Goes h.2) λ _ _. output-Goes (remark _ no_token))
          (returns-Goes tt tt)

    translate_coded-Goes :
        (val : Bytes) (z : Coded) → IsCoded z → Goes st st IsMarkup (translate_coded opts cur val z)
    unfolding translate_coded
    translate_coded-Goes val z h =
        if-Goes opts.translate_coded_values
          (if-Goes opts.translate_coded_to_elements
            (and_then-Goes (string-Goes h.1) λ _ _. returns-Goes (some _) (λ _ _. empty _ no_token))
            (and_then-Goes (string-Goes h.0) λ _ _.
              returns-Goes (some _) (λ _ _. opens_coded _ (data_text _ (closes _ no_token)))))
          (returns-Goes none no-IsMarkup)

    coded_found-Goes :
        (val : Bytes) (z : Option Coded)
        → IfSome IsCoded z
        → Goes st st IsMarkup (coded_found opts cur val z)
    coded_found-Goes val none h = returns-Goes none no-IsMarkup
    coded_found-Goes val (some z) h =
        and_then-Goes (comment_coded-Goes val z h) λ _ _. translate_coded-Goes val z h

    coded_to_xml-Goes : (name val : Bytes) → Goes st st IsMarkup (coded_to_xml opts cur name val)
    unfolding coded_to_xml
    coded_to_xml-Goes name val =
        and_then-Goes (search-Goes (find_coded_value cur name val) (tables.coded name val))
          (coded_found-Goes val)

    comment_name-Goes : (name : Bytes) → Goes st st Anything (comment_name opts cur name)
    comment_name-Goes name =
        if-Goes opts.comments_element_names (output-Goes (remark _ (data_text _ no_token)))
          (returns-Goes tt tt)

  module _ (tables : HasElements cur) {st : List Bytes} where
    element_found-Goes :
        (name val : Bytes) (e : Option ElementInfo)
        → IfSome IsElement e
        → Goes st st Anything (element_found opts cur name val e)
    unfolding element_found
    element_found-Goes name val none h = error-Goes
    element_found-Goes name val (some e) h = and_then-Goes (string-Goes h.1) λ title2 _.
        behind-Goes first_call (starts true (opens (codes "E:" ++ title2) no_token)) (
          and_then-Goes
            (if-Goes e.is_coded (coded_to_xml-Goes tables name val) (returns-Goes none no-IsMarkup))
            λ t m. output-Goes (Moves-append (m val _) (closes _ (data_text _ no_token))))

    pub element_to_xml-Goes :
        (name val : Bytes) → Goes st st Anything (element_to_xml opts cur name val)
    unfolding element_to_xml
    element_to_xml-Goes name val = and_then-Goes (comment_name-Goes tables name) λ _ _.
        and_then-Goes (search-Goes (find_element cur name) (tables.elements name))
          (element_found-Goes name val)

    missing_found-Goes :
        (name : Bytes) (e : Option ElementInfo)
        → IfSome IsElement e
        → Goes st st Anything (missing_found opts cur name e)
    unfolding missing_found
    missing_found-Goes name none h = output-Goes (remark _ (data_text _ no_token))
    missing_found-Goes name (some e) h =
        and_then-Goes (string-Goes h.0) λ _ _. output-Goes (remark _ (data_text _ no_token))

    pub element_missing_xml-Goes :
        (name : Bytes) → Goes st st Anything (element_missing_xml opts cur name)
    unfolding element_missing_xml
    element_missing_xml-Goes name =
        if-Goes opts.comments_element_names
          (and_then-Goes (search-Goes (find_element cur name) (tables.elements name))
            (missing_found-Goes name))
          (returns-Goes tt tt)

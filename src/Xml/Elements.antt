-- ===== src/Xml/Elements.antt =====
-- `coded_to_xml`, `element_to_xml`, `element_missing_xml` and `can_be_truncated` of
-- libedixml/conv.c.
use libedi.Base.{Bool, true, false, List, [], ◌∷◌, ◌++◌, Option, none, some, ◌==◌, if◌then◌else◌}
use libedi.Base.Chars.{Bytes, codes}
use libedi.Struct.Tables.{Coded, ElementInfo, Structs}
use libedi.Struct.Lookup.{Found, hit, miss, fault, unfinished, find_coded_value, find_element}
use libedi.Xml.Tokens.{
  Config, Token, open_tag, close_tag, empty_tag, coded_tag, comment, text, Ran, and_then, returns,
  output, newline, string, error, escape_xml,
}

-- A search as a call: NULL is `none`.
abbrev pub search {ℓ} : {A : Type ℓ} → Found A → Ran (Option A)
search (hit a) = returns (some a)
search miss = returns none
search fault = none
search unfinished = none

-- `if(! text) text = escape_xml(val);`
abbrev pub text_or : Bytes → Option (List Token) → List Token
text_or val none = text (escape_xml val) ∷ []
text_or val (some ts) = ts

module _ (opts : Config) (cur : Option Structs) where
  -- The comment on a coded value.
  unfoldable pub comment_coded : Bytes → Coded → Ran (Unit {0})
  unfolding and_then
  comment_coded val z =
      if opts.comments_coded_values
      then (and_then (string z.title) λ title. and_then (string z.function) λ function.
          output (comment (val ++ (codes ": " ++ (title ++ (codes ", " ++ function)))) ∷ []))
      else returns tt

  -- The text that is returned, which is markup.
  unfoldable pub translate_coded : Bytes → Coded → Ran (Option (List Token))
  unfolding and_then escape_xml
  translate_coded val z =
      if opts.translate_coded_values
      then (if opts.translate_coded_to_elements
          then (and_then (string z.title2)
              λ title2. returns (some (empty_tag (codes "Z:" ++ title2) ∷ [])))
          else (and_then (string z.title) λ title.
              returns (
                some (coded_tag val ∷ text (escape_xml title) ∷ close_tag (codes "X:coded") ∷ []))))
      else returns none

  abbrev pub coded_found : Bytes → Option Coded → Ran (Option (List Token))
  coded_found val none = returns none
  coded_found val (some z) = and_then (comment_coded val z) λ _. translate_coded val z

  unfoldable pub coded_to_xml : Bytes → Bytes → Ran (Option (List Token))
  unfolding and_then comment_coded translate_coded find_coded_value
  coded_to_xml name val = and_then (search (find_coded_value cur name val)) (coded_found val)

  abbrev pub comment_name : Bytes → Ran (Unit {0})
  comment_name name =
      if opts.comments_element_names then output (comment name ∷ newline ∷ []) else returns tt

  -- The element that was found, or the error.
  unfoldable pub element_found : Bytes → Bytes → Option ElementInfo → Ran (Unit {0})
  unfolding and_then coded_to_xml error escape_xml
  element_found name val none = error opts
  element_found name val (some e) = and_then (string e.title2) λ title2.
      and_then (output (open_tag (codes "E:" ++ title2) ∷ [])) λ _.
        and_then (if e.is_coded then coded_to_xml name val else returns none)
          λ t. output (text_or val t ++ close_tag (codes "E:" ++ title2) ∷ newline ∷ [])

  unfoldable pub element_to_xml : Bytes → Bytes → Ran (Unit {0})
  unfolding and_then element_found find_element
  element_to_xml name val =
      and_then (comment_name name)
        λ _. and_then (search (find_element cur name)) (element_found name val)

  unfoldable pub missing_found : Bytes → Option ElementInfo → Ran (Unit {0})
  unfolding and_then escape_xml
  missing_found name none = output (comment (codes "[no " ++ (name ++ codes "]")) ∷ newline ∷ [])
  missing_found name (some e) = and_then (string e.title) λ title. output (
      comment (codes "[no " ++ (name ++ (codes ": " ++ (escape_xml title ++ codes "]"))))
      ∷ newline
      ∷ [])

  unfoldable pub element_missing_xml : Bytes → Ran (Unit {0})
  unfolding and_then missing_found find_element
  element_missing_xml name =
      let found = and_then (search (find_element cur name)) (missing_found name) in
      if opts.comments_element_names then found else returns tt

-- No child but the first is mandatory; the flag is the test of the loop.
unfoldable pub no_mandatory : List Bytes → Bool
no_mandatory [] = true
no_mandatory ([] ∷ children) = no_mandatory children
no_mandatory ((c ∷ name) ∷ children) =
    let rest = no_mandatory children in if c == b'M' then false else rest

-- `can_be_truncated`: without a first child the loop starts behind the end of the array.
unfoldable pub can_be_truncated : List Bytes → Ran Bool
unfolding no_mandatory
can_be_truncated [] = none
can_be_truncated (first ∷ children) = returns (no_mandatory children)

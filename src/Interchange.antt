-- ===== src/Interchange.antt =====
-- The interchange of include/libedi.h, its segments and elements, and the parser of
-- libedi/p_libedi.h.
use libedi.Base.{ℕ, List, [], Option, map}
use libedi.Base.Chars.{Bytes}
use libedi.Pool.{Ref, Pools}

-- A value of an element: the buffer that a `char *` points to, the string found there, and the
-- length kept beside the pointer.
pub record Value : Type 0 where
  pub at : Ref
  pub text : Bytes
  pub len : ℕ

-- `edi_element_t`; `untyped` is one that `memset` has cleared.
pub data Element : Type 0 where
  untyped : Element
  simple : Value → Element
  composite : List Value → Element

-- `edi_segment_t`; a NULL tag is `none`.
pub record Segment : Type 0 where
  pub elements : List Element
  pub tag : Option Value
  pub offset : ℕ

-- `edi_interchange_t` with its private part.
pub record Interchange : Type 0 where
  pub segments : List Segment
  pub pools : Pools

-- `EDI_ERR_NONE`, `EDI_ERR_SYSTEM`, `EDI_ERR_UNTERMINATED` and `EDI_ERR_EMPTY`.
pub data ParseError : Type 0 where
  err_none err_system err_unterminated err_empty : ParseError

-- `edi_parser_t`
pub record Parser : Type 0 where
  pub error : ParseError
  pub sep_seg : ℕ
  pub sep_data : ℕ
  pub sep_sub : ℕ
  pub sep_tag : ℕ
  pub escape : ℕ
  pub detect : ℕ

-- What an interchange says, without the places where its values are kept.
pub data Field : Type 0 where
  one : Bytes → Field
  many : List Bytes → Field

abbrev pub value_text : Value → Bytes
value_text v = v.text

abbrev pub field_of : Element → Field
field_of untyped = many []
field_of (simple v) = one v.text
field_of (composite vs) = many (map value_text vs)

abbrev pub fields_of : Segment → List Field
fields_of s = map field_of s.elements

abbrev pub content_of : Interchange → List (List Field)
content_of i = map fields_of i.segments

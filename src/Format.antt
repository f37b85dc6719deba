-- ===== src/Format.antt =====
-- The written form of a message, as libedi/parse.c reads it and libedi/build.c writes it, with no
-- buffer and no parser: a description that both are measured against.
use libedi.Base.{ℕ, Bool, true, false, List, [], ◌∷◌, ◌++◌, if◌then◌else◌}
use libedi.Base.Chars.{Bytes}
use libedi.Params.{Params}
use libedi.Interchange.{Field, one, many}
use libedi.Build.Buffer.{needs_escape}

module _ (params : Params) where
  -- A value, with the escape character in front of each byte that needs it.
  abbrev pub escaped_char : ℕ → Bytes
  escaped_char c = if needs_escape params c then params.escape ∷ c ∷ [] else c ∷ []

  abbrev pub escaped : Bytes → Bytes
  escaped [] = []
  escaped (c ∷ v) = escaped_char c ++ escaped v

  abbrev pub encode_values : List Bytes → Bytes
  encode_values [] = []
  encode_values (v ∷ []) = escaped v
  encode_values (v ∷ w ∷ vs) = escaped v ++ (params.subelement_separator ∷ encode_values (w ∷ vs))

  abbrev pub encode_field : Field → Bytes
  encode_field (one v) = escaped v
  encode_field (many vs) = encode_values vs

  -- The fields of a segment; behind the first one stands the tag separator.
  abbrev pub encode_fields : Bool → List Field → Bytes
  encode_fields first [] = []
  encode_fields first (f ∷ []) = encode_field f
  encode_fields first (f ∷ g ∷ fs) =
      encode_field f
      ++ ((if first then params.tag_separator else params.element_separator)
          ∷ encode_fields false (g ∷ fs))

  abbrev pub encode_segment : List Field → Bytes
  encode_segment fs = encode_fields true fs ++ (params.segment_separator ∷ [])

  abbrev pub encode : List (List Field) → Bytes
  encode [] = []
  encode (fs ∷ segments) = encode_segment fs ++ encode segments

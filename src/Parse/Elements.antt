-- ===== src/Parse/Elements.antt =====
-- The loop of `edi_parser_parse` in libedi/parse.c over the data elements of one segment.
use libedi.Base.{
  ℕ, zero, suc, ◌+◌, Bool, true, false, not, ◌&&◌, ◌||◌, List, [], ◌∷◌, ◌++◌, Option, none, some,
  ltb, length, is_nil, if◌then◌else◌,
}
use libedi.Base.Chars.{Bytes, char_is, peek}
use libedi.Pool.{Pools, stringpool_alloc}
use libedi.Interchange.{Value, Element, untyped, simple, composite, Parser}
use libedi.Parse.Scan.{scan, memcpyescape}

-- `ELEMENT_BLOCKSIZE`, and the 8 that the code adds to `elalloc`.
abbrev pub element_blocksize : ℕ
element_blocksize = 8

-- The variables of the loop. The segment's elements are `done` and then `*el`, which is the last
-- one unless `el` is NULL; `seg->nelements` is their number.
pub record SegState : Type 0 where
  pub done : List Element
  pub el : Option Element
  pub newel : Bool
  pub elalloc : ℕ
  pub tag : Option Value
  pub pools : Pools
  pub message : Bytes

abbrev pub close_element : List Element → Option Element → List Element
close_element done none = done
close_element done (some e) = done ++ e ∷ []

abbrev pub elements_of : SegState → List Element
elements_of s = close_element s.done s.el

-- `if(newel) { … }`
unfoldable pub open_element : SegState → SegState
open_element s =
    if s.newel
    then record s {
      done = elements_of s;
      el = some untyped;
      newel = false;
      elalloc =
          (if ltb s.elalloc (length (elements_of s) + 1)
            then s.elalloc + element_blocksize
            else s.elalloc);
    }
    else s

-- `el->type == EDI_ELEMENT_COMPOSITE`
abbrev pub is_composite : Option Element → Bool
is_composite (some (composite vs)) = true
is_composite _ = false

-- `el->composite.values`, which is empty in an element that was just cleared.
abbrev pub values_of : Option Element → List Value
values_of (some (composite vs)) = vs
values_of _ = []

-- The element with the value read added to it; the flag is `*message == parser->sep_sub`.
abbrev pub add_value : Option Element → Bool → Value → Element
add_value el at_sub v =
    if is_composite el || at_sub then composite (values_of el ++ v ∷ []) else simple v

-- Whether the value becomes the segment's tag; the first flag is `el == seg->elements`.
abbrev pub sets_tag : Bool → Option Element → Bool → Bool
sets_tag first el at_sub =
    first && (if is_composite el || at_sub then is_nil (values_of el) else true)

-- The body of the loop from `ts = message` up to its `break`: one value is read and stored in the
-- element at hand.
unfoldable pub store_value : Parser → SegState → SegState
store_value p s =
    let first = is_nil s.done in
    let (ts, message) = scan p first false s.message in
    let (pools, value) = stringpool_alloc s.pools (length ts + 1) in
    let text = memcpyescape p.escape false ts in
    let v : Value = record { at = value; text = text; len = length text } in
    let at_sub = char_is (peek message) p.sep_sub in
    record s {
      el = some (add_value s.el at_sub v);
      tag = (if sets_tag first s.el at_sub then some v else s.tag);
      pools = pools;
      message = message;
    }

unfoldable pub read_value : Parser → SegState → SegState
unfolding open_element store_value
read_value p s = store_value p (open_element s)

-- `*message && *message != parser->sep_seg`
unfoldable pub more_elements : Parser → Bytes → Bool
more_elements p [] = false
more_elements p (c ∷ m) = not (char_is c p.sep_seg)

abbrev pub skip_from : Parser → SegState → Bytes → SegState
skip_from p s [] = s
skip_from p s (c ∷ m) = record s {
  newel = s.newel || char_is c p.sep_data || char_is c p.sep_tag;
  message = m;
}

-- The end of the body: `newel` is set behind a data or tag separator, and the separator skipped.
unfoldable pub skip_separator : Parser → SegState → SegState
skip_separator p s = skip_from p s s.message

-- The loop. `none` means that the fuel ran out.
unfoldable pub read_elements : ℕ → Parser → SegState → Option SegState
read_elements zero p s = none
read_elements (suc fuel) p s =
    let s' = read_value p s in
    let next = read_elements fuel p (skip_separator p s') in
    if more_elements p s.message
    then (if more_elements p s'.message then next else some s')
    else some s

-- ===== src/Build/Write.antt =====
-- `edi_interchange_build` of libedi/build.c.
use libedi.Base.{
  ℕ, Bool, true, false, List, [], ◌∷◌, Option, none, some, ◌==◌, ◌&&◌, leb, length, if◌then◌else◌,
}
use libedi.Base.Chars.{Bytes, same_prefix}
use libedi.Params.{Params, or_default}
use libedi.Interchange.{Value, Element, untyped, simple, composite, Segment, Interchange}
use libedi.Build.Buffer.{Out, start_out, put, put_nul, unless_full, addescaped}
use libedi.Build.Header.{addhdrtrailer}

-- `hdrname` and `hdrtrail`, for the first element of the first segment.
pub record Header : Type 0 where
  pub hdrname : Bytes
  pub hdrtrail : Bytes

-- The test that sets `dohdrtrailer`: the value is the header's name.
unfoldable pub is_header : Header → Value → Bool
unfolding same_prefix
is_header h v = length h.hdrname == v.len && same_prefix v.len h.hdrname v.text

-- `dohdrtrailer` behind the elements of a segment. In a composite the length is compared with the
-- pointer `valuelens`, which lies over `simple.valuelen`: the address of a block is not the
-- length of a name.
unfoldable pub dohdrtrailer : Option Header → List Element → Bool
unfolding is_header
dohdrtrailer (some h) (simple v ∷ es) = is_header h v
dohdrtrailer _ _ = false

module _ (params : Params) (buflen : ℕ) where
  -- The header that is written in front of a message that has none.
  unfoldable pub write_header : Header → Out → Out
  unfolding addescaped addhdrtrailer
  write_header h o =
      unless_full buflen (addescaped params buflen h.hdrname o)
        (addhdrtrailer params buflen h.hdrtrail)

  -- The tests on `hdrname` before the first value of an element.
  unfoldable pub begin_element : Option Header → Element → Out → Out
  unfolding write_header is_header
  begin_element (some h) (simple v) o = if is_header h v then o else write_header h o
  begin_element (some h) (composite (v ∷ vs)) o = write_header h o
  begin_element _ _ o = o

  -- The loop over the values of a composite.
  unfoldable pub write_values : List Value → Out → Out
  unfolding addescaped put
  write_values [] o = o
  write_values (v ∷ []) o = addescaped params buflen v.text o
  write_values (v ∷ w ∷ vs) o =
      unless_full buflen (addescaped params buflen v.text o)
        λ o₁. unless_full buflen (put params.subelement_separator o₁) λ o₂. write_values (w ∷ vs) o₂

  -- Either branch on the type of the element, behind the tests on `hdrname`.
  unfoldable pub write_typed : Element → Out → Out
  unfolding addescaped write_values
  write_typed untyped o = o
  write_typed (simple v) o = addescaped params buflen v.text o
  write_typed (composite vs) o = write_values vs o

  unfoldable pub write_element : Option Header → Element → Out → Out
  unfolding begin_element write_typed
  write_element hdr e o = unless_full buflen (begin_element hdr e o) (write_typed e)

  -- The loop over the elements of a segment; the flag is `d == 0`.
  unfoldable pub write_elements : Option Header → Bool → List Element → Out → Out
  unfolding write_element put
  write_elements hdr first [] o = o
  write_elements hdr first (e ∷ []) o = write_element hdr e o
  write_elements hdr first (e ∷ f ∷ es) o = unless_full buflen (write_element hdr e o) λ o₁.
      unless_full buflen (put (if first then params.tag_separator else params.element_separator) o₁)
        λ o₂. write_elements none false (f ∷ es) o₂

  -- What ends a segment.
  unfoldable pub end_segment : Option Header → List Element → Out → Out
  unfolding addhdrtrailer put dohdrtrailer
  end_segment (some h) es o =
      if dohdrtrailer (some h) es
      then addhdrtrailer params buflen h.hdrtrail o
      else put params.segment_separator o
  end_segment none es o = put params.segment_separator o

  unfoldable pub write_segment : Option Header → Segment → Out → Out
  unfolding write_elements end_segment
  write_segment hdr s o =
      unless_full buflen (write_elements hdr true s.elements o) (end_segment hdr s.elements)

  -- The loop over the segments; only the first one meets the header.
  unfoldable pub write_segments : Option Header → List Segment → Out → Out
  unfolding write_segment
  write_segments hdr [] o = o
  write_segments hdr (s ∷ ss) o =
      unless_full buflen (write_segment hdr s o) (write_segments none ss)

abbrev both : Option Bytes → Option Bytes → Option Header
both (some name) (some trailer) = some (record { hdrname = name; hdrtrail = trailer })
both _ _ = none

-- `hdrname` and `hdrtrail`, from parameters of a version that has them.
unfoldable pub header_of : Params → Option Header
header_of params = if leb 0x0103 params.version then both params.ss_name params.ss_trailer else none

-- `edi_interchange_build`: the buffer that it leaves; the result of the call is the length of its
-- text.
unfoldable pub interchange_build : Interchange → Option Params → ℕ → Out
unfolding write_segments header_of put_nul
interchange_build msg o buflen =
    let params = or_default o in
    put_nul (write_segments params buflen (header_of params) msg.segments start_out)

-- ===== src/Parse/Segments.antt =====
-- The outer loop of `edi_parser_parse` in libedi/parse.c over the segments of a message.
use libedi.Base.{
  ℕ, zero, suc, ◌+◌, ◌-◌, true, ◌||◌, List, [], ◌∷◌, ◌++◌, Option, none, some, ◌==◌, ltb, length,
  if◌then◌else◌,
}
use libedi.Base.Chars.{Bytes}
use libedi.Pool.{Pools, stringpool_get}
use libedi.Interchange.{
  Segment, Interchange, ParseError, err_none, err_unterminated, err_empty, Parser,
}
use libedi.Parse.Elements.{SegState, elements_of, read_elements}

-- `SEG_BLOCKSIZE`
abbrev pub seg_blocksize : ℕ
seg_blocksize = 8

-- Newlines before a segment are skipped.
unfoldable pub skip_newlines : Bytes → Bytes
skip_newlines [] = []
skip_newlines (c ∷ m) = if c == 0x0D || c == 0x0A then skip_newlines m else c ∷ m

-- The variables of the loop; `p->nsegments` is the number of segments.
pub record MsgState : Type 0 where
  pub segments : List Segment
  pub segalloc : ℕ
  pub pools : Pools
  pub message : Bytes

-- The variables of the element loop as a segment starts.
abbrev pub start_segment : MsgState → Bytes → SegState
start_segment s m = record {
  done = [];
  el = none;
  newel = true;
  elalloc = 0;
  tag = none;
  pools = s.pools;
  message = m;
}

-- The segment that the element loop leaves, at the end of the interchange; `m` is what was left
-- of the message where the segment starts.
abbrev pub add_segment : ℕ → MsgState → Bytes → SegState → MsgState
add_segment start s m r = record {
  segments =
      s.segments
      ++ record { elements = elements_of r; tag = r.tag; offset = start - length m } ∷ [];
  segalloc =
      (if ltb s.segalloc (length s.segments + 1) then s.segalloc + seg_blocksize else s.segalloc);
  pools = r.pools;
  message = r.message;
}

-- The rest of the body behind the element loop: at the end of the message the segment is not
-- terminated, and elsewhere the segment separator is skipped and the loop goes on.
abbrev pub end_segment :
    MsgState → Bytes → (MsgState → Option (ParseError × MsgState)) → Option (ParseError × MsgState)
end_segment s [] next = some (err_unterminated, s)
end_segment s (c ∷ m) next = next (record s { message = m })

abbrev pub after_elements :
    ℕ
    → MsgState
    → Bytes
    → (MsgState → Option (ParseError × MsgState))
    → Option SegState
    → Option (ParseError × MsgState)
after_elements start s m next none = none
after_elements start s m next (some r) = end_segment (add_segment start s m r) r.message next

abbrev pub from_segment :
    ℕ
    → ℕ
    → Parser
    → (MsgState → Option (ParseError × MsgState))
    → MsgState
    → Bytes
    → Option (ParseError × MsgState)
from_segment start fuel p next s [] = some (err_none, record s { message = [] })
from_segment start fuel p next s (c ∷ m) =
    after_elements start s (c ∷ m) next (read_elements fuel p (start_segment s (c ∷ m)))

-- The loop; `start` is the length of the whole message, from which offsets are counted, and
-- `none` means that the fuel ran out.
unfoldable pub read_segments : ℕ → ℕ → Parser → MsgState → Option (ParseError × MsgState)
unfolding skip_newlines
read_segments start zero p s = none
read_segments start (suc fuel) p s =
    from_segment start (suc fuel) p (read_segments start fuel p) s (skip_newlines s.message)

abbrev pub interchange_of : Option (ParseError × MsgState) → Option (ParseError × Interchange)
interchange_of none = none
interchange_of (some (e, s)) = some (e, record { segments = s.segments; pools = s.pools })

-- The variables of the loop as it starts.
abbrev pub start_message : Bytes → MsgState
unfolding stringpool_get
start_message m =
    let (pool, older) = stringpool_get [] (length m + 1) in
    record { segments = []; segalloc = 0; pools = pool ∷ older; message = m }

-- The part of `edi_parser_parse` behind the detection, from `edi_interchange_create` on: the error of the
-- parser in use, and the interchange. `message` has had its detected header skipped; `start` is the length
-- before that. What is returned where detection fails is in Entry.
unfoldable pub parse_message : ℕ → Parser → Bytes → Option (ParseError × Interchange)
unfolding read_segments stringpool_get
parse_message start p [] = some (err_empty, record { segments = []; pools = [] })
parse_message start p (c ∷ m) =
    interchange_of (read_segments start (length (c ∷ m) + 1) p (start_message (c ∷ m)))

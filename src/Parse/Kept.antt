-- ===== src/Parse/Kept.antt =====
-- What a whole run of `edi_parser_parse` of libedi/parse.c keeps of its values.
use libedi.Base.{
  ℕ, ◌-◌, ◌≤◌, true, false, List, [], ◌∷◌, ◌≡◌, refl, ap, ◌∙◌, sym, arith, All, All-append, some,
  length, length-append, append-nil, is_nil, inl, some_eq,
}
use libedi.Base.Chars.{Bytes}
use libedi.Interchange.{Parser, Value, Segment, Interchange, ParseError}
use libedi.Pool.{stringpool_get}
use libedi.Parse.Elements.{
  SegState, elements_of, open_element, store_value, read_value, more_elements, skip_from,
  skip_separator,
}
use libedi.Parse.Segments.{MsgState, start_segment, add_segment, start_message, parse_message}
use libedi.Parse.Runs.{Runs, stop, leave, again}
use libedi.Parse.Loop.{SegmentRuns, finished, unterminated, terminated, parse_message-Parses}
use libedi.Parse.Storage.{Stored, values_in, interchange_values, interchange_values-concat}
use libedi.Parse.State.{IsSound, HasValue, first_value, scan_stops, open_element-IsOpened}
use libedi.Parse.Invariant.{
  AtHead, open_element-valued, store_value-IsSound, store_value-valued, skip_separator-MayContinue,
}

module _ (p : Parser) (prior : List Value) where
  skip_separator_kept :
      (q : SegState)
      → IsSound prior q
      → All HasValue (elements_of q)
      → IsSound prior (skip_separator p q) × All HasValue (elements_of (skip_separator p q))
  unfolding skip_separator
  skip_separator_kept q i v = from q.message
    where
      from :
          (m : Bytes)
          → IsSound prior (skip_from p q m) × All HasValue (elements_of (skip_from p q m))
      from [] = (i, v)
      from (c ∷ m) = (record { stored = i.stored; capacity = i.capacity; tag_is = i.tag_is }, v)

  body-IsSound : (s : SegState) → AtHead p prior s → IsSound prior (read_value p s)
  unfolding read_value
  body-IsSound s h =
      store_value-IsSound p prior (open_element s)
        (open_element-IsOpened prior s h.sound h.may_continue)
        (open_element-valued p prior s h.valued)

  body_valued : (s : SegState) → AtHead p prior s → All HasValue (elements_of (read_value p s))
  unfolding read_value
  body_valued s h =
      store_value-valued p prior (open_element s)
        (open_element-IsOpened prior s h.sound h.may_continue).open_el
        (open_element-valued p prior s h.valued)

  body_continues :
      (s : SegState)
      → AtHead p prior s
      → more_elements p (read_value p s).message ≡ true
      → AtHead p prior (skip_separator p (read_value p s))
  unfolding read_value store_value
  body_continues s h more =
      let o = open_element s in
      let (sound, valued) =
        skip_separator_kept (read_value p s) (body-IsSound s h) (body_valued s h) in
      record {
        sound = sound;
        may_continue =
            skip_separator-MayContinue p prior (read_value p s) o.el _ (is_nil o.done) _ refl
              (open_element-IsOpened prior s h.sound h.may_continue).newel_is refl
              (scan_stops p (is_nil o.done) false o.message) more;
        valued = valued;
      }

  -- The element loop keeps the state sound.
  Runs-IsSound :
      {s r : SegState}
      → Runs p s r
      → AtHead p prior s
      → IsSound prior r × All HasValue (elements_of r)
  Runs-IsSound (stop a) h = (h.sound, h.valued)
  Runs-IsSound {s} (leave a b e) h = rw e (body-IsSound s h, body_valued s h)
  Runs-IsSound {s} (again a b d) h = Runs-IsSound d (body_continues s h b)

-- A tag is the first value of its segment, and an untagged segment has no value.
abbrev pub IsTagged : Segment → Type 0
IsTagged s = s.tag ≡ first_value (values_in s.elements)

-- The state of the segment loop.
pub record IsWhole (s : MsgState) : Type 0 where
  pub stored : Stored s.pools (interchange_values s.segments)
  pub capacity : length s.segments ≤ s.segalloc
  pub tagged : All IsTagged s.segments
  pub valued : All (λ t. All HasValue t.elements) s.segments

start_segment-AtHead :
    (p : Parser) (s : MsgState) (m : Bytes)
    → IsWhole s
    → AtHead p (interchange_values s.segments) (start_segment s m)
start_segment-AtHead p s m w = record {
  sound = record { stored = rw append-nil w.stored; capacity = omega arith; tag_is = refl };
  may_continue = inl refl;
  valued = tt;
}

add_segment-IsWhole :
    (start : ℕ) (s : MsgState) (m : Bytes) (r : SegState)
    → IsWhole s
    → IsSound (interchange_values s.segments) r
    → All HasValue (elements_of r)
    → IsWhole (add_segment start s m r)
add_segment-IsWhole start s m r w i v =
    let t : Segment = record { elements = elements_of r; tag = r.tag; offset = start - length m } in
    record {
      stored = rw (interchange_values-concat s.segments t) i.stored;
      capacity = ground (arith, w.capacity, length-append s.segments (t ∷ []));
      tagged = All-append IsTagged s.segments (t ∷ []) w.tagged (i.tag_is, tt);
      valued = All-append (λ u. All HasValue u.elements) s.segments (t ∷ []) w.valued (v, tt);
    }

-- The segment loop keeps its state whole.
SegmentRuns-IsWhole :
    {p : Parser} {start : ℕ} {s r : MsgState} {e : ParseError}
    → SegmentRuns p start s e r
    → IsWhole s
    → IsWhole r
SegmentRuns-IsWhole (finished a b c) w =
    rw c (record { stored = w.stored; capacity = w.capacity; tagged = w.tagged; valued = w.valued })
SegmentRuns-IsWhole {p} {start} {s} (unterminated c m t a d k e f) w =
    let (i, v) =
      Runs-IsSound p (interchange_values s.segments) d (start_segment-AtHead p s (c ∷ m) w) in
    rw f (add_segment-IsWhole start s (c ∷ m) t w i v)
SegmentRuns-IsWhole {p} {start} {s} (terminated c m t x rest a d k next) w =
    let (i, v) =
      Runs-IsSound p (interchange_values s.segments) d (start_segment-AtHead p s (c ∷ m) w) in
    let u = add_segment-IsWhole start s (c ∷ m) t w i v in
    SegmentRuns-IsWhole next
      (record { stored = u.stored; capacity = u.capacity; tagged = u.tagged; valued = u.valued })

start_message-IsWhole : (m : Bytes) → IsWhole (start_message m)
unfolding stringpool_get
start_message-IsWhole m = record {
  stored = record { bounded = ground arith; kept = tt; apart = tt };
  capacity = omega arith;
  tagged = tt;
  valued = tt;
}

-- An interchange whose values are kept apart from one another in pools within their sizes, with
-- each tag the first value of its segment, and a value in each element.
pub record IsSafe (i : Interchange) : Type 0 where
  pub stored : Stored i.pools (interchange_values i.segments)
  pub tagged : All IsTagged i.segments
  pub valued : All (λ t. All HasValue t.elements) i.segments

-- Every interchange that `edi_parser_parse` returns is safe, whatever the message and the
-- separators.
pub parse_message-IsSafe :
    (start : ℕ) (p : Parser) (m : Bytes) {e : ParseError} {i : Interchange}
    → parse_message start p m ≡ some (e, i)
    → IsSafe i
unfolding parse_message
parse_message-IsSafe start p [] {i = i} h =
    let k : record { segments = []; pools = [] } ≡ i = cc in
    rw (← k)
      (record { stored = record { bounded = tt; kept = tt; apart = tt }; tagged = tt; valued = tt })
parse_message-IsSafe start p (c ∷ m) {e} {i} h =
    let r = parse_message-Parses start p c m in
    let k = some_eq (sym r.result ∙ h) in
    let w = SegmentRuns-IsWhole r.run (start_message-IsWhole (c ∷ m)) in
    rw (← (ap (λ x. x.1) k)) (record { stored = w.stored; tagged = w.tagged; valued = w.valued })

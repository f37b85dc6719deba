-- ===== src/RoundTrip/Messages.antt =====
-- Whole messages: `edi_parser_parse` of libedi/parse.c reads back what `edi_interchange_build` of
-- libedi/build.c writes.
use libedi.Base.{
  ℕ, zero, suc, ◌+◌, ◌≤◌, ◌<◌, true, List, [], ◌∷◌, ◌++◌, ◌≡◌, ◌≢◌, refl, ap, ◌∙◌, sym, arith, All,
  Option, none, some, map, append-nil, append_assoc, length, length-append, take_all,
}
use mathlib.Core.List.{map-append}
use libedi.Base.Chars.{Bytes}
use libedi.Params.{Params}
use libedi.Interchange.{Parser, Interchange, ParseError, err_none, Field, fields_of, content_of}
use libedi.Parse.Elements.{read_elements}
use libedi.Parse.Segments.{
  MsgState, skip_newlines, start_segment, add_segment, end_segment, after_elements, from_segment,
  read_segments, start_message, parse_message, interchange_of,
}
use libedi.Parse.Runs.{stop, Runs-read_elements}
use libedi.Format.{encode_fields, encode}
use libedi.Build.Write.{interchange_build, header_of}
use libedi.Build.Cut.{interchange_build-encode}
use libedi.RoundTrip.Dialect.{IsDialect, parser_of}
use libedi.RoundTrip.Fields.{IsField}
use libedi.RoundTrip.Segments.{EndsSeen, Reads, fields-Reads, no_more}
use libedi.RoundTrip.Newlines.{StartsPlain, first_text, skip_newlines_none, fields-StartsPlain}

-- A segment that survives being written: its values can be written, its last value is not empty,
-- and its first value does not start with a newline.
pub record IsSegment (params : Params) (fs : List Field) : Type 0 where
  pub fields : All (IsField params) fs
  pub ends_seen : EndsSeen params fs
  pub starts_plain : StartsPlain (first_text fs)

append-cons-ne-nil : (xs : Bytes) (c : ℕ) (m : Bytes) → xs ++ c ∷ m ≢ []
append-cons-ne-nil [] c m h = cc
append-cons-ne-nil (x ∷ xs) c m h = cc

-- Where bytes are left, the loop reads a segment.
pub from_segment_cons :
    (start fuel : ℕ) (p : Parser) (next : MsgState → Option (ParseError × MsgState)) (s : MsgState)
    (text : Bytes)
    → text ≢ []
    → from_segment start fuel p next s text
      ≡ after_elements start s text next (read_elements fuel p (start_segment s text))
from_segment_cons start fuel p next s [] h = absurd (h refl)
from_segment_cons start fuel p next s (c ∷ m) h = refl

module _ {params : Params} (d : IsDialect params) where
  pub segment-Reads :
      (fs : List Field) (s : MsgState) (m : Bytes)
      → IsSegment params fs
      → Reads d
          (start_segment s (encode_fields params true fs ++ params.segment_separator ∷ m))
          fs
          m
  segment-Reads [] s m w = record {
    end = start_segment s (params.segment_separator ∷ m);
    runs = stop (no_more d m);
    message_is = refl;
    shown_is = refl;
  }
  segment-Reads (f ∷ fs) s m w =
      fields-Reads d (f ∷ fs)
        (start_segment s (encode_fields params true (f ∷ fs) ++ params.segment_separator ∷ m)) m
        (λ x. cc) refl refl w.fields w.ends_seen

  -- One round of the segment loop, at a state with the written form of a segment next.
  pub record Steps (start : ℕ) (s : MsgState) (fs : List Field) (m : Bytes) : Type 0 where
    pub next : MsgState
    pub round :
        (fuel : ℕ)
        → length s.message ≤ fuel
        → read_segments start (suc fuel) (parser_of params) s
          ≡ read_segments start fuel (parser_of params) next
    pub message_is : next.message ≡ m
    pub content_is : map fields_of next.segments ≡ map fields_of s.segments ++ fs ∷ []

  pub segment_round :
      (start : ℕ) (fs : List Field) (s : MsgState) (m : Bytes)
      → IsSegment params fs
      → s.message ≡ encode_fields params true fs ++ params.segment_separator ∷ m
      → Steps start s fs m
  unfolding read_segments
  segment_round start fs s m w e =
      let p = parser_of params in
      let text = encode_fields params true fs ++ params.segment_separator ∷ m in
      let r = segment-Reads fs s m w in
      let t = add_segment start s text r.end in
      record {
        next = record t { message = m };
        round = λ fuel room.
            let next = read_segments start fuel p in
            ap (from_segment start (suc fuel) p next s) (
              ap skip_newlines e
              ∙ skip_newlines_none text (fields-StartsPlain d fs m w.starts_plain))
            ∙ from_segment_cons start (suc fuel) p next s text
                (append-cons-ne-nil (encode_fields params true fs) _ m)
            ∙ ap (after_elements start s text next)
                (Runs-read_elements (suc fuel) (omega (arith, ap length e)) r.runs)
            ∙ ap (λ u. end_segment t u next) r.message_is;
        message_is = refl;
        content_is =
            map-append fields_of s.segments _
            ∙ ap (λ x. map fields_of s.segments ++ x ∷ []) r.shown_is;
      }

  -- The loop reads the written form of a message to its end.
  record Ends (start fuel : ℕ) (s : MsgState) (content : List (List Field)) : Type 0 where
    end : MsgState
    result : read_segments start fuel (parser_of params) s ≡ some (err_none, end)
    content_is : map fields_of end.segments ≡ content

  segments_end :
      (start : ℕ) (msg : List (List Field)) (fuel : ℕ) (s : MsgState)
      → All (IsSegment params) msg
      → s.message ≡ encode params msg
      → length s.message < fuel
      → Ends start fuel s (map fields_of s.segments ++ msg)
  unfolding read_segments skip_newlines
  segments_end start msg zero s w e room = absurd (omega arith)
  segments_end start [] (suc fuel) s w e room = record {
    end = record s { message = [] };
    result =
        ap
          (λ m.
            from_segment start (suc fuel) (parser_of params)
              (read_segments start fuel (parser_of params)) s (skip_newlines m))
          e;
    content_is = sym (append-nil (map fields_of s.segments));
  }
  segments_end start (fs ∷ msg) (suc fuel) s w e room =
      let rest = encode params msg in
      let e' =
        e ∙ append_assoc (encode_fields params true fs) (params.segment_separator ∷ []) rest in
      let r = segment_round start fs s rest w.0 e' in
      let shorter = ap length e' ∙ length-append (encode_fields params true fs) (_ ∷ rest) in
      let tail =
        segments_end start msg fuel r.next w.1 r.message_is
          (omega (arith, shorter, ap length r.message_is)) in
      record {
        end = tail.end;
        result = r.round fuel (omega arith) ∙ tail.result;
        content_is =
            tail.content_is
            ∙ ap (λ t. t ++ msg) r.content_is
            ∙ append_assoc (map fields_of s.segments) (fs ∷ []) msg;
      }

-- `edi_parser_parse` ends with `err` and an interchange that says `content`.
pub record ParsesTo (start : ℕ) (p : Parser) (message : Bytes) (err : ParseError)
    (content : List (List Field)) : Type 0 where
  pub interchange : Interchange
  pub result : parse_message start p message ≡ some (err, interchange)
  pub content_is : content_of interchange ≡ content

message_ends :
    {params : Params} (d : IsDialect params) (start : ℕ) (msg : List (List Field)) (text : Bytes)
    → All (IsSegment params) msg
    → text ≢ []
    → text ≡ encode params msg
    → ParsesTo start (parser_of params) text err_none msg
unfolding parse_message
message_ends d start msg [] w ne e = absurd (ne refl)
message_ends d start msg (c ∷ m) w ne e =
    let r =
      segments_end d start msg (length (c ∷ m) + 1) (start_message (c ∷ m)) w e (omega arith) in
    record {
      interchange = record { segments = r.end.segments; pools = r.end.pools };
      result = ap interchange_of r.result;
      content_is = r.content_is;
    }

encode-ne-nil : (params : Params) (msg : List (List Field)) → msg ≢ [] → encode params msg ≢ []
encode-ne-nil params [] ne = absurd (ne refl)
encode-ne-nil params (fs ∷ msg) ne =
    rw (append_assoc (encode_fields params true fs)) (
      append-cons-ne-nil (encode_fields params true fs) params.segment_separator
        (encode params msg))

-- With separators that can be told apart, the parser reads the written form of a message of one
-- segment or more, each of which survives being written, with no error, and its interchange has
-- the segments, elements and values of the message, in their order.
pub parse_message-encode :
    {params : Params} (d : IsDialect params) (start : ℕ) (msg : List (List Field))
    → msg ≢ []
    → All (IsSegment params) msg
    → ParsesTo start (parser_of params) (encode params msg) err_none msg
parse_message-encode {params} d start msg ne w =
    message_ends d start msg (encode params msg) w (encode-ne-nil params msg ne) refl

-- What `edi_interchange_build` writes with no interchange header, into a buffer that has room for
-- it and its NUL, the parser reads back as an interchange with the same content.
pub parse-build :
    {params : Params} (d : IsDialect params) (start : ℕ) (msg : Interchange) (buflen : ℕ)
    → header_of params ≡ none
    → content_of msg ≢ []
    → All (IsSegment params) (content_of msg)
    → length (encode params (content_of msg)) < buflen
    → ParsesTo start
        (parser_of params)
        (interchange_build msg (some params) buflen).text
        err_none
        (content_of msg)
parse-build {params} d start msg buflen h ne w room =
    let e =
      interchange_build-encode msg params buflen h
      ∙ take_all buflen (encode params (content_of msg)) (omega arith) in
    rw e (parse_message-encode d start (content_of msg) ne w)

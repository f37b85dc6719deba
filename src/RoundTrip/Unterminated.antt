-- ===== src/RoundTrip/Unterminated.antt =====
-- Messages whose last segment has no terminator, as `edi_parser_parse` of libedi/parse.c reads them.
use libedi.Base.{
  ℕ, zero, suc, ◌+◌, ◌≤◌, ◌<◌, true, List, [], ◌∷◌, ◌++◌, ◌≡◌, ◌≢◌, refl, ap, ◌∙◌, arith, All, some,
  map, append_assoc, length, length-append,
}
use mathlib.Core.List.{map-append}
use libedi.Base.Chars.{Bytes, char_is_self, char_is-ne}
use libedi.Params.{Params}
use libedi.Interchange.{err_unterminated, Field, fields_of}
use libedi.Parse.Elements.{SegState}
use libedi.Parse.Segments.{
  MsgState, skip_newlines, add_segment, after_elements, from_segment, read_segments, start_message,
  parse_message, interchange_of,
}
use libedi.Parse.Runs.{Runs-read_elements}
use libedi.Parse.Unterminated.{IsLast, Runs-cut}
use libedi.Format.{encode_fields, encode}
use libedi.RoundTrip.Dialect.{IsDialect, parser_of}
use libedi.RoundTrip.Fields.{no_escape}
use libedi.RoundTrip.Messages.{IsSegment, ParsesTo, segment-Reads, segment_round, from_segment_cons}
use libedi.RoundTrip.Newlines.{StartsPlain, skip_newlines_none, fields-StartsPlain}

StartsPlain-front : (t : Bytes) (c : ℕ) (m : Bytes) → StartsPlain (t ++ c ∷ m) → StartsPlain t
StartsPlain-front [] c m h = tt
StartsPlain-front (x ∷ t) c m h = h

module _ {params : Params} (d : IsDialect params) where
  segment_separator-IsLast : IsLast (parser_of params) params.segment_separator
  segment_separator-IsLast = record {
    is_seg = char_is_self params.segment_separator d.seg.small;
    no_escape = no_escape d params.segment_separator d.esc_seg;
    no_sub = char_is-ne params.segment_separator params.subelement_separator d.seg_sub;
    nul_no_sub = char_is-ne 0 params.subelement_separator (λ e. omega (arith, d.sub.pos, e));
  }

  -- The state in which the loop ends, with the message read.
  record Leaves (start fuel : ℕ) (s : MsgState) (content : List (List Field)) : Type 0 where
    end : MsgState
    result : read_segments start fuel (parser_of params) s ≡ some (err_unterminated, end)
    content_is : map fields_of end.segments ≡ content

  last_round :
      (start fuel : ℕ) (fs : List Field) (s : MsgState)
      → IsSegment params fs
      → encode_fields params true fs ≢ []
      → s.message ≡ encode_fields params true fs
      → length s.message ≤ fuel
      → Leaves start (suc fuel) s (map fields_of s.segments ++ fs ∷ [])
  unfolding read_segments
  last_round start fuel fs s w ne e room =
      let p = parser_of params in
      let text = encode_fields params true fs in
      let r = segment-Reads d fs s [] w in
      let cut = Runs-cut segment_separator-IsLast text r.runs refl r.message_is in
      let last : SegState = record r.end { message = [] } in
      let next = read_segments start fuel p in
      record {
        end = add_segment start s text last;
        result =
            ap (from_segment start (suc fuel) p next s) (
              ap skip_newlines e
              ∙ skip_newlines_none text
                  (StartsPlain-front text _ [] (fields-StartsPlain d fs [] w.starts_plain)))
            ∙ from_segment_cons start (suc fuel) p next s text ne
            ∙ ap (after_elements start s text next)
                (Runs-read_elements (suc fuel) (omega (arith, ap length e)) cut);
        content_is =
            map-append fields_of s.segments _
            ∙ ap (λ x. map fields_of s.segments ++ x ∷ []) r.shown_is;
      }

  rounds :
      (start : ℕ) (msg : List (List Field)) (fs : List Field) (fuel : ℕ) (s : MsgState)
      → All (IsSegment params) msg
      → IsSegment params fs
      → encode_fields params true fs ≢ []
      → s.message ≡ encode params msg ++ encode_fields params true fs
      → length s.message < fuel
      → Leaves start fuel s (map fields_of s.segments ++ (msg ++ fs ∷ []))
  rounds start msg fs zero s ok w ne e room = absurd (omega arith)
  rounds start [] fs (suc fuel) s ok w ne e room = last_round start fuel fs s w ne e (omega arith)
  rounds start (gs ∷ msg) fs (suc fuel) s ok w ne e room =
      let rest = encode params msg ++ encode_fields params true fs in
      let e' =
        e
        ∙ append_assoc (encode_fields params true gs ++ params.segment_separator ∷ [])
            (encode params msg) (encode_fields params true fs)
        ∙ append_assoc (encode_fields params true gs) (params.segment_separator ∷ []) rest in
      let r = segment_round d start gs s rest ok.0 e' in
      let shorter = ap length e' ∙ length-append (encode_fields params true gs) (_ ∷ rest) in
      let tail =
        rounds start msg fs fuel r.next ok.1 w ne r.message_is
          (omega (arith, shorter, ap length r.message_is)) in
      record {
        end = tail.end;
        result = r.round fuel (omega arith) ∙ tail.result;
        content_is =
            tail.content_is
            ∙ ap (λ t. t ++ (msg ++ fs ∷ [])) r.content_is
            ∙ append_assoc (map fields_of s.segments) (gs ∷ []) (msg ++ fs ∷ []);
      }

  text_ends :
      (start : ℕ) (msg : List (List Field)) (fs : List Field) (text : Bytes)
      → All (IsSegment params) msg
      → IsSegment params fs
      → encode_fields params true fs ≢ []
      → text ≢ []
      → text ≡ encode params msg ++ encode_fields params true fs
      → ParsesTo start (parser_of params) text err_unterminated (msg ++ fs ∷ [])
  unfolding parse_message
  text_ends start msg fs [] ok w ne some_text e = absurd (some_text refl)
  text_ends start msg fs (c ∷ m) ok w ne some_text e =
      let r =
        rounds start msg fs (length (c ∷ m) + 1) (start_message (c ∷ m)) ok w ne e (omega arith) in
      record {
        interchange = record { segments = r.end.segments; pools = r.end.pools };
        result = ap interchange_of r.result;
        content_is = r.content_is;
      }

  append-ne-nil : (a b : Bytes) → b ≢ [] → a ++ b ≢ []
  append-ne-nil [] b h = h
  append-ne-nil (c ∷ a) b h = λ e. cc

  -- With separators that can be told apart, the parser reads the written form of a message whose last
  -- segment lacks its terminator, but is not empty, to the same segments, elements and values as the
  -- whole message, and reports that it is unterminated.
  pub parse_message-unterminated :
      (start : ℕ) (msg : List (List Field)) (fs : List Field)
      → All (IsSegment params) msg
      → IsSegment params fs
      → encode_fields params true fs ≢ []
      → ParsesTo start
          (parser_of params)
          (encode params msg ++ encode_fields params true fs)
          err_unterminated
          (msg ++ fs ∷ [])
  parse_message-unterminated start msg fs ok w ne =
      text_ends start msg fs _ ok w ne (append-ne-nil (encode params msg) _ ne) refl

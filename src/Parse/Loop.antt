-- ===== src/Parse/Loop.antt =====
-- The loop of `edi_parser_parse` in libedi/parse.c over the segments: its runs as a relation, and
-- the fuel that is enough for it.
use libedi.Base.{ℕ, zero, suc, ◌+◌, ◌≤◌, ◌<◌, [], ◌∷◌, Option, some, ◌≡◌, refl, ap, arith, length}
use libedi.Base.Chars.{Bytes}
use libedi.Interchange.{Parser, ParseError, err_none, err_unterminated, Interchange}
use libedi.Parse.Elements.{SegState, read_elements}
use libedi.Parse.Segments.{
  MsgState, skip_newlines, start_segment, add_segment, read_segments, start_message, parse_message,
  interchange_of,
}
use libedi.Parse.Runs.{Runs, Runs-total, Runs-read_elements, Runs-length}

pub skip_newlines-length : (m : Bytes) → length (skip_newlines m) ≤ length m
unfolding skip_newlines
skip_newlines-length [] = omega arith
skip_newlines-length (c ∷ m) = ground (arith, skip_newlines-length m)

-- The segment loop started in the first state ends in the second, with an error code.
pub data SegmentRuns (p : Parser) (start : ℕ) : MsgState → ParseError → MsgState → Type 0 where
  finished :
      {s r : MsgState} {e : ParseError}
      → skip_newlines s.message ≡ []
      → e ≡ err_none
      → r ≡ record s { message = [] }
      → SegmentRuns p start s e r
  unterminated :
      {s r : MsgState} {e : ParseError} (c : ℕ) (m : Bytes) (t : SegState)
      → skip_newlines s.message ≡ c ∷ m
      → Runs p (start_segment s (c ∷ m)) t
      → t.message ≡ []
      → e ≡ err_unterminated
      → r ≡ add_segment start s (c ∷ m) t
      → SegmentRuns p start s e r
  terminated :
      {s r : MsgState} {e : ParseError} (c : ℕ) (m : Bytes) (t : SegState) (x : ℕ) (rest : Bytes)
      → skip_newlines s.message ≡ c ∷ m
      → Runs p (start_segment s (c ∷ m)) t
      → t.message ≡ x ∷ rest
      → SegmentRuns p start (record (add_segment start s (c ∷ m) t) { message = rest }) e r
      → SegmentRuns p start s e r

-- With fuel above the length of the message, `read_segments` makes a run.
pub record Makes (p : Parser) (start fuel : ℕ) (s : MsgState) : Type 0 where
  pub err : ParseError
  pub end : MsgState
  pub run : SegmentRuns p start s err end
  pub result : read_segments start fuel p s ≡ some (err, end)

pub read_segments_total :
    (p : Parser) (start fuel : ℕ) (s : MsgState) → length s.message < fuel → Makes p start fuel s
unfolding read_segments
read_segments_total p start zero s h = absurd (omega arith)
read_segments_total p start (suc fuel) s h =
    at_segment (skip_newlines s.message) refl (read_segments_total p start fuel)
  where
    next : MsgState → Option (ParseError × MsgState)
    next = read_segments start fuel p

    shorter : (m : Bytes) → skip_newlines s.message ≡ m → length m ≤ length s.message
    shorter m e = omega (arith, skip_newlines-length s.message, ap length e)

    at_separator :
        (c : ℕ) (m : Bytes) (t : SegState) (rest : Bytes)
        → skip_newlines s.message ≡ c ∷ m
        → Runs p (start_segment s (c ∷ m)) t
        → read_elements (suc fuel) p (start_segment s (c ∷ m)) ≡ some t
        → t.message ≡ rest
        → ((u : MsgState) → length u.message < fuel → Makes p start fuel u)
        → Makes p start (suc fuel) s
    at_separator c m t [] e d q k ih = record {
      err = err_unterminated;
      end = add_segment start s (c ∷ m) t;
      run = unterminated c m t e d k refl refl;
      result = rw (e, q, k);
    }
    at_separator c m t (x ∷ rest) e d q k ih =
        let v : MsgState = record (add_segment start s (c ∷ m) t) { message = rest } in
        let later = ih v (omega (arith, shorter (c ∷ m) e, ap length k, Runs-length d)) in
        record {
          err = later.err;
          end = later.end;
          run = terminated c m t x rest e d k later.run;
          result = rw (e, q, k) later.result;
        }

    at_segment :
        (m : Bytes)
        → skip_newlines s.message ≡ m
        → ((u : MsgState) → length u.message < fuel → Makes p start fuel u)
        → Makes p start (suc fuel) s
    at_segment [] e ih = record {
      err = err_none;
      end = record s { message = [] };
      run = finished e refl refl;
      result = rw e;
    }
    at_segment (c ∷ m) e ih =
        let (t, d) = Runs-total p (suc (length (c ∷ m))) (start_segment s (c ∷ m)) (omega arith) in
        let q = Runs-read_elements (suc fuel) (omega (arith, shorter (c ∷ m) e)) d in
        at_separator c m t t.message e d q refl ih

-- The run of `edi_parser_parse` over a message that is not empty.
pub record Parses (start : ℕ) (p : Parser) (m : Bytes) : Type 0 where
  pub err : ParseError
  pub end : MsgState
  pub run : SegmentRuns p start (start_message m) err end
  pub result :
      parse_message start p m ≡ some (err, record { segments = end.segments; pools = end.pools })

pub parse_message-Parses : (start : ℕ) (p : Parser) (c : ℕ) (m : Bytes) → Parses start p (c ∷ m)
unfolding parse_message
parse_message-Parses start p c m =
    let r =
      read_segments_total p start (length (c ∷ m) + 1) (start_message (c ∷ m)) (omega arith) in
    record { err = r.err; end = r.end; run = r.run; result = ap interchange_of r.result }

-- Behind the detection of the dialect, `edi_parser_parse` always ends, with an interchange and an error
-- code.
pub parse_message_total :
    (start : ℕ) (p : Parser) (m : Bytes)
    → (r : ParseError × Interchange) × (parse_message start p m ≡ some r)
unfolding parse_message
parse_message_total start p [] = (_, refl)
parse_message_total start p (c ∷ m) =
    let r = parse_message-Parses start p c m in
    ((r.err, record { segments = r.end.segments; pools = r.end.pools }), r.result)

-- ===== src/RoundTrip/Entry.antt =====
-- `edi_parser_parse` of libedi/parse.c with the dialects of libedi/detect.c in front of it.
use libedi.Base.{
  ℕ, ◌<◌, List, [], ◌∷◌, ◌++◌, ◌≡◌, refl, ap, ◌∙◌, sym, arith, All, Option, none, some, length,
  take_all, drop, ◌==◌, if◌then◌else◌,
}
use libedi.Base.Chars.{Bytes, codes, char_is}
use libedi.Params.{Params, default_params}
use libedi.Interchange.{Parser, Interchange, ParseError, err_none, Field, one, content_of}
use libedi.Detect.Registry.{Registry, detect_init}
use libedi.Detect.Match.{Detected, found, no_match, out_of_bounds, detected_params, detect}
use libedi.Detect.Headers.{detect_unb}
use libedi.Parse.Parser.{parser_init, parser_create}
use libedi.Parse.Segments.{parse_message}
use libedi.Parse.Entry.{
  returned, keep_parser, set_error, parse_detected, parser_parse, parser_error,
}
use libedi.Build.Buffer.{needs_escape}
use libedi.Build.Write.{interchange_build, header_of}
use libedi.Build.Cut.{interchange_build-encode}
use libedi.Format.{encode}
use libedi.RoundTrip.Dialect.{parser_of, default_params-IsDialect}
use libedi.RoundTrip.Messages.{IsSegment, ParsesTo, parse_message-encode}

kept_parser :
    (p q : Parser) (o : Option (ParseError × Interchange)) (r : Option Interchange)
    → keep_parser p o ≡ returned q r
    → q ≡ p
kept_parser p q none r h = cc
kept_parser p q (some x) r h = cc

detected_parser :
    (p q : Parser) (m : Bytes) (d : Detected) (r : Option Interchange)
    → parse_detected p m d ≡ returned q r
    → q ≡ p
detected_parser p q m (found params skip) r h = kept_parser p q _ r h
detected_parser p q m no_match r h = cc
detected_parser p q m out_of_bounds r h = cc

-- With auto-detection on, the dialect decides.
detecting :
    (reg : Registry) (p : Parser) (m : Bytes)
    → p.detect ≡ 1
    → parser_parse reg p m ≡ parse_detected p m (detect reg m)
unfolding parser_parse
detecting reg p m on =
    ap
      (λ k.
        if k == 1
        then parse_detected p m (detect reg m)
        else set_error p (parse_message (length m) p m))
      on

-- A parser that detects the dialect, as every parser of `edi_parser_create` does, is left as it
-- was by `edi_parser_parse`: `edi_parser_error` tells nothing of the parse, whatever the message.
pub parser_parse-parser :
    (reg : Registry) (p q : Parser) (m : Bytes) (r : Option Interchange)
    → p.detect ≡ 1
    → parser_parse reg p m ≡ returned q r
    → (q ≡ p) × (parser_error q ≡ parser_error p)
parser_parse-parser reg p q m r on h =
    let e = detected_parser p q m (detect reg m) r (sym (detecting reg p m on) ∙ h) in
    (e, ap parser_error e)

parser_create_detects : (params : Option Params) → (parser_create params).detect ≡ 1
unfolding parser_create
parser_create_detects none = refl
parser_create_detects (some params) = ground arith

-- The parser that a message in the default dialect gets.
default_parser :
    parser_init (some (detected_params b'\'' b'+' b':' b'+' b'?')) ≡ parser_of default_params
unfolding parser_init
default_parser = refl

-- The written form of a message whose first value is UNB starts with it.
encode_unb :
    (fs : List Field) (msg : List (List Field))
    → (rest : Bytes) × (encode default_params ((one (codes "UNB") ∷ fs) ∷ msg)
        ≡ codes "UNB" ++ rest)
unfolding needs_escape char_is
encode_unb [] msg = (_, refl)
encode_unb (f ∷ fs) msg = (_, refl)

-- `edi_parser_parse` returns an interchange that says `content`, and leaves the parser as it was.
pub record Returns (reg : Registry) (p : Parser) (m : Bytes) (content : List (List Field))
    : Type 0 where
  pub interchange : Interchange
  pub result : parser_parse reg p m ≡ returned p (some interchange)
  pub content_is : content_of interchange ≡ content

found_parses :
    {content : List (List Field)} (reg : Registry) (p : Parser) (m : Bytes) (params : Params)
    (skip : ℕ)
    → p.detect ≡ 1
    → detect reg m ≡ found params skip
    → ParsesTo (length m) (parser_init (some params)) (drop skip m) err_none content
    → Returns reg p m content
found_parses reg p m params skip on d r = record {
  interchange = r.interchange;
  result = detecting reg p m on ∙ ap (parse_detected p m) d ∙ ap (keep_parser p) r.result;
  content_is = r.content_is;
}

module _ (fs : List Field) (msg : List (List Field)) where
  -- The default dialect, whole: what `edi_interchange_build` writes with the default parameters
  -- for an interchange whose first value is UNB and whose segments survive being written,
  -- `edi_parser_parse` reads back with any parser that detects the dialect, when the buffer has
  -- room for it and its NUL.
  pub parser_parse-build :
      (p : Parser) (i : Interchange) (buflen : ℕ)
      → p.detect ≡ 1
      → content_of i ≡ (one (codes "UNB") ∷ fs) ∷ msg
      → All (IsSegment default_params) (content_of i)
      → length (encode default_params (content_of i)) < buflen
      → Returns detect_init p (interchange_build i (some default_params) buflen).text (content_of i)
  unfolding header_of
  parser_parse-build p i buflen on e w room =
      let text = encode default_params (content_of i) in
      let built : (interchange_build i (some default_params) buflen).text ≡ text =
        interchange_build-encode i default_params buflen refl
        ∙ take_all buflen text (omega arith) in
      let (rest, u) = encode_unb fs msg in
      let seen = ap (detect detect_init) (ap (encode default_params) e ∙ u) ∙ detect_unb rest in
      rw built (
        found_parses detect_init p text _ 0 on seen (
          rw default_parser (
            parse_message-encode default_params-IsDialect (length text) (content_of i)
              (rw e (λ x. cc)) w)))

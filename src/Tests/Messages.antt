-- ===== src/Tests/Messages.antt =====
-- Runs of the parser and the builder of libedi/parse.c and libedi/build.c on small messages.
use libedi.Base.{
  ◌⊎◌, ap, true, ◌++◌, ◌<◌, List, [], ◌∷◌, ◌≡◌, ◌≢◌, refl, arith, All, none, some, length, take,
  All-map,
}
use libedi.Base.Chars.{Bytes, codes, char_is, same_text, same_prefix}
use libedi.Params.{default_params, edi_edifact_params}
use libedi.Interchange.{
  Value, Element, simple, composite, Segment, Interchange, Field, one, many, err_none,
  err_unterminated, content_of,
}
use libedi.Parse.Parser.{parser_create}
use libedi.Pool.{stringpool_alloc, stringpool_get}
use libedi.Parse.Scan.{scan, memcpyescape, is_escape, ends_value}
use libedi.Parse.Elements.{read_elements, read_value, more_elements, skip_separator}
use libedi.Parse.Segments.{read_segments}
use libedi.Parse.Returns.{Interchanges, parser_parse-Interchanges}
use libedi.Parse.Entry.{Outcome, returned, faulted, parser_parse, parser_error}
use libedi.Detect.Match.{detect, no_match, out_of_bounds}
use libedi.Detect.Registry.{detect_init, register_params}
use libedi.Build.Buffer.{is_special, needs_escape}
use libedi.Build.Write.{interchange_build}
use libedi.Build.Cut.{interchange_build-encode}
use libedi.Build.Bounds.{Fits, interchange_build-Fits, interchange_build_overrun}
use libedi.Format.{encode, encode_fields}
use libedi.RoundTrip.Dialect.{IsWritable, parser_of, default_params-IsDialect}
use libedi.RoundTrip.Unterminated.{parse_message-unterminated}
use libedi.RoundTrip.Messages.{IsSegment, ParsesTo, parse_message-encode, parse-build}
use libedi.RoundTrip.Entry.{Returns, parser_parse-parser, parser_parse-build}

-- What the runs below compute with.
program : Unit {0}
unfolding char_is same_text same_prefix is_special needs_escape interchange_build parser_parse
    parser_create detect_init register_params read_segments read_elements read_value more_elements
    skip_separator scan memcpyescape is_escape ends_value stringpool_alloc stringpool_get
program = tt

-- A value outside of the pools, as an application may set it.
abbrev value : Bytes → Value
value t = record { at = record { pool = 0; offset = 0 }; text = t; len = length t }

abbrev segment : List Element → Segment
segment es = record { elements = es; tag = none; offset = 0 }

abbrev message : Interchange
message = record {
  segments =
      segment (simple (value (codes "UNB")) ∷ simple (value (codes "a+b")) ∷ [])
      ∷ segment (
          simple (value (codes "BGM"))
          ∷ composite (value (codes "x?") ∷ value [] ∷ value (codes "z") ∷ [])
          ∷ simple (value (codes "9"))
          ∷ [])
      ∷ [];
  pools = [];
}

abbrev text : Bytes
text = codes "UNB+a?+b'BGM+x??::z+9'"

build_message : (interchange_build message (some default_params) 64).text ≡ text
unfolding program
build_message = refl

-- Newlines between segments, a trailing separator, and a composite cut short.
abbrev noisy : Bytes
noisy = codes "UNB+1+'\nQTY+2:'"

abbrev parsed_content : Outcome → List (List Field)
parsed_content (returned p (some i)) = content_of i
parsed_content _ = []

parse_noisy :
    parsed_content (parser_parse detect_init (parser_create none) noisy)
    ≡ (one (codes "UNB") ∷ one (codes "1") ∷ [])
      ∷ (one (codes "QTY") ∷ many (codes "2" ∷ []) ∷ [])
      ∷ []
unfolding program
parse_noisy = refl

-- A segment left without its terminator, and the error in the parser that detected the dialect.
abbrev unterminated : Bytes
unterminated = codes "UNB+1"

parse_unterminated :
    parser_parse detect_init (parser_create none) unterminated
    ≡ returned (parser_create none) (
        some (record {
          segments =
              record {
                elements =
                    simple
                      (record { at = record { pool = 0; offset = 0 }; text = codes "UNB"; len = 3 })
                    ∷ simple
                        (record { at = record { pool = 0; offset = 4 }; text = codes "1"; len = 1 })
                    ∷ [];
                tag =
                    some (record {
                      at = record { pool = 0; offset = 0 };
                      text = codes "UNB";
                      len = 3;
                    });
                offset = 0;
              }
              ∷ [];
          pools = record { poolsize = 512; used = 6 } ∷ [];
        }))
unfolding program
parse_unterminated = refl

abbrev content : List (List Field)
content = content_of message

-- With an escape character every byte but NUL can be written.
written : (v : Bytes) → All (λ c. c ≢ 0) v → All (IsWritable default_params) v
written v h =
    All-map (λ c. c ≢ 0) (IsWritable default_params) v (λ c ne. (ne, λ e. absurd (omega arith))) h

first-IsSegment : IsSegment default_params (one (codes "UNB") ∷ one (codes "a+b") ∷ [])
first-IsSegment = record {
  fields = (written (codes "UNB") (omega arith), (written (codes "a+b") (omega arith), tt));
  ends_seen = λ e. cc;
  starts_plain = omega arith;
}

second-IsSegment :
    IsSegment default_params
      (one (codes "BGM") ∷ many (codes "x?" ∷ [] ∷ codes "z" ∷ []) ∷ one (codes "9") ∷ [])
second-IsSegment = record {
  fields = (
    written (codes "BGM") (omega arith),
    (
      (
        omega arith,
        (written (codes "x?") (omega arith), (tt, (written (codes "z") (omega arith), tt))),
      ),
      (written (codes "9") (omega arith), tt),
    ),
  );
  ends_seen = λ e. cc;
  starts_plain = omega arith;
}

segments_survive : All (IsSegment default_params) content
segments_survive = (first-IsSegment, (second-IsSegment, tt))

fits : length (encode default_params content) < 64
unfolding program
fits = omega arith

parser_parse-build_example :
    Returns detect_init
      (parser_create none)
      (interchange_build message (some default_params) 64).text
      content
unfolding program
parser_parse-build_example =
    parser_parse-build (one (codes "a+b") ∷ [])
      ((one (codes "BGM") ∷ many (codes "x?" ∷ [] ∷ codes "z" ∷ []) ∷ one (codes "9") ∷ []) ∷ [])
      (parser_create none) message 64 refl refl segments_survive fits

parse_message-encode_example :
    ParsesTo 23 (parser_of default_params) (encode default_params content) err_none content
parse_message-encode_example =
    parse_message-encode default_params-IsDialect 23 content (λ e. cc) segments_survive

second-text :
    encode_fields default_params true
      (one (codes "BGM") ∷ many (codes "x?" ∷ [] ∷ codes "z" ∷ []) ∷ one (codes "9") ∷ [])
    ≢ []
unfolding program
second-text = λ e. omega (arith, ap length e)

parse_message-unterminated_example :
    ParsesTo 23
      (parser_of default_params)
      (encode default_params ((one (codes "UNB") ∷ one (codes "a+b") ∷ []) ∷ [])
        ++ encode_fields default_params true
            (one (codes "BGM") ∷ many (codes "x?" ∷ [] ∷ codes "z" ∷ []) ∷ one (codes "9") ∷ []))
      err_unterminated
      content
parse_message-unterminated_example =
    parse_message-unterminated default_params-IsDialect 23
      ((one (codes "UNB") ∷ one (codes "a+b") ∷ []) ∷ [])
      (one (codes "BGM") ∷ many (codes "x?" ∷ [] ∷ codes "z" ∷ []) ∷ one (codes "9") ∷ [])
      (first-IsSegment, tt) second-IsSegment second-text

parse-build_example :
    ParsesTo 23
      (parser_of default_params)
      (interchange_build message (some default_params) 64).text
      err_none
      content
unfolding program
parse-build_example =
    parse-build default_params-IsDialect 23 message 64 refl (λ e. cc) segments_survive fits

interchange_build-encode_example :
    (interchange_build message (some default_params) 5).text
    ≡ take 5 (encode default_params (content_of message))
unfolding program
interchange_build-encode_example = interchange_build-encode message default_params 5 refl

interchange_build-Fits_example : Fits 5 (interchange_build message (some edi_edifact_params) 5)
interchange_build-Fits_example = interchange_build-Fits message (some edi_edifact_params) 5

-- Five bytes of room, and six are written.
interchange_build_overrun_example : (interchange_build message (some default_params) 5).high ≡ 6
unfolding program
interchange_build_overrun_example =
    interchange_build_overrun message default_params 5 refl (omega arith)

parser_parse-Interchanges_example :
    Interchanges (parser_parse detect_init (parser_create none) (codes "HELLO"))
    ⊎ (((parser_create none).detect ≡ 1)
        × (detect detect_init (codes "HELLO") ≡ no_match)
        × (parser_parse detect_init (parser_create none) (codes "HELLO")
            ≡ returned (parser_create none) none))
    ⊎ (((parser_create none).detect ≡ 1)
        × (detect detect_init (codes "HELLO") ≡ out_of_bounds)
        × (parser_parse detect_init (parser_create none) (codes "HELLO") ≡ faulted))
parser_parse-Interchanges_example =
    parser_parse-Interchanges detect_init (parser_create none) (codes "HELLO")

parser_parse-parser_example :
    (parser_create none ≡ parser_create none)
    × (parser_error (parser_create none) ≡ parser_error (parser_create none))
unfolding program
parser_parse-parser_example =
    parser_parse-parser detect_init (parser_create none) (parser_create none) unterminated _ refl
      parse_unterminated

-- ===== src/Parse/Entry.antt =====
-- `edi_parser_parse` of libedi/parse.c as its callers see it: the dialect is found first, and the
-- message is parsed with it.
use libedi.Base.{Option, none, some, length, drop, ◌==◌, if◌then◌else◌}
use libedi.Base.Chars.{Bytes}
use libedi.Interchange.{Parser, ParseError, Interchange}
use libedi.Detect.Registry.{Registry}
use libedi.Detect.Match.{Detected, found, no_match, out_of_bounds, detect}
use libedi.Parse.Parser.{parser_init}
use libedi.Parse.Segments.{parse_message}

-- The parser handed in, as it is left, and the interchange, or NULL. `faulted` stands for a read
-- behind the end of the message, and `unfinished` for fuel that ran out.
pub data Outcome : Type 0 where
  returned : Parser → Option Interchange → Outcome
  faulted unfinished : Outcome

-- What the temporary parser leaves: its error is lost with it.
abbrev pub keep_parser : Parser → Option (ParseError × Interchange) → Outcome
keep_parser oparser none = unfinished
keep_parser oparser (some (e, i)) = returned oparser (some i)

abbrev pub set_error : Parser → Option (ParseError × Interchange) → Outcome
set_error oparser none = unfinished
set_error oparser (some (e, i)) = returned (record oparser { error = e }) (some i)

abbrev pub parse_detected : Parser → Bytes → Detected → Outcome
parse_detected oparser message (found params skip) =
    keep_parser oparser
      (parse_message (length message) (parser_init (some params)) (drop skip message))
parse_detected oparser message no_match = returned oparser none
parse_detected oparser message out_of_bounds = faulted

-- `edi_parser_parse`
unfoldable pub parser_parse : Registry → Parser → Bytes → Outcome
unfolding parse_message parser_init detect
parser_parse reg oparser message =
    if oparser.detect == 1
    then parse_detected oparser message (detect reg message)
    else set_error oparser (parse_message (length message) oparser message)

-- `edi_parser_error`
abbrev pub parser_error : Parser → ParseError
parser_error p = p.error

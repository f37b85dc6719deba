-- ===== src/Parse/Parser.antt =====
-- `edi__parser_init` and `edi_parser_create` of libedi/parse.c.
use libedi.Base.{ℕ, Option, none, some, leb, if◌then◌else◌}
use libedi.Params.{Params, or_default}
use libedi.Interchange.{Parser, err_none}

-- A parser with all separators 0, as `memset` leaves it.
abbrev cleared_parser : Parser
cleared_parser = record {
  error = err_none;
  sep_seg = 0;
  sep_data = 0;
  sep_sub = 0;
  sep_tag = 0;
  escape = 0;
  detect = 1;
}

-- `edi__parser_init`; a NULL pointer is `none`.
unfoldable pub parser_init : Option Params → Parser
parser_init o =
    let params = or_default o in
    if leb 0x0100 params.version
    then record {
      error = err_none;
      sep_seg = params.segment_separator;
      sep_data = params.element_separator;
      sep_sub = params.subelement_separator;
      sep_tag = params.tag_separator;
      escape = params.escape;
      detect = 1;
    }
    else cleared_parser

-- `edi_parser_create`
unfoldable pub parser_create : Option Params → Parser
unfolding parser_init
parser_create none = record {
  error = err_none;
  sep_seg = b'\'';
  sep_data = b'+';
  sep_sub = b':';
  sep_tag = b'+';
  escape = b'?';
  detect = 1;
}
parser_create (some params) = parser_init (some params)

-- `edi_parser_destroy`: the parser that a pointer led to is freed, and 0 is returned.
abbrev pub parser_destroy : Option Parser → ℕ × Option Parser
parser_destroy p = (0, none)

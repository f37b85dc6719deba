-- ===== src/Tests/Memory.antt =====
-- Where the values of small interchanges are kept, and what destroying them frees: runs of
-- libedi/parse.c, libedi/build.c and libedi/stringpool.c.
use libedi.Base.{[], ◌∷◌, ◌≡◌, refl, All, none, some}
use libedi.Base.Chars.{codes, char_is}
use libedi.Interchange.{simple, composite, Interchange, err_none}
use libedi.Pool.{stringpool_alloc, stringpool_get, in_stringpool}
use libedi.Parse.Parser.{parser_create}
use libedi.Parse.Scan.{scan, memcpyescape, is_escape, ends_value}
use libedi.Parse.Elements.{read_elements, read_value, more_elements, skip_separator}
use libedi.Parse.Segments.{parse_message, read_segments}
use libedi.Parse.Kept.{IsSafe, parse_message-IsSafe}
use libedi.Destroy.{
  values, valuelens, elements, segments, stringpool, stringpool_table, sp_table, poolsize_table,
  private_part, interchange, interchange_destroy,
}
use libedi.Destroy.Blocks.{IsAllocated, parse_message-interchange_destroy}
use libedi.Destroy.Once.{AllDistinct, parse_message-destroy_once}

-- What the runs below compute with.
program : Unit {0}
unfolding char_is parser_create parse_message read_segments read_elements read_value more_elements
    skip_separator scan memcpyescape is_escape ends_value stringpool_alloc stringpool_get
    in_stringpool interchange_destroy
program = tt

-- What a run makes of a short message, an escaped separator in it.
abbrev short : Interchange
short = record {
  segments =
      record {
        elements =
            simple (record { at = record { pool = 0; offset = 0 }; text = codes "X"; len = 1 })
            ∷ composite (
                record { at = record { pool = 0; offset = 2 }; text = codes "+"; len = 1 }
                ∷ record { at = record { pool = 0; offset = 5 }; text = []; len = 0 }
                ∷ [])
            ∷ simple (record { at = record { pool = 0; offset = 6 }; text = codes "y"; len = 1 })
            ∷ [];
        tag = some (record { at = record { pool = 0; offset = 0 }; text = codes "X"; len = 1 });
        offset = 0;
      }
      ∷ [];
  pools = record { poolsize = 512; used = 8 } ∷ [];
}

parse_short : parse_message 8 (parser_create none) (codes "X+?+:+y'") ≡ some (err_none, short)
unfolding program
parse_short = refl

parse_message-IsSafe_example : IsSafe short
parse_message-IsSafe_example =
    parse_message-IsSafe 8 (parser_create none) (codes "X+?+:+y'") parse_short

destroy_short :
    interchange_destroy short
    ≡ values 0 1
      ∷ valuelens 0 1
      ∷ elements 0
      ∷ segments
      ∷ stringpool 0
      ∷ stringpool_table
      ∷ sp_table
      ∷ poolsize_table
      ∷ private_part
      ∷ interchange
      ∷ []
unfolding program
destroy_short = refl

parse_message-interchange_destroy_example : All (IsAllocated short) (interchange_destroy short)
parse_message-interchange_destroy_example =
    parse_message-interchange_destroy 8 (parser_create none) (codes "X+?+:+y'") parse_short

parse_message-destroy_once_example : AllDistinct (interchange_destroy short)
parse_message-destroy_once_example =
    parse_message-destroy_once 8 (parser_create none) (codes "X+?+:+y'") parse_short

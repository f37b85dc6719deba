-- ===== src/Tests/Creation.antt =====
-- Interchanges made by hand with the functions of libedi/build.c.
use libedi.Base.{List, [], ◌∷◌, ◌≡◌, refl, Option, none, some}
use libedi.Base.Chars.{Bytes, codes}
use libedi.Interchange.{simple, composite}
use libedi.Pool.{Ref, Pools, stringpool_alloc, stringpool_get, in_stringpool}
use libedi.Parse.Storage.{interchange_values}
use libedi.Create.{
  Making, made_destroy, is_in, without, interchange_create, segment_create, element_create,
  element_add,
}
use libedi.Create.Values.{creation_ignores_text}
use libedi.Create.Placed.{Placed}
use libedi.Create.Kept.{new, segment, element, value, IsMade-Placed}
use libedi.Create.Empty.{IsAmong, empty_at, segment_create-interchange_destroy}
use libedi.Destroy.{
  Block, buffer, elements, segments, stringpool, stringpool_table, sp_table, poolsize_table,
  private_part, interchange, interchange_destroy,
}

-- What the runs below compute with.
program : Unit {0}
unfolding made_destroy is_in without segment_create element_create element_add stringpool_alloc
    stringpool_get in_stringpool interchange_destroy
program = tt

-- Memory that holds zeros: every string there is empty.
abbrev zeros : Pools → Ref → Bytes
zeros ps r = []

abbrev made_or : Making → Option Making → Making
made_or i none = i
made_or i (some j) = j

abbrev one_segment : Making
one_segment =
    made_or interchange_create (segment_create zeros interchange_create (some (codes "UNH")))

abbrev two_elements : Making
two_elements = made_or one_segment (element_create zeros one_segment 0 (some (codes "ab")))

abbrev two_values : Making
two_values = made_or two_elements (element_add zeros two_elements 0 1 (codes "c"))

abbrev moved : Making
moved = made_or two_values (segment_create zeros two_values none)

create_two_values : two_values.msg ≡ record {
  segments =
      record {
        elements =
            simple (record { at = record { pool = 0; offset = 0 }; text = []; len = 3 })
            ∷ composite (
                record { at = record { pool = 0; offset = 3 }; text = []; len = 2 }
                ∷ record { at = record { pool = 0; offset = 5 }; text = []; len = 1 }
                ∷ [])
            ∷ [];
        tag = some (record { at = record { pool = 0; offset = 0 }; text = []; len = 3 });
        offset = 0;
      }
      ∷ [];
  pools = record { poolsize = 512; used = 6 } ∷ [];
}
unfolding program
create_two_values = refl

IsMade-Placed_example : Placed two_values.msg.pools (interchange_values two_values.msg.segments)
unfolding program
IsMade-Placed_example = IsMade-Placed zeros (
    value (element (segment new (some (codes "UNH")) refl) 0 (some (codes "ab")) refl) 0 1
      (codes "c") refl)

creation_ignores_text_example :
    (segment_create zeros one_segment (some (codes "A"))
      ≡ segment_create zeros one_segment (some (codes "B")))
    × (element_create zeros one_segment 0 (some (codes "A"))
        ≡ element_create zeros one_segment 0 (some (codes "B")))
    × (element_add zeros one_segment 0 0 (codes "A")
        ≡ element_add zeros one_segment 0 0 (codes "B"))
creation_ignores_text_example =
    creation_ignores_text zeros one_segment 0 0 (codes "A") (codes "B") refl

destroy_empty :
    interchange_destroy
      (made_or interchange_create (segment_create zeros interchange_create (some []))).msg
    ≡ buffer (record { pool = 0; offset = 0 })
      ∷ elements 0
      ∷ segments
      ∷ stringpool 0
      ∷ stringpool_table
      ∷ sp_table
      ∷ poolsize_table
      ∷ private_part
      ∷ interchange
      ∷ []
unfolding program
destroy_empty = refl

segment_create-interchange_destroy_example :
    (j : Making) × (bs : List Block) × (segment_create zeros one_segment (some []) ≡ some j)
    × (made_destroy j ≡ some bs)
    × IsAmong (buffer (empty_at zeros one_segment)) bs
unfolding program
segment_create-interchange_destroy_example =
    segment_create-interchange_destroy zeros one_segment refl

-- An element that was made without a value is destroyed with whatever its memory held.
destroy_uncleared :
    made_destroy (made_or one_segment (element_create zeros one_segment 0 none)) ≡ none
unfolding program
destroy_uncleared = refl

-- ===== src/Create/Values.antt =====
-- What `edi_element_add` of libedi/build.c makes of the value that it is given.
use libedi.Base.{ℕ, ◌≡◌, ap, length, get_elem?, [], ◌∷◌, ◌++◌, Option, none, some, if◌then◌else◌}
use libedi.Base.Chars.{Bytes}
use libedi.Pool.{Ref, Pools}
use libedi.Interchange.{Value}
use libedi.Create.{
  Making, empty_segment, nelements, with_element, with_segment, new_value, put_value, with_value,
  is_in, without, element_add, element_create, segment_create,
}

module _ (found : Pools → Ref → Bytes) where
  new_value_same :
      (ps : Pools) (v w : Bytes) → length v ≡ length w → new_value found ps v ≡ new_value found ps w
  unfolding new_value
  new_value_same ps v w e = rw e

  element_add_same :
      (i : Making) (c d : ℕ) (v w : Bytes)
      → length v ≡ length w
      → element_add found i c d v ≡ element_add found i c d w
  unfolding element_add with_value
  element_add_same i c d v w e =
      let made : Pools × Value → Option Making = λ t.
        if is_in c d i.linked
        then some (record {
          msg = record { segments = put_value c d t.1 i.msg.segments; pools = t.0 };
          linked = i.linked;
          uncleared = without c d i.uncleared;
        })
        else none in
      ap made (new_value_same i.msg.pools v w e)

  -- Of a value only the length counts: two values of one length make the same segment, the same
  -- element and the same addition to an element, whatever the bytes of either.
  pub creation_ignores_text :
      (i : Making) (c d : ℕ) (v w : Bytes)
      → length v ≡ length w
      → (segment_create found i (some v) ≡ segment_create found i (some w))
        × (element_create found i c (some v) ≡ element_create found i c (some w))
        × (element_add found i c d v ≡ element_add found i c d w)
  unfolding segment_create element_create
  creation_ignores_text i c d v w e = (
    element_add_same (with_element found (with_segment found i) (length i.msg.segments))
        (length i.msg.segments)
        (nelements (get_elem? (i.msg.segments ++ empty_segment ∷ []) (length i.msg.segments))) v w
        e,
    element_add_same (with_element found i c) c (nelements (get_elem? i.msg.segments c)) v w e,
    element_add_same i c d v w e,
  )

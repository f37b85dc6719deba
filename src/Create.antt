-- ===== src/Create.antt =====
-- Making an interchange by hand: `edi_interchange_create`, `edi_segment_create`,
-- `edi_element_create` and `edi_element_add` of libedi/build.c. A pointer of the caller to a segment is
-- the index of the segment where it is now, and one to an element that index and its own.
pub mod Values
pub mod Placed
pub mod Kept
pub mod Empty
pub mod Moved
use libedi.Base.{
  ℕ, zero, Bool, false, List, [], ◌∷◌, ◌++◌, Option, none, some, length, get_elem?, modify, ◌==◌,
  ◌&&◌, ◌||◌, if◌then◌else◌,
}
use libedi.Base.Chars.{Bytes}
use libedi.Pool.{Ref, Pools, stringpool_alloc}
use libedi.Interchange.{Value, Element, untyped, simple, composite, Segment, Interchange}
use libedi.Destroy.{Block, interchange_destroy}

-- An interchange that is being made. The elements of the first list, each with its segment, point to
-- their segments; the `segment` of every other element leads into an array of segments that was moved
-- since. The elements of the second list are cleared up to their type and pointer only: `value` and
-- `valuelen` are what the memory held.
pub record Making : Type 0 where
  pub msg : Interchange
  pub linked : List (ℕ × ℕ)
  pub uncleared : List (ℕ × ℕ)

-- `edi_interchange_create`
abbrev pub interchange_create : Making
interchange_create = record {
  msg = record { segments = []; pools = [] };
  linked = [];
  uncleared = [];
}

abbrev pub empty_segment : Segment
empty_segment = record { elements = []; tag = none; offset = 0 }

-- The element is in the list.
unfoldable pub is_in : ℕ → ℕ → List (ℕ × ℕ) → Bool
is_in c d [] = false
is_in c d (x ∷ xs) = (c == x.0 && d == x.1) || is_in c d xs

unfoldable pub without : ℕ → ℕ → List (ℕ × ℕ) → List (ℕ × ℕ)
without c d [] = []
without c d (x ∷ xs) = let rest = without c d xs in if c == x.0 && d == x.1 then rest else x ∷ rest

-- The element with one more value: the branches of `edi_element_add` on `elp->type`.
unfoldable pub add_to : Element → Value → Element
add_to untyped v = simple v
add_to (simple w) v = composite (w ∷ v ∷ [])
add_to (composite vs) v = composite (vs ++ v ∷ [])

-- The tag that the segment has then: the first value of its first element sets it.
unfoldable pub retag : List Element → ℕ → Value → Option Value → Option Value
retag (untyped ∷ es) zero v tag = some v
retag _ _ v tag = tag

unfoldable pub add_in_segment : ℕ → Value → Segment → Segment
unfolding add_to retag
add_in_segment d v s = record s {
  elements = modify d (λ e. add_to e v) s.elements;
  tag = retag s.elements d v s.tag;
}

unfoldable pub put_value : ℕ → ℕ → Value → List Segment → List Segment
unfolding add_in_segment
put_value c d v = modify c (add_in_segment d v)

abbrev pub nelements : Option Segment → ℕ
nelements none = 0
nelements (some s) = length s.elements

-- `edi_interchange_destroy` for an interchange that is made by hand: what it hands to `free`, and `none`
-- where that is a `value` that was never set.
unfoldable pub made_destroy : Making → Option (List Block)
unfolding interchange_destroy
made_destroy i = elim i.uncleared [ [] ↦ some (interchange_destroy i.msg) | x ∷ xs ↦ none ]

-- `found ps r` is the string that the memory of the buffer `r` holds when the pools `ps` hand it
-- out: the code allocates room for a value and copies nothing there.
module _ (found : Pools → Ref → Bytes) where
  -- The pools, and the value, after `edi__stringpool_alloc(…, strlen(value))`.
  unfoldable pub new_value : Pools → Bytes → Pools × Value
  unfolding stringpool_alloc
  new_value ps value =
      let (later, r) = stringpool_alloc ps (length value) in
      (later, record { at = r; text = found ps r; len = length value })

  -- The interchange with a value more in the element, whose fields are all set then.
  unfoldable pub with_value : Making → ℕ → ℕ → Bytes → Making
  unfolding new_value put_value without
  with_value i c d value =
      let (later, v) = new_value i.msg.pools value in
      record {
        msg = record { segments = put_value c d v i.msg.segments; pools = later };
        linked = i.linked;
        uncleared = without c d i.uncleared;
      }

  -- `edi_element_add`, which reaches the segment and the interchange through the element; `none` if
  -- the element's pointer leads to memory that is not the segment any more.
  unfoldable pub element_add : Making → ℕ → ℕ → Bytes → Option Making
  unfolding with_value is_in
  element_add i c d value = if is_in c d i.linked then some (with_value i c d value) else none

  abbrev pub add_optional : Making → ℕ → ℕ → Option Bytes → Option Making
  add_optional i c d none = some i
  add_optional i c d (some value) = element_add i c d value

  -- Segment `c` with a new element at its end, which points to the segment.
  abbrev pub with_element : Making → ℕ → Making
  with_element i c =
      let d = nelements (get_elem? i.msg.segments c) in
      record {
        msg = record (i.msg) {
          segments =
              modify c (λ s. record s { elements = s.elements ++ untyped ∷ [] }) i.msg.segments;
        };
        linked = (c, d) ∷ i.linked;
        uncleared = (c, d) ∷ i.uncleared;
      }

  -- `edi_element_create`: the new element of segment `c` is its last one.
  unfoldable pub element_create : Making → ℕ → Option Bytes → Option Making
  unfolding element_add
  element_create i c value =
      add_optional (with_element i c) c (nelements (get_elem? i.msg.segments c)) value

  abbrev pub create_optional : Making → ℕ → Option Bytes → Option Making
  create_optional i c none = some i
  create_optional i c (some tag) = element_create i c (some tag)

  -- The interchange with a new segment at its end. The array is moved: no element points into it.
  abbrev pub with_segment : Making → Making
  with_segment i = record {
    msg = record (i.msg) { segments = i.msg.segments ++ empty_segment ∷ [] };
    linked = [];
    uncleared = i.uncleared;
  }

  -- `edi_segment_create`: the new segment is the last one.
  unfoldable pub segment_create : Making → Option Bytes → Option Making
  unfolding element_create
  segment_create i tag = create_optional (with_segment i) (length i.msg.segments) tag

-- ===== src/Destroy.antt =====
-- `edi_interchange_destroy` of libedi/build.c, with `edi__stringpool_free` and
-- `edi__stringpool_destroy` of libedi/stringpool.c: what they hand to `free`.
pub mod Blocks
pub mod Once
use libedi.Base.{ℕ, ◌+◌, List, [], ◌∷◌, ◌++◌, length, if◌then◌else◌}
use libedi.Pool.{Ref, Pools, in_stringpool}
use libedi.Interchange.{Value, Element, untyped, simple, composite, Segment, Interchange}

-- A block of the heap, by the pointer that leads to it; the numbers are the indices of a segment
-- and of an element in it, or the index of a pool. `buffer` is the pointer of a value.
pub data Block : Type 0 where
  values valuelens : ℕ → ℕ → Block
  elements : ℕ → Block
  segments : Block
  stringpool : ℕ → Block
  stringpool_table sp_table poolsize_table : Block
  private_part interchange : Block
  buffer : Ref → Block

-- `edi__stringpool_free`
unfoldable pub stringpool_free : Pools → Ref → List Block
unfolding in_stringpool
stringpool_free ps r = if in_stringpool ps r then [] else buffer r ∷ []

-- The loop of `edi__stringpool_destroy`, which goes from the oldest pool to the newest.
unfoldable pub free_pools : Pools → List Block
free_pools [] = []
free_pools (p ∷ ps) = free_pools ps ++ stringpool (length ps) ∷ []

unfoldable pub stringpool_destroy : Pools → List Block
unfolding free_pools
stringpool_destroy ps = free_pools ps ++ stringpool_table ∷ sp_table ∷ poolsize_table ∷ []

module _ (ps : Pools) where
  -- The loop over the values of a composite.
  unfoldable pub free_values : List Value → List Block
  unfolding stringpool_free
  free_values [] = []
  free_values (v ∷ vs) = stringpool_free ps v.at ++ free_values vs

  -- One element. The `value` of an element that was cleared is NULL, which `free` ignores.
  unfoldable pub free_element : ℕ → ℕ → Element → List Block
  unfolding free_values
  free_element c d untyped = []
  free_element c d (simple v) = stringpool_free ps v.at
  free_element c d (composite vs) = free_values vs ++ values c d ∷ valuelens c d ∷ []

  -- The loop over the elements of segment `c`, from element `d` on.
  unfoldable pub free_elements : ℕ → ℕ → List Element → List Block
  unfolding free_element
  free_elements c d [] = []
  free_elements c d (e ∷ es) = free_element c d e ++ free_elements c (d + 1) es

  -- The loop over the segments, from segment `c` on.
  unfoldable pub free_segments : ℕ → List Segment → List Block
  unfolding free_elements
  free_segments c [] = []
  free_segments c (s ∷ ss) = free_elements c 0 s.elements ++ elements c ∷ free_segments (c + 1) ss

-- `edi_interchange_destroy`: the pointers handed to `free`, in their order.
unfoldable pub interchange_destroy : Interchange → List Block
unfolding free_segments stringpool_destroy
interchange_destroy msg =
    free_segments msg.pools 0 msg.segments
    ++ segments ∷ (stringpool_destroy msg.pools ++ private_part ∷ interchange ∷ [])

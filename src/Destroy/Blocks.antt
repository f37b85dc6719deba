-- ===== src/Destroy/Blocks.antt =====
-- Which blocks `edi_interchange_destroy` of libedi/build.c frees.
use libedi.Base.{
  ℕ, ◌+◌, ◌<◌, List, [], ◌∷◌, some, ◌≡◌, refl, ap, ◌∙◌, arith, All, All-append, All-append_left,
  All-append_right, suc, length, get_elem?,
}
use libedi.Interchange.{
  Value, Element, untyped, simple, composite, Segment, Interchange, Parser, ParseError,
}
use libedi.Base.Chars.{Bytes}
use libedi.Parse.Segments.{parse_message}
use libedi.Parse.Kept.{parse_message-IsSafe}
use libedi.Pool.{Pools}
use libedi.Pool.Bounds.{Holds-in_stringpool}
use libedi.Parse.Storage.{IsKept, element_values, values_in, interchange_values}
use libedi.Destroy.{
  Block, values, valuelens, elements, stringpool, buffer, stringpool_free, free_pools,
  stringpool_destroy, free_values, free_element, free_elements, free_segments, interchange_destroy,
}

-- Element `d` of segment `c` is a composite.
abbrev pub IsCompositeAt : List Segment → ℕ → ℕ → Type 0
IsCompositeAt ss c d =
    (s : Segment) × (vs : List Value) × (get_elem? ss c ≡ some s)
    × (get_elem? s.elements d ≡ some (composite vs))

-- The blocks that the allocator returned for the interchange. A value's buffer is not one: it is
-- a part of a pool.
abbrev pub IsAllocated : Interchange → Block → Type 0
IsAllocated i (values c d) = IsCompositeAt i.segments c d
IsAllocated i (valuelens c d) = IsCompositeAt i.segments c d
IsAllocated i (elements c) = (s : Segment) × (get_elem? i.segments c ≡ some s)
IsAllocated i (stringpool c) = c < length i.pools
IsAllocated i (buffer r) = ⊥
IsAllocated i _ = Unit

module _ (i : Interchange) where
  abbrev Kept : List Value → Type 0
  Kept = All (IsKept i.pools)

  pub kept_freed : (v : Value) → IsKept i.pools v → stringpool_free i.pools v.at ≡ []
  unfolding stringpool_free
  kept_freed v k = rw (Holds-in_stringpool i.pools v.at (v.len + 1) (omega arith) k.0) refl

  pub free_values-nil : (vs : List Value) → Kept vs → free_values i.pools vs ≡ []
  unfolding free_values
  free_values-nil [] k = refl
  free_values-nil (v ∷ vs) k = rw (kept_freed v k.0, free_values-nil vs k.1) refl

  free_pools-IsAllocated :
      (ps : Pools) → length ps < length i.pools + 1 → All (IsAllocated i) (free_pools ps)
  unfolding free_pools
  free_pools-IsAllocated [] h = tt
  free_pools-IsAllocated (p ∷ ps) h =
      All-append (IsAllocated i) (free_pools ps) (stringpool (length ps) ∷ [])
        (free_pools-IsAllocated ps (omega arith)) (omega arith, tt)

  module _ (s : Segment) (c : ℕ) (at : get_elem? i.segments c ≡ some s) where
    free_element-IsAllocated :
        (d : ℕ) (e : Element)
        → get_elem? s.elements d ≡ some e
        → Kept (element_values e)
        → All (IsAllocated i) (free_element i.pools c d e)
    unfolding free_element
    free_element-IsAllocated d untyped e k = tt
    free_element-IsAllocated d (simple v) e k = rw (kept_freed v k.0) tt
    free_element-IsAllocated d (composite vs) e k =
        let here : IsCompositeAt i.segments c d = (s, vs, at, e) in
        rw (free_values-nil vs k) (here, (here, tt))

    free_elements-IsAllocated :
        (d : ℕ) (es : List Element)
        → ((j : ℕ) → get_elem? s.elements (d + j) ≡ get_elem? es j)
        → Kept (values_in es)
        → All (IsAllocated i) (free_elements i.pools c d es)
    unfolding free_elements
    free_elements-IsAllocated d [] look k = tt
    free_elements-IsAllocated d (e ∷ es) look k =
        All-append (IsAllocated i) (free_element i.pools c d e) (free_elements i.pools c (d + 1) es)
          (free_element-IsAllocated d e (ap (get_elem? s.elements) (omega arith) ∙ look 0)
            (All-append_left (IsKept i.pools) (element_values e) (values_in es) k))
          (free_elements-IsAllocated (d + 1) es
            (λ j. ap (get_elem? s.elements) (omega arith) ∙ look (suc j))
            (All-append_right (IsKept i.pools) (element_values e) (values_in es) k))

  free_segments-IsAllocated :
      (c : ℕ) (ss : List Segment)
      → ((j : ℕ) → get_elem? i.segments (c + j) ≡ get_elem? ss j)
      → Kept (interchange_values ss)
      → All (IsAllocated i) (free_segments i.pools c ss)
  unfolding free_segments
  free_segments-IsAllocated c [] look k = tt
  free_segments-IsAllocated c (s ∷ ss) look k =
      let at : get_elem? i.segments c ≡ some s = ap (get_elem? i.segments) (omega arith) ∙ look 0 in
      All-append (IsAllocated i) (free_elements i.pools c 0 s.elements) _
        (free_elements-IsAllocated s c at 0 s.elements
          (λ j. ap (get_elem? s.elements) (omega arith))
          (All-append_left (IsKept i.pools) (values_in s.elements) (interchange_values ss) k))
        (
          (s, at),
          free_segments-IsAllocated (c + 1) ss
              (λ j. ap (get_elem? i.segments) (omega arith) ∙ look (suc j))
              (All-append_right (IsKept i.pools) (values_in s.elements) (interchange_values ss) k),
        )

  stringpool_destroy-IsAllocated : All (IsAllocated i) (stringpool_destroy i.pools)
  unfolding stringpool_destroy
  stringpool_destroy-IsAllocated =
      All-append (IsAllocated i) (free_pools i.pools) _
        (free_pools-IsAllocated i.pools (omega arith)) (tt, (tt, (tt, tt)))

-- Destroying an interchange that `edi_parser_parse` returned frees only blocks that the allocator
-- returned for it, and so no pointer into a string pool, whatever the message and the separators.
pub parse_message-interchange_destroy :
    (start : ℕ) (p : Parser) (m : Bytes) {e : ParseError} {i : Interchange}
    → parse_message start p m ≡ some (e, i)
    → All (IsAllocated i) (interchange_destroy i)
unfolding interchange_destroy
parse_message-interchange_destroy start p m {e} {i} h =
    let safe = parse_message-IsSafe start p m h in
    All-append (IsAllocated i) (free_segments i.pools 0 i.segments) _
      (free_segments-IsAllocated i 0 i.segments (λ j. ap (get_elem? i.segments) (omega arith))
        safe.stored.kept)
      (
        tt,
        All-append (IsAllocated i) (stringpool_destroy i.pools) _ (stringpool_destroy-IsAllocated i)
            (tt, (tt, tt)),
      )

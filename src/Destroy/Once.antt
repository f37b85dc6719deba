-- ===== src/Destroy/Once.antt =====
-- `edi_interchange_destroy` of libedi/build.c frees no block twice.
use libedi.Base.{
  ℕ, suc, ◌+◌, ◌≤◌, ◌<◌, List, [], ◌∷◌, ◌++◌, some, ◌≡◌, ◌≢◌, refl, ap, sym, arith, All, All-append,
  All-map, All-append_left, All-append_right, append_assoc, length,
}
use libedi.Base.Chars.{Bytes}
use libedi.Interchange.{
  Value, Element, untyped, simple, composite, Segment, Interchange, Parser, ParseError,
}
use libedi.Pool.{Pools}
use libedi.Parse.Segments.{parse_message}
use libedi.Parse.Kept.{parse_message-IsSafe}
use libedi.Parse.Storage.{IsKept, element_values, values_in, interchange_values}
use libedi.Destroy.{
  Block, values, valuelens, elements, segments, stringpool, stringpool_table, sp_table,
  poolsize_table, private_part, interchange, free_pools, stringpool_destroy, free_element,
  free_elements, free_segments, interchange_destroy,
}
use libedi.Destroy.Blocks.{kept_freed, free_values-nil}

-- No two entries of the list are the same block.
abbrev pub AllDistinct : List Block → Type 0
AllDistinct [] = Unit
AllDistinct (b ∷ bs) = All (λ c. b ≢ c) bs × AllDistinct bs

module _ (P Q : Block → Type 0) (never : (b : Block) → P b → Q b → ⊥) where
  unlike : (b : Block) (cs : List Block) → P b → All Q cs → All (λ c. b ≢ c) cs
  unlike b cs h k = All-map Q (λ c. b ≢ c) cs (λ c q e. never c (rw (sym e) h) q) k

  -- Two lists of distinct blocks, told apart by a predicate on either.
  AllDistinct-append :
      (bs cs : List Block)
      → All P bs
      → All Q cs
      → AllDistinct bs
      → AllDistinct cs
      → AllDistinct (bs ++ cs)
  AllDistinct-append [] cs h k d f = f
  AllDistinct-append (b ∷ bs) cs h k d f =
      (All-append (λ c. b ≢ c) bs cs d.0 (unlike b cs h.0 k), AllDistinct-append bs cs h.1 k d.1 f)

-- Where a block comes in the order of the call: the part of the call, the segment, whether all its
-- elements come before the block, and the element or the pool.
abbrev part : Block → ℕ
part (values _ _) = 0
part (valuelens _ _) = 0
part (elements _) = 0
part segments = 1
part (stringpool _) = 2
part _ = 3

abbrev segment_index : Block → ℕ
segment_index (values c _) = c
segment_index (valuelens c _) = c
segment_index (elements c) = c
segment_index _ = 0

abbrev stage : Block → ℕ
stage (values _ _) = 0
stage (valuelens _ _) = 0
stage _ = 1

abbrev index : Block → ℕ
index (values _ d) = d
index (valuelens _ d) = d
index (stringpool c) = c
index _ = 0

-- A block of element `d` of segment `c`.
abbrev OfElement : ℕ → ℕ → Block → Type 0
OfElement c d b = (part b ≡ 0) × (segment_index b ≡ c) × (stage b ≡ 0) × (index b ≡ d)

-- A block of an element of segment `c`, from element `d` on.
abbrev FromElement : ℕ → ℕ → Block → Type 0
FromElement c d b = (part b ≡ 0) × (segment_index b ≡ c) × (stage b ≡ 0) × (d ≤ index b)

-- A block of segment `c` or of a later one.
abbrev FromSegment : ℕ → Block → Type 0
FromSegment c b = (part b ≡ 0) × (c ≤ segment_index b)

-- A block that is freed behind those of the elements of segment `c`.
abbrev BehindElements : ℕ → Block → Type 0
BehindElements c b = (part b ≡ 0) × (c ≤ segment_index b) × (c + 1 ≤ segment_index b + stage b)

-- One of the pools before pool `c`.
abbrev OldPool : ℕ → Block → Type 0
OldPool c b = (part b ≡ 2) × (index b < c)

module _ (i : Interchange) where
  abbrev Kept : List Value → Type 0
  Kept = All (IsKept i.pools)

  free_element_once :
      (c d : ℕ) (e : Element)
      → Kept (element_values e)
      → All (OfElement c d) (free_element i.pools c d e) × AllDistinct (free_element i.pools c d e)
  unfolding free_element
  free_element_once c d untyped k = (tt, tt)
  free_element_once c d (simple v) k = rw (kept_freed i v k.0) (tt, tt)
  free_element_once c d (composite vs) k =
      let own : OfElement c d (values c d) = (refl, refl, refl, refl) in
      rw (free_values-nil i vs k) ((own, (own, tt)), (((λ e. cc), tt), (tt, tt)))

  free_elements_once :
      (c d : ℕ) (es : List Element)
      → Kept (values_in es)
      → All (FromElement c d) (free_elements i.pools c d es)
        × AllDistinct (free_elements i.pools c d es)
  unfolding free_elements
  free_elements_once c d [] k = (tt, tt)
  free_elements_once c d (e ∷ es) k =
      let here = free_element i.pools c d e in
      let later = free_elements i.pools c (d + 1) es in
      let (a, x) =
        free_element_once c d e
          (All-append_left (IsKept i.pools) (element_values e) (values_in es) k) in
      let (b, y) =
        free_elements_once c (d + 1) es
          (All-append_right (IsKept i.pools) (element_values e) (values_in es) k) in
      (
        All-append (FromElement c d) here later
            (All-map (OfElement c d) (FromElement c d) here (λ t h. omega arith) a)
            (All-map (FromElement c (d + 1)) (FromElement c d) later (λ t h. omega arith) b),
        AllDistinct-append (OfElement c d) (FromElement c (d + 1)) (λ t h g. omega arith) here later
            a b x y,
      )

  free_segments_once :
      (c : ℕ) (ss : List Segment)
      → Kept (interchange_values ss)
      → All (FromSegment c) (free_segments i.pools c ss) × AllDistinct (free_segments i.pools c ss)
  unfolding free_segments
  free_segments_once c [] k = (tt, tt)
  free_segments_once c (s ∷ ss) k =
      let here = free_elements i.pools c 0 s.elements in
      let later = free_segments i.pools (c + 1) ss in
      let (a, x) =
        free_elements_once c 0 s.elements
          (All-append_left (IsKept i.pools) (values_in s.elements) (interchange_values ss) k) in
      let (b, y) =
        free_segments_once (c + 1) ss
          (All-append_right (IsKept i.pools) (values_in s.elements) (interchange_values ss) k) in
      let own : BehindElements c (elements c) = (refl, omega arith, omega arith) in
      let behind : All (BehindElements c) (elements c ∷ later) =
        (own, All-map (FromSegment (c + 1)) (BehindElements c) later (λ t h. omega arith) b) in
      let apart : (t : Block) → FromSegment (c + 1) t → elements c ≢ t =
        λ t h e. omega (arith, ap segment_index e, h.1) in
      (
        All-append (FromSegment c) here (elements c ∷ later)
            (All-map (FromElement c 0) (FromSegment c) here (λ t h. omega arith) a)
            (All-map (BehindElements c) (FromSegment c) (elements c ∷ later) (λ t h. omega arith)
              behind),
        AllDistinct-append (FromElement c 0) (BehindElements c) (λ t h g. omega arith) here
            (elements c ∷ later) a behind x
            (All-map (FromSegment (c + 1)) (λ t. elements c ≢ t) later apart b, y),
      )

free_pools_once :
    (ps : Pools) → All (OldPool (length ps)) (free_pools ps) × AllDistinct (free_pools ps)
unfolding free_pools
free_pools_once [] = (tt, tt)
free_pools_once (p ∷ ps) =
    let (a, x) = free_pools_once ps in
    let n = length ps in
    let last : (part (stringpool n) ≡ 2) × (index (stringpool n) ≡ n) = (refl, refl) in
    (
      All-append (OldPool (suc n)) (free_pools ps) (stringpool n ∷ [])
          (All-map (OldPool n) (OldPool (suc n)) (free_pools ps) (λ t h. omega arith) a)
          ((refl, omega arith), tt),
      AllDistinct-append (OldPool n) (λ t. (part t ≡ 2) × (index t ≡ n)) (λ t h g. omega arith)
          (free_pools ps) (stringpool n ∷ []) a (last, tt) x (tt, tt),
    )

abbrev tables : List Block
tables = stringpool_table ∷ sp_table ∷ poolsize_table ∷ private_part ∷ interchange ∷ []

tables-AllDistinct : AllDistinct tables
tables-AllDistinct = (
  ((λ e. cc), ((λ e. cc), ((λ e. cc), ((λ e. cc), tt)))),
  (
    ((λ e. cc), ((λ e. cc), ((λ e. cc), tt))),
    (((λ e. cc), ((λ e. cc), tt)), (((λ e. cc), tt), (tt, tt))),
  ),
)

-- Behind those of the segments, the blocks are distinct as well.
late_once :
    (ps : Pools)
    → All (λ t. 1 ≤ part t) (segments ∷ (free_pools ps ++ tables))
      × AllDistinct (segments ∷ (free_pools ps ++ tables))
late_once ps =
    let (a, x) = free_pools_once ps in
    let last : All (λ t. part t ≡ 3) tables = (refl, (refl, (refl, (refl, (refl, tt))))) in
    let from_pools : All (λ t. 2 ≤ part t) (free_pools ps ++ tables) =
      All-append (λ t. 2 ≤ part t) (free_pools ps) tables
        (All-map (OldPool (length ps)) (λ t. 2 ≤ part t) (free_pools ps) (λ t h. omega arith) a)
        (All-map (λ t. part t ≡ 3) (λ t. 2 ≤ part t) tables (λ t h. omega arith) last) in
    let apart : (t : Block) → 2 ≤ part t → segments ≢ t = λ t h e. omega (arith, ap part e, h) in
    (
      (
        omega arith,
        All-map (λ t. 2 ≤ part t) (λ t. 1 ≤ part t) (free_pools ps ++ tables) (λ t h. omega arith)
            from_pools,
      ),
      (
        All-map (λ t. 2 ≤ part t) (λ t. segments ≢ t) (free_pools ps ++ tables) apart from_pools,
        AllDistinct-append (OldPool (length ps)) (λ t. part t ≡ 3) (λ t h g. omega arith)
            (free_pools ps) tables a last x tables-AllDistinct,
      ),
    )

-- Destroying an interchange that `edi_parser_parse` returned frees no block twice, whatever the
-- message and the separators.
pub parse_message-destroy_once :
    (start : ℕ) (p : Parser) (m : Bytes) {e : ParseError} {i : Interchange}
    → parse_message start p m ≡ some (e, i)
    → AllDistinct (interchange_destroy i)
unfolding interchange_destroy stringpool_destroy
parse_message-destroy_once start p m {e} {i} h =
    let safe = parse_message-IsSafe start p m h in
    let (a, x) = free_segments_once i 0 i.segments safe.stored.kept in
    let (b, y) = late_once i.pools in
    rw (append_assoc (free_pools i.pools)) (
      AllDistinct-append (FromSegment 0) (λ t. 1 ≤ part t) (λ t h g. omega arith)
        (free_segments i.pools 0 i.segments) (segments ∷ (free_pools i.pools ++ tables)) a b x y)

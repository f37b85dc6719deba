-- ===== src/Create/Empty.antt =====
-- Destroying an interchange that was made by hand with an empty value.
use libedi.Base.{
  ℕ, ◌+◌, ◌<◌, true, false, List, [], ◌∷◌, ◌++◌, some, ◌≡◌, refl, ap, sym, arith, length,
  append_assoc, get_elem?, modify,
}
use libedi.Base.Chars.{Bytes}
use libedi.Interchange.{Segment, simple}
use libedi.Pool.{Ref, Pools, stringpool_alloc, stringpool_get, in_stringpool}
use libedi.Create.{
  Making, nelements, with_value, with_element, with_segment, is_in, without, made_destroy,
  empty_segment, segment_create, element_create, element_add, new_value, put_value, add_in_segment,
  add_to, retag,
}
use libedi.Destroy.{
  Block, buffer, elements, segments, private_part, interchange, stringpool_destroy, stringpool_free,
  free_elements, free_segments, interchange_destroy,
}

-- The index of a pool that is older than the newest of `ps`.
later_pool : (ps : Pools) (r : Ref) → length ps < r.pool + 1 → in_stringpool ps r ≡ false
unfolding in_stringpool
later_pool [] r h = refl
later_pool (p ∷ ps) r h = ground (arith, later_pool ps r (omega arith))

-- A buffer of no bytes stands at the end of its pool's used part, and is not recognised.
empty_buffer :
    (ps : Pools) → in_stringpool (stringpool_alloc ps 0).0 (stringpool_alloc ps 0).1 ≡ false
unfolding stringpool_alloc stringpool_get in_stringpool
empty_buffer [] = ground arith
empty_buffer (p ∷ ps) =
    let here : Ref = record { pool = length ps; offset = p.used } in
    let new : Ref = record { pool = length (p ∷ ps); offset = 0 } in
    ground (arith, later_pool ps here (omega arith), later_pool (p ∷ ps) new (omega arith))

-- The block occurs in the list.
abbrev pub IsAmong : Block → List Block → Type 0
IsAmong b bs = (xs : List Block) × (ys : List Block) × (bs ≡ xs ++ b ∷ ys)

free_segments-concat :
    (ps : Pools) (c : ℕ) (ss : List Segment) (s : Segment)
    → free_segments ps c (ss ++ s ∷ [])
      ≡ free_segments ps c ss ++ free_segments ps (c + length ss) (s ∷ [])
unfolding free_segments
free_segments-concat ps c [] s = ap (λ k. free_segments ps k (s ∷ [])) (omega arith)
free_segments-concat ps c (t ∷ ss) s =
    let next : c + 1 + length ss ≡ c + length (t ∷ ss) = omega arith in
    rw (free_segments-concat ps (c + 1) ss s, next)
      (sym (append_assoc (free_elements ps c 0 t.elements) _ _))

pub is_in_first : (c d : ℕ) (xs : List (ℕ × ℕ)) → is_in c d ((c, d) ∷ xs) ≡ true
unfolding is_in
is_in_first c d xs = ground arith

without_first : (c d : ℕ) → without c d ((c, d) ∷ []) ≡ []
unfolding without
without_first c d = ground arith

module _ (found : Pools → Ref → Bytes) (i : Making) where
  -- The pointer that `edi__stringpool_alloc` returns for an empty tag.
  abbrev pub empty_at : Ref
  empty_at = (stringpool_alloc i.msg.pools 0).1

  abbrev made : Segment
  made = record {
    elements = simple (record { at = empty_at; text = found i.msg.pools empty_at; len = 0 }) ∷ [];
    tag = some (record { at = empty_at; text = found i.msg.pools empty_at; len = 0 });
    offset = 0;
  }

  put_value-last :
      (f : Segment → Segment) (ss : List Segment) (s : Segment)
      → modify (length ss) f (ss ++ s ∷ []) ≡ ss ++ f s ∷ []
  put_value-last f [] s = refl
  put_value-last f (t ∷ ss) s = ap (◌∷◌ t) (put_value-last f ss s)

  get_elem?-last : (ss : List Segment) (s : Segment) → get_elem? (ss ++ s ∷ []) (length ss) ≡ some s
  get_elem?-last [] s = refl
  get_elem?-last (t ∷ ss) s = get_elem?-last ss s

  -- What the call makes.
  abbrev after_call : Making
  after_call =
      let n = length i.msg.segments in
      with_value found (with_element found (with_segment found i) n) n
        (nelements (get_elem? (i.msg.segments ++ empty_segment ∷ []) n)) []

  made_last : after_call.msg ≡ record {
    segments = i.msg.segments ++ made ∷ [];
    pools = (stringpool_alloc i.msg.pools 0).0;
  }
  unfolding with_value put_value new_value add_in_segment add_to retag
  made_last =
      let later = (stringpool_alloc i.msg.pools 0).0 in
      rw
        (get_elem?-last i.msg.segments empty_segment, put_value-last _ i.msg.segments empty_segment)
        (ap (λ ss. record { segments = ss; pools = later })
          (put_value-last (add_in_segment 0 (new_value found i.msg.pools []).1) i.msg.segments _))

  made_by_call : segment_create found i (some []) ≡ some after_call
  unfolding segment_create element_create element_add
  made_by_call =
      let n = length i.msg.segments in
      rw (is_in_first n (nelements (get_elem? (i.msg.segments ++ empty_segment ∷ []) n)) []) refl

  freed_here :
      (ps : Pools) (c : ℕ)
      → in_stringpool ps empty_at ≡ false
      → free_segments ps c (made ∷ []) ≡ buffer empty_at ∷ elements c ∷ []
  unfolding free_segments stringpool_free
  freed_here ps c h = rw h refl

  after_cleared : i.uncleared ≡ [] → after_call.uncleared ≡ []
  unfolding with_value without
  after_cleared e =
      let n = length i.msg.segments in
      let d = nelements (get_elem? (i.msg.segments ++ empty_segment ∷ []) n) in
      rw e (without_first n d)

  -- An interchange all of whose elements have their fields set can be given a segment with an empty tag,
  -- and destroying it then hands the pointer of that tag, which leads into a string pool, to `free`.
  pub segment_create-interchange_destroy :
      i.uncleared ≡ []
      → (j : Making) × (bs : List Block) × (segment_create found i (some []) ≡ some j)
        × (made_destroy j ≡ some bs)
        × IsAmong (buffer empty_at) bs
  unfolding interchange_destroy made_destroy
  segment_create-interchange_destroy cleared =
      let ps = (stringpool_alloc i.msg.pools 0).0 in
      let before = free_segments ps 0 i.msg.segments in
      let e = free_segments-concat ps 0 i.msg.segments made in
      let last = freed_here ps (0 + length i.msg.segments) (empty_buffer i.msg.pools) in
      let rest = segments ∷ (stringpool_destroy ps ++ private_part ∷ interchange ∷ []) in
      (
        after_call,
        interchange_destroy after_call.msg,
        made_by_call,
        rw (after_cleared cleared) refl,
        (
          before,
          elements (0 + length i.msg.segments) ∷ rest,
          rw (made_last, e, last) (append_assoc before _ rest),
        ),
      )

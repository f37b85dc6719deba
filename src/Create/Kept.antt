-- ===== src/Create/Kept.antt =====
-- Where the values of an interchange that is made by hand are kept: `edi_segment_create`,
-- `edi_element_create` and `edi_element_add` of libedi/build.c, in any order.
use libedi.Base.{
  ℕ, zero, suc, List, [], ◌∷◌, ◌++◌, Option, none, some, ◌≡◌, ◌⊎◌, inl, inr, refl, ap, ◌∙◌, sym,
  arith, Bool-cases, length, modify, get_elem?, append-nil, append_assoc,
}
use mathlib.Core.Path.{subst}
use mathlib.Core.Option.{some-injective}
use libedi.Base.Chars.{Bytes}
use libedi.Interchange.{Value, Element, untyped, simple, composite, Segment}
use libedi.Pool.{Ref, Pools}
use libedi.Parse.Storage.{
  element_values, values_in, interchange_values, values_in-concat, interchange_values-concat,
}
use libedi.Create.Placed.{Placed, Placed-insert, Placed-alloc}
use libedi.Create.{
  Making, interchange_create, empty_segment, nelements, segment_create, element_create, element_add,
  new_value, put_value, add_in_segment, add_to, with_value, with_element, with_segment, is_in,
}

-- The values after a step: the same ones, or with `v` among them.
abbrev Grows : Value → List Value → List Value → Type 0
Grows v old new =
    (old ≡ new) ⊎ ((xs : List Value) × (ys : List Value) × (old ≡ xs ++ ys) × (new ≡ xs ++ v ∷ ys))

Grows-behind :
    (v : Value) (a old new : List Value) → Grows v old new → Grows v (a ++ old) (a ++ new)
Grows-behind v a old new (inl e) = inl (ap (λ t. a ++ t) e)
Grows-behind v a old new (inr (xs, ys, e, f)) = inr (
  a ++ xs,
  ys,
  ap (λ t. a ++ t) e ∙ sym (append_assoc a xs ys),
  ap (λ t. a ++ t) f ∙ sym (append_assoc a xs (v ∷ ys)),
)

Grows-before :
    (v : Value) (a old new : List Value) → Grows v old new → Grows v (old ++ a) (new ++ a)
Grows-before v a old new (inl e) = inl (ap (λ t. t ++ a) e)
Grows-before v a old new (inr (xs, ys, e, f)) = inr (
  xs,
  ys ++ a,
  ap (λ t. t ++ a) e ∙ append_assoc xs ys a,
  ap (λ t. t ++ a) f ∙ append_assoc xs (v ∷ ys) a,
)

add_to-values : (e : Element) (v : Value) → Grows v (element_values e) (element_values (add_to e v))
unfolding add_to
add_to-values untyped v = inr ([], [], refl, refl)
add_to-values (simple w) v = inr (w ∷ [], [], refl, refl)
add_to-values (composite vs) v = inr (vs, [], sym (append-nil vs), refl)

modify-values :
    (v : Value) (d : ℕ) (es : List Element)
    → Grows v (values_in es) (values_in (modify d (λ e. add_to e v) es))
modify-values v d [] = inl refl
modify-values v zero (e ∷ es) =
    Grows-before v (values_in es) (element_values e) _ (add_to-values e v)
modify-values v (suc d) (e ∷ es) =
    Grows-behind v (element_values e) (values_in es) _ (modify-values v d es)

put_value-values :
    (v : Value) (c d : ℕ) (ss : List Segment)
    → Grows v (interchange_values ss) (interchange_values (put_value c d v ss))
unfolding put_value add_in_segment
put_value-values v c d [] = inl refl
put_value-values v zero d (s ∷ ss) =
    Grows-before v (interchange_values ss) (values_in s.elements) _ (modify-values v d s.elements)
put_value-values v (suc c) d (s ∷ ss) =
    Grows-behind v (values_in s.elements) (interchange_values ss) _ (put_value-values v c d ss)

abbrev PlacedIn : Making → Type 0
PlacedIn i = Placed i.msg.pools (interchange_values i.msg.segments)

abbrev with_untyped : Segment → Segment
with_untyped s = record s { elements = s.elements ++ untyped ∷ [] }

-- A new element that has no value yet adds no value.
grown-values :
    (c : ℕ) (ss : List Segment)
    → interchange_values (modify c with_untyped ss) ≡ interchange_values ss
grown-values c [] = refl
grown-values zero (s ∷ ss) =
    ap (λ t. t ++ interchange_values ss)
      (values_in-concat s.elements untyped ∙ append-nil (values_in s.elements))
grown-values (suc c) (s ∷ ss) = ap (λ t. values_in s.elements ++ t) (grown-values c ss)

module _ (found : Pools → Ref → Bytes) where
  with_value-Placed :
      (i : Making) (c d : ℕ) (value : Bytes) → PlacedIn i → PlacedIn (with_value found i c d value)
  unfolding with_value new_value
  with_value-Placed i c d value p = by_growth (put_value-values v c d i.msg.segments)
    where
      n : ℕ
      n = length value

      v : Value
      v = (new_value found i.msg.pools value).1

      by_growth :
          Grows v
            (interchange_values i.msg.segments)
            (interchange_values (put_value c d v i.msg.segments))
          → PlacedIn (with_value found i c d value)
      by_growth (inl e) = rw (← e) (Placed-alloc i.msg.pools n _ p)
      by_growth (inr (xs, ys, e, f)) =
          rw f (Placed-insert i.msg.pools n v xs ys refl refl (rw (← e) p))

  element_add-Placed :
      (i j : Making) (c d : ℕ) (value : Bytes)
      → PlacedIn i
      → element_add found i c d value ≡ some j
      → PlacedIn j
  unfolding element_add
  element_add-Placed i j c d value p e = elim (Bool-cases (is_in c d i.linked)) [
    | inl k ↦
        let z : with_value found i c d value ≡ j = some-injective _ _ (sym (rw k refl) ∙ e) in
        subst PlacedIn z (with_value-Placed i c d value p)
    | inr k ↦ absurd (ground arith)
  ]

  element_create-Placed :
      (i j : Making) (c : ℕ) (value : Option Bytes)
      → PlacedIn i
      → element_create found i c value ≡ some j
      → PlacedIn j
  unfolding element_create
  element_create-Placed i j c none p e =
      subst PlacedIn (some-injective _ _ e) (rw (grown-values c i.msg.segments) p)
  element_create-Placed i j c (some value) p e =
      element_add-Placed (with_element found i c) j c (nelements (get_elem? i.msg.segments c)) value
        (rw (grown-values c i.msg.segments) p) e

  segment_create-Placed :
      (i j : Making) (tag : Option Bytes)
      → PlacedIn i
      → segment_create found i tag ≡ some j
      → PlacedIn j
  unfolding segment_create
  segment_create-Placed i j tag p e = for_tag tag e
    where
      z :
          interchange_values (i.msg.segments ++ empty_segment ∷ [])
          ≡ interchange_values i.msg.segments
      z = interchange_values-concat i.msg.segments empty_segment ∙ append-nil _

      for_tag : (t : Option Bytes) → segment_create found i t ≡ some j → PlacedIn j
      for_tag none e = subst PlacedIn (some-injective _ _ e) (rw z p)
      for_tag (some t) e =
          element_create-Placed (with_segment found i) j (length i.msg.segments) (some t) (rw z p) e

  -- The interchanges that calls of the functions of this module make, each of them defined.
  pub data IsMade : Making → Type 0 where
    new : IsMade interchange_create
    segment :
        {i j : Making}
        → IsMade i
        → (tag : Option Bytes) → segment_create found i tag ≡ some j
        → IsMade j
    element :
        {i j : Making}
        → IsMade i
        → (c : ℕ) (value : Option Bytes) → element_create found i c value ≡ some j
        → IsMade j
    value :
        {i j : Making}
        → IsMade i
        → (c d : ℕ) (v : Bytes) → element_add found i c d v ≡ some j
        → IsMade j

  -- In every interchange made by hand, by calls in any order none of which goes through the pointer
  -- of an element to a segment that was moved, each pool is within its size, and the
  -- bytes of each value are in one of the pools and apart from those of every other value.
  pub IsMade-Placed :
      {i : Making} → IsMade i → Placed i.msg.pools (interchange_values i.msg.segments)
  IsMade-Placed new = record { bounded = tt; placed = tt; apart = tt }
  IsMade-Placed (segment {i} {j} m tag e) = segment_create-Placed i j tag (IsMade-Placed m) e
  IsMade-Placed (element {i} {j} m c v e) = element_create-Placed i j c v (IsMade-Placed m) e
  IsMade-Placed (value {i} {j} m c d v e) = element_add-Placed i j c d v (IsMade-Placed m) e

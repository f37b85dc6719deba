-- ===== src/Parse/Storage.antt =====
-- Where the values of libedi/parse.c are kept: each in a buffer of its own in the string pools.
use libedi.Base.{
  ℕ, ◌+◌, ◌≤◌, List, [], ◌∷◌, ◌++◌, ◌≡◌, refl, ap, ◌∙◌, sym, arith, All, All-append, All-map,
  length, append-nil, append_assoc,
}
use libedi.Interchange.{Value, Element, untyped, simple, composite, Segment}
use libedi.Pool.{Ref, Pools, stringpool_alloc}
use libedi.Pool.Bounds.{
  IsBounded, Holds, Apart, stringpool_alloc-IsBounded, stringpool_alloc-Holds,
  stringpool_alloc-Holds_old, stringpool_alloc-Apart,
}

abbrev pub element_values : Element → List Value
element_values untyped = []
element_values (simple v) = v ∷ []
element_values (composite vs) = vs

abbrev pub values_in : List Element → List Value
values_in [] = []
values_in (e ∷ es) = element_values e ++ values_in es

abbrev pub interchange_values : List Segment → List Value
interchange_values [] = []
interchange_values (s ∷ ss) = values_in s.elements ++ interchange_values ss

-- The bytes of the value and its NUL are in the used part of a pool, and its length is that of
-- its text.
abbrev pub IsKept : Pools → Value → Type 0
IsKept ps v = Holds ps v.at (v.len + 1) × (v.len ≡ length v.text)

-- The bytes of two values, each with its NUL, share no byte.
abbrev pub AreApart : Value → Value → Type 0
AreApart v w = Apart v.at (v.len + 1) w.at (w.len + 1)

abbrev pub AllApart : List Value → Type 0
AllApart [] = Unit
AllApart (v ∷ vs) = All (AreApart v) vs × AllApart vs

-- Pools within their sizes, and values kept in them, no two of which share a byte.
pub record Stored (ps : Pools) (vs : List Value) : Type 0 where
  pub bounded : IsBounded ps
  pub kept : All (IsKept ps) vs
  pub apart : AllApart vs

Holds-shorter : (ps : Pools) (r : Ref) (n m : ℕ) → m ≤ n → Holds ps r n → Holds ps r m
Holds-shorter [] r n m le h = h
Holds-shorter (p ∷ ps) r n m le h = ground (arith, Holds-shorter ps r n m le)

AllApart-concat :
    (vs : List Value) (v : Value)
    → AllApart vs
    → All (λ w. AreApart w v) vs
    → AllApart (vs ++ v ∷ [])
AllApart-concat [] v h k = (tt, tt)
AllApart-concat (w ∷ vs) v h k =
    (All-append (AreApart w) vs (v ∷ []) h.0 (k.0, tt), AllApart-concat vs v h.1 k.1)

-- A value that fits into the buffer just allocated joins those that are stored.
pub Stored-alloc :
    (ps : Pools) (vs : List Value) (n : ℕ) (v : Value)
    → Stored ps vs
    → v.at ≡ (stringpool_alloc ps n).1
    → v.len + 1 ≤ n
    → v.len ≡ length v.text
    → Stored (stringpool_alloc ps n).0 (vs ++ v ∷ [])
Stored-alloc ps vs n v s e fits len =
    let old : (w : Value) → IsKept ps w → IsKept (stringpool_alloc ps n).0 w =
      λ w k. (stringpool_alloc-Holds_old ps n w.at (w.len + 1) k.0, k.1) in
    let new : IsKept (stringpool_alloc ps n).0 v =
      (rw e (Holds-shorter _ _ n (v.len + 1) fits (stringpool_alloc-Holds ps n)), len) in
    let far : (w : Value) → IsKept ps w → AreApart w v =
      λ w k same. shorter_apart w (stringpool_alloc-Apart ps n w.at (w.len + 1) k.0) same in
    record {
      bounded = stringpool_alloc-IsBounded ps n s.bounded;
      kept =
          All-append (IsKept _) vs (v ∷ []) (All-map (IsKept ps) (IsKept _) vs old s.kept)
            (new, tt);
      apart = AllApart-concat vs v s.apart (All-map (IsKept ps) (λ w. AreApart w v) vs far s.kept);
    }
  where
    shorter_apart : (w : Value) → Apart w.at (w.len + 1) (stringpool_alloc ps n).1 n → AreApart w v
    shorter_apart w a same = ground (arith, a (same ∙ ap (λ r. r.pool) e), ap (λ r. r.offset) e)

pub values_in-append : (es fs : List Element) → values_in (es ++ fs) ≡ values_in es ++ values_in fs
values_in-append [] fs = refl
values_in-append (e ∷ es) fs =
    ap (λ t. element_values e ++ t) (values_in-append es fs)
    ∙ sym (append_assoc (element_values e) (values_in es) (values_in fs))

pub values_in-concat :
    (es : List Element) (e : Element) → values_in (es ++ e ∷ []) ≡ values_in es ++ element_values e
values_in-concat es e =
    values_in-append es (e ∷ []) ∙ ap (λ t. values_in es ++ t) (append-nil (element_values e))

pub interchange_values-concat :
    (ss : List Segment) (s : Segment)
    → interchange_values (ss ++ s ∷ []) ≡ interchange_values ss ++ values_in s.elements
interchange_values-concat [] s = append-nil (values_in s.elements)
interchange_values-concat (t ∷ ss) s =
    ap (λ x. values_in t.elements ++ x) (interchange_values-concat ss s)
    ∙ sym (append_assoc (values_in t.elements) (interchange_values ss) (values_in s.elements))

-- ===== src/Create/Placed.antt =====
-- Values that are placed in the string pools of libedi/stringpool.c with no room for a NUL, as
-- `edi_element_add` of libedi/build.c asks for them.
use libedi.Base.{
  ℕ, List, [], ◌∷◌, ◌++◌, ◌≡◌, sym, arith, All, All-append, All-append_left, All-append_right,
  All-map,
}
use libedi.Interchange.{Value}
use libedi.Pool.{Pools, stringpool_alloc}
use libedi.Pool.Bounds.{
  IsBounded, Holds, Apart, stringpool_alloc-IsBounded, stringpool_alloc-Holds,
  stringpool_alloc-Holds_old, stringpool_alloc-Apart,
}

abbrev pub IsPlaced : Pools → Value → Type 0
IsPlaced ps v = Holds ps v.at v.len

abbrev pub AreApart : Value → Value → Type 0
AreApart v w = Apart v.at v.len w.at w.len

abbrev pub AllApart : List Value → Type 0
AllApart [] = Unit
AllApart (v ∷ vs) = All (AreApart v) vs × AllApart vs

-- Pools within their sizes, and the bytes of each value in one of them, apart from those of every
-- other value. There need be no room for a NUL.
pub record Placed (ps : Pools) (vs : List Value) : Type 0 where
  pub bounded : IsBounded ps
  pub placed : All (IsPlaced ps) vs
  pub apart : AllApart vs

AreApart-sym : (v w : Value) → AreApart v w → AreApart w v
AreApart-sym v w h e = ground (arith, h (sym e))

AllApart-insert :
    (v : Value) (xs ys : List Value)
    → All (λ w. AreApart w v) (xs ++ ys)
    → AllApart (xs ++ ys)
    → AllApart (xs ++ v ∷ ys)
AllApart-insert v [] ys h k =
    (All-map (λ w. AreApart w v) (AreApart v) ys (λ w. AreApart-sym w v) h, k)
AllApart-insert v (x ∷ xs) ys h k = (
  All-append (AreApart x) xs (v ∷ ys) (All-append_left (AreApart x) xs ys k.0)
      (h.0, All-append_right (AreApart x) xs ys k.0),
  AllApart-insert v xs ys h.1 k.1,
)

-- A value in a buffer just allocated joins the others, at any place.
pub Placed-insert :
    (ps : Pools) (n : ℕ) (v : Value) (xs ys : List Value)
    → v.at ≡ (stringpool_alloc ps n).1
    → v.len ≡ n
    → Placed ps (xs ++ ys)
    → Placed (stringpool_alloc ps n).0 (xs ++ v ∷ ys)
Placed-insert ps n v xs ys e len p =
    let after = (stringpool_alloc ps n).0 in
    let old : All (IsPlaced after) (xs ++ ys) =
      All-map (IsPlaced ps) (IsPlaced after) (xs ++ ys)
        (λ w h. stringpool_alloc-Holds_old ps n w.at w.len h) p.placed in
    let new : IsPlaced after v = rw (e, len) (stringpool_alloc-Holds ps n) in
    let far : (w : Value) → IsPlaced ps w → AreApart w v =
      λ w h. rw (e, len) (stringpool_alloc-Apart ps n w.at w.len h) in
    record {
      bounded = stringpool_alloc-IsBounded ps n p.bounded;
      placed =
          All-append (IsPlaced after) xs (v ∷ ys) (All-append_left (IsPlaced after) xs ys old)
            (new, All-append_right (IsPlaced after) xs ys old);
      apart =
          AllApart-insert v xs ys
            (All-map (IsPlaced ps) (λ w. AreApart w v) (xs ++ ys) far p.placed) p.apart;
    }

-- More room taken keeps what is placed.
pub Placed-alloc :
    (ps : Pools) (n : ℕ) (vs : List Value) → Placed ps vs → Placed (stringpool_alloc ps n).0 vs
Placed-alloc ps n vs p = record {
  bounded = stringpool_alloc-IsBounded ps n p.bounded;
  placed =
      All-map (IsPlaced ps) (IsPlaced (stringpool_alloc ps n).0) vs
        (λ w h. stringpool_alloc-Holds_old ps n w.at w.len h) p.placed;
  apart = p.apart;
}

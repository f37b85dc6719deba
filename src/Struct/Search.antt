-- ===== src/Struct/Search.antt =====
-- The binary searches of libedistruct/lookup.c find the entry with the name, if there is one.
use Prim.Native.Nat.{Ordering}
use libedi.Base.{
  ℕ, zero, suc, ◌+◌, ◌-◌, ◌/◌, ◌≤◌, ◌<◌, List, [], ◌∷◌, ◌≡◌, ◌≢◌, refl, ap, ◌∙◌, sym, arith, some,
  length, get_elem?, ltb, Bool-cases, inl, inr,
}
use native.Mathlib.Decide.{dec_lt}
use libedi.Base.Chars.{Bytes}
use libedi.Struct.Lookup.{
  strcmp, Found, hit, miss, fault, unfinished, probe, search_loop, search_table,
}
use libedi.Struct.Order.{strcmp-eq, strcmp_self, strcmp-gt, strcmp_trans}

get_elem?-lt {ℓ} :
    {A : Type ℓ} (xs : List A) (i : ℕ) → i < length xs → (x : A) × (get_elem? xs i ≡ some x)
get_elem?-lt [] i h = absurd (omega arith)
get_elem?-lt (x ∷ xs) zero h = (x, refl)
get_elem?-lt (x ∷ xs) (suc i) h = get_elem?-lt xs i (omega arith)

lt-ne : (a b : Bytes) → strcmp a b ≡ Ordering.lt → a ≢ b
lt-ne a b h e = let k : strcmp a b ≡ Ordering.eq = rw e (strcmp_self b) in cc

module _ {A : Type 0} (name_of : A → Bytes) (table : List A) where
  -- The names ascend.
  abbrev pub IsSorted : Type 0
  IsSorted =
      (i j : ℕ) (x y : A)
      → i < j
      → get_elem? table i ≡ some x
      → get_elem? table j ≡ some y
      → strcmp (name_of x) (name_of y) ≡ Ordering.lt

  module _ (name : Bytes) where
    -- An entry with the name, or a proof that no entry between `begin` and `end` has it; no read
    -- outside of the table, and an end of the loop.
    abbrev pub Answers : ℕ → ℕ → Found A → Type 0
    Answers begin end (hit x) = (i : ℕ) × (get_elem? table i ≡ some x) × (name ≡ name_of x)
    Answers begin end miss =
        (j : ℕ) (y : A) → begin ≤ j → j < end → get_elem? table j ≡ some y → name ≢ name_of y
    Answers begin end fault = ⊥
    Answers begin end unfinished = ⊥

    module _ (sorted : IsSorted) where
      -- At and behind an entry that is greater than the name, no entry has it.
      above :
          (i j : ℕ) (x y : A)
          → get_elem? table i ≡ some x
          → strcmp name (name_of x) ≡ Ordering.lt
          → i ≤ j
          → get_elem? table j ≡ some y
          → name ≢ name_of y
      above i j x y p c le q = elim (dec_lt i j) [
        | yes h ↦
            lt-ne name (name_of y)
              (strcmp_trans name (name_of x) (name_of y) c (sorted i j x y h p q))
        | no h ↦
            let e : i ≡ j = omega arith in
            let same : some x ≡ some y = sym p ∙ ap (get_elem? table) e ∙ q in
            λ n. lt-ne name (name_of x) c (n ∙ ap name_of (cc same))
      ]

      -- At and before an entry that is less than the name, no entry has it.
      below :
          (i j : ℕ) (x y : A)
          → get_elem? table i ≡ some x
          → strcmp name (name_of x) ≡ Ordering.gt
          → j ≤ i
          → get_elem? table j ≡ some y
          → name ≢ name_of y
      below i j x y p c le q =
          let less = strcmp-gt name (name_of x) c in
          elim (dec_lt j i) [
            | yes h ↦ λ n.
                lt-ne (name_of y) name
                  (strcmp_trans (name_of y) (name_of x) name (sorted j i y x h q p) less) (sym n)
            | no h ↦
                let e : i ≡ j = omega arith in
                let same : some x ≡ some y = sym p ∙ ap (get_elem? table) e ∙ q in
                λ n. lt-ne (name_of x) name less (ap name_of (cc same) ∙ sym n)
          ]

      widen_up :
          (begin cur end : ℕ) (x : A) (r : Found A)
          → get_elem? table cur ≡ some x
          → strcmp name (name_of x) ≡ Ordering.lt
          → Answers begin cur r
          → Answers begin end r
      widen_up begin cur end x (hit y) p c a = a
      widen_up begin cur end x miss p c a = λ j y lo hi q. elim (dec_lt j cur) [
        | yes h ↦ a j y lo h q
        | no h ↦ above cur j x y p c (omega arith) q
      ]
      widen_up begin cur end x fault p c a = a
      widen_up begin cur end x unfinished p c a = a

      widen_down :
          (begin cur end : ℕ) (x : A) (r : Found A)
          → get_elem? table cur ≡ some x
          → strcmp name (name_of x) ≡ Ordering.gt
          → Answers (cur + 1) end r
          → Answers begin end r
      widen_down begin cur end x (hit y) p c a = a
      widen_down begin cur end x miss p c a = λ j y lo hi q. elim (dec_lt cur j) [
        | yes h ↦ a j y (omega arith) hi q
        | no h ↦ below cur j x y p c (omega arith) q
      ]
      widen_down begin cur end x fault p c a = a
      widen_down begin cur end x unfinished p c a = a

      -- The loop, on a range of the table that is not empty, with fuel for its width.
      search_loop-Answers :
          (fuel begin end : ℕ)
          → begin < end
          → end ≤ length table
          → end ≤ begin + fuel
          → Answers begin end (search_loop name_of table name fuel begin end)
      unfolding search_loop
      search_loop-Answers zero begin end h k f = absurd (omega arith)
      search_loop-Answers (suc fuel) begin end h k f =
          let cur = (begin + end) / 2 in
          let (x, p) = get_elem?-lt table cur (omega arith) in
          rw p (
            at x p (strcmp name (name_of x)) refl
              (λ room. search_loop-Answers fuel begin cur room (omega arith) (omega arith))
              (λ room. search_loop-Answers fuel (cur + 1) end room k (omega arith)))
        where
          mid : ℕ
          mid = (begin + end) / 2

          again : ℕ → ℕ → Found A
          again = search_loop name_of table name fuel

          at :
              (x : A)
              → get_elem? table mid ≡ some x
              → (o : Ordering) → strcmp name (name_of x) ≡ o
              → (begin < mid → Answers begin mid (again begin mid))
              → (mid + 1 < end → Answers (mid + 1) end (again (mid + 1) end))
              → Answers begin end (probe name_of table name begin end mid again (some x))
          at x p Ordering.eq c lower upper = rw c (mid, p, strcmp-eq name (name_of x) c)
          at x p Ordering.lt c lower upper = elim (Bool-cases (ltb (mid - begin) 1)) [
            | inl e ↦ rw (c, e) (λ j y lo hi q. above mid j x y p c (ground arith) q)
            | inr e ↦
                rw (c, e) (widen_up begin mid end x (again begin mid) p c (lower (ground arith)))
          ]
          at x p Ordering.gt c lower upper = elim (Bool-cases (ltb (end - (mid + 1)) 1)) [
            | inl e ↦ rw (c, e) (λ j y lo hi q. below mid j x y p c (ground arith) q)
            | inr e ↦
                rw (c, e)
                  (widen_down begin mid end x (again (mid + 1) end) p c (upper (ground arith)))
          ]

-- In a table whose names ascend, a name stands once.
pub IsSorted-unique :
    {A : Type 0} (name_of : A → Bytes) (table : List A) (i j : ℕ) (x y : A)
    → IsSorted name_of table
    → get_elem? table i ≡ some x
    → get_elem? table j ≡ some y
    → name_of x ≡ name_of y
    → x ≡ y
IsSorted-unique name_of table i j x y sorted p q e = elim (dec_lt i j) [
  | yes h ↦ absurd (lt-ne (name_of x) (name_of y) (sorted i j x y h p q) e)
  | no h ↦ elim (dec_lt j i) [
    | yes k ↦ absurd (lt-ne (name_of y) (name_of x) (sorted j i y x k q p) (sym e))
    | no k ↦
        let same : i ≡ j = omega arith in
        let both : some x ≡ some y = sym p ∙ ap (get_elem? table) same ∙ q in cc both
  ]
]

module _ {A : Type 0} (name_of : A → Bytes) (table : List A) (name : Bytes) where
  -- The entry found is in the table and has the name, or the table has no such entry.
  abbrev pub Finds : Found A → Type 0
  Finds (hit x) = (i : ℕ) × (get_elem? table i ≡ some x) × (name ≡ name_of x)
  Finds miss = (j : ℕ) (y : A) → get_elem? table j ≡ some y → name ≢ name_of y
  Finds fault = ⊥
  Finds unfinished = ⊥

  get_elem?-some : (xs : List A) (j : ℕ) (y : A) → get_elem? xs j ≡ some y → j < length xs
  get_elem?-some [] j y h = cc
  get_elem?-some (x ∷ xs) zero y h = omega arith
  get_elem?-some (x ∷ xs) (suc j) y h = omega (arith, get_elem?-some xs j y h)

  whole_table : (r : Found A) → Answers name_of table name 0 (length table) r → Finds r
  whole_table (hit x) a = a
  whole_table miss a = λ j y q. a j y (omega arith) (get_elem?-some table j y q) q
  whole_table fault a = a
  whole_table unfinished a = a

  -- A search of a table that is not empty and whose names ascend ends, reads nothing outside of the
  -- table, and returns the entry with the name, or NULL where no entry has it.
  pub search_table-Finds :
      0 < length table → IsSorted name_of table → Finds (search_table name_of table name)
  unfolding search_table
  search_table-Finds some_entry sorted = whole_table _ (
      search_loop-Answers name_of table name sorted (length table + 1) 0 (length table) some_entry
        (omega arith) (omega arith))

  -- A search of an empty table reads outside of it.
  pub search_table_empty : table ≡ [] → search_table name_of table name ≡ fault
  unfolding search_table
  search_table_empty e = rw e

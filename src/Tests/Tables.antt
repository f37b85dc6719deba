-- ===== src/Tests/Tables.antt =====
-- Searches of libedistruct/lookup.c in small tables.
use Prim.Native.Nat.{Ordering}
use libedi.Base.{ℕ, zero, suc, [], ◌∷◌, ◌≡◌, refl, arith, none, some, get_elem?, some_eq, true}
use libedi.Base.Chars.{Bytes, codes}
use libedi.Struct.Tables.{SegmentInfo, ElementInfo, CompositeInfo, Coded, CodedElements, Structs}
use libedi.Struct.Lookup.{
  strcmp, hit, miss, fault, segment_name, element_name, composite_name, coded_name, coded_el,
  find_segment, find_element, find_composite, find_coded_value,
}
use libedi.Struct.Search.{IsSorted, Finds}
use libedi.Struct.Coded.{IsTable, AreTables, find_by_name, FindsCoded, find_coded_value-FindsCoded}

abbrev seg : Bytes → SegmentInfo
seg n = record { name = n; title = none; title2 = none; function = none; children = [] }

abbrev elem : Bytes → ElementInfo
elem n = record {
  name = n;
  title = none;
  title2 = none;
  function = none;
  format = none;
  is_coded = true;
}

abbrev comp : Bytes → CompositeInfo
comp n = record { name = n; title = none; title2 = none; function = none; children = [] }

abbrev coded : Bytes → Coded
coded n = record { name = n; title = none; title2 = none; function = none }

abbrev structs : Structs
structs = record {
  segs = seg (codes "BGM") ∷ seg (codes "UNB") ∷ [];
  elems = elem (codes "1001") ∷ [];
  comps = comp (codes "C002") ∷ [];
  codes =
      record { el = codes "1001"; vals = coded (codes "1") ∷ [] }
      ∷ record { el = codes "1003"; vals = coded (codes "2") ∷ [] }
      ∷ [];
}

find_runs :
    (find_segment (some structs) (codes "UNB") ≡ hit (seg (codes "UNB")))
    × (find_segment (some structs) (codes "UNA") ≡ miss)
    × (find_coded_value (some structs) (codes "1003") (codes "2") ≡ hit (coded (codes "2")))
    × (find_coded_value none (codes "1003") (codes "2") ≡ fault)
unfolding find_segment find_coded_value
find_runs = (refl, refl, refl, refl)

module _ {A : Type 0} (name_of : A → Bytes) where
  -- Tables of one entry, and of two that ascend.
  pub one_entry : (x : A) → IsTable name_of (x ∷ [])
  one_entry x = record { some_entry = omega arith; sorted = ascends }
    where
      ascends : IsSorted name_of (x ∷ [])
      ascends i zero y z lt p q = elim lt [ ]
      ascends i (suc j) y z lt p q = cc

  pub two_entries :
      (x y : A) → strcmp (name_of x) (name_of y) ≡ Ordering.lt → IsTable name_of (x ∷ y ∷ [])
  two_entries x y h = record { some_entry = omega arith; sorted = ascends }
    where
      ascends : IsSorted name_of (x ∷ y ∷ [])
      ascends i zero u v lt p q = elim lt [ ]
      ascends zero (suc zero) u v lt p q = rw (← (some_eq p), ← (some_eq q)) h
      ascends (suc i) (suc zero) u v lt p q = absurd (omega arith)
      ascends i (suc (suc j)) u v lt p q = cc

tables : AreTables structs
unfolding strcmp
tables = record {
  segs = two_entries segment_name _ _ refl;
  elems = one_entry element_name _;
  comps = one_entry composite_name _;
  codes = two_entries coded_el _ _ refl;
  vals = single;
}
  where
    single :
        (i : ℕ) (t : CodedElements) → get_elem? structs.codes i ≡ some t → IsTable coded_name t.vals
    single zero t p = rw (← (some_eq p)) (one_entry coded_name _)
    single (suc zero) t p = rw (← (some_eq p)) (one_entry coded_name _)
    single (suc (suc i)) t p = cc

find_by_name_example :
    Finds segment_name structs.segs (codes "UNB") (find_segment (some structs) (codes "UNB"))
    × Finds element_name structs.elems (codes "UNB") (find_element (some structs) (codes "UNB"))
    × Finds composite_name structs.comps (codes "UNB") (find_composite (some structs) (codes "UNB"))
find_by_name_example = find_by_name structs tables (codes "UNB")

find_coded_value-FindsCoded_example :
    FindsCoded structs tables
      (codes "1003")
      (codes "2")
      (find_coded_value (some structs) (codes "1003") (codes "2"))
find_coded_value-FindsCoded_example =
    find_coded_value-FindsCoded structs tables (codes "1003") (codes "2")

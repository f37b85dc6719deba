-- ===== src/Struct/Lookup.antt =====
-- The searches of libedistruct/lookup.c.
use Prim.Native.Nat.{compare, Ordering}
use libedi.Base.{
  ℕ, zero, suc, ◌+◌, ◌-◌, ◌/◌, List, [], ◌∷◌, Option, none, some, length, get_elem?, ltb,
  if◌then◌else◌,
}
use libedi.Base.Chars.{Bytes}
use libedi.Struct.Tables.{SegmentInfo, CompositeInfo, ElementInfo, Coded, CodedElements, Structs}

-- The sign of `strcmp`, which compares the bytes as `unsigned char`.
unfoldable pub strcmp : Bytes → Bytes → Ordering
strcmp [] [] = Ordering.eq
strcmp [] (y ∷ b) = Ordering.lt
strcmp (x ∷ a) [] = Ordering.gt
strcmp (x ∷ a) (y ∷ b) = elim (compare x y) [
  | Ordering.lt ↦ Ordering.lt
  | Ordering.eq ↦ strcmp a b
  | Ordering.gt ↦ Ordering.gt
]

-- An entry, NULL, a read outside of the table or through a NULL pointer, or fuel that ran out.
pub data Found {ℓ} (A : Type ℓ) : Type ℓ where
  hit : A → Found A
  miss fault unfinished : Found A

module _ {ℓ} {A : Type ℓ} (name_of : A → Bytes) (table : List A) (name : Bytes) where
  -- The tests on `cmp` and on what is left of the range; `again` is the loop, and `begin` never
  -- exceeds `end`.
  abbrev pub compared : ℕ → ℕ → ℕ → (ℕ → ℕ → Found A) → A → Ordering → Found A
  compared begin end cur again entry Ordering.eq = hit entry
  compared begin end cur again entry Ordering.lt =
      let rest = again begin cur in if ltb (cur - begin) 1 then miss else rest
  compared begin end cur again entry Ordering.gt =
      let rest = again (cur + 1) end in if ltb (end - (cur + 1)) 1 then miss else rest

  -- One round of the loop, at the entry read at `cur`.
  abbrev pub probe : ℕ → ℕ → ℕ → (ℕ → ℕ → Found A) → Option A → Found A
  probe begin end cur again none = fault
  probe begin end cur again (some entry) =
      compared begin end cur again entry (strcmp name (name_of entry))

  -- The loop that the five searches share.
  unfoldable pub search_loop : ℕ → ℕ → ℕ → Found A
  unfolding strcmp
  search_loop zero begin end = unfinished
  search_loop (suc fuel) begin end =
      let cur = (begin + end) / 2 in probe begin end cur (search_loop fuel) (get_elem? table cur)

  unfoldable pub search_table : Found A
  unfolding search_loop
  search_table = search_loop (length table + 1) 0 (length table)

abbrev pub segment_name : SegmentInfo → Bytes
segment_name s = s.name

abbrev pub element_name : ElementInfo → Bytes
element_name e = e.name

abbrev pub composite_name : CompositeInfo → Bytes
composite_name c = c.name

abbrev pub coded_name : Coded → Bytes
coded_name c = c.name

abbrev pub coded_el : CodedElements → Bytes
coded_el c = c.el

-- `edistruct_set_struct`: the new value of `curstruc`.
abbrev pub set_struct : Option Structs → Option Structs
set_struct n = n

abbrev pub find_in {ℓ} : {A : Type ℓ} → Option Structs → (Structs → Found A) → Found A
find_in none find = fault
find_in (some curstruc) find = find curstruc

unfoldable pub find_segment : Option Structs → Bytes → Found SegmentInfo
unfolding search_table
find_segment cur name = find_in cur (λ c. search_table segment_name c.segs name)

unfoldable pub find_element : Option Structs → Bytes → Found ElementInfo
unfolding search_table
find_element cur name = find_in cur (λ c. search_table element_name c.elems name)

unfoldable pub find_composite : Option Structs → Bytes → Found CompositeInfo
unfolding search_table
find_composite cur name = find_in cur (λ c. search_table composite_name c.comps name)

-- `find_actual_value`
unfoldable pub find_actual_value : CodedElements → Bytes → Found Coded
unfolding search_table
find_actual_value tab name = search_table coded_name tab.vals name

abbrev pub in_element : Bytes → Found CodedElements → Found Coded
in_element name (hit tab) = find_actual_value tab name
in_element name miss = miss
in_element name fault = fault
in_element name unfinished = unfinished

unfoldable pub find_coded_value : Option Structs → Bytes → Bytes → Found Coded
unfolding search_table find_actual_value
find_coded_value cur elem name =
    find_in cur (λ c. in_element name (search_table coded_el c.codes elem))

-- ===== src/Struct/Coded.antt =====
-- `find_edistruct_segment` and `find_coded_value` of libedistruct/lookup.c in loaded tables.
use libedi.Base.{ℕ, ◌<◌, List, ◌≡◌, ◌≢◌, ◌∙◌, sym, some, length, get_elem?}
use libedi.Base.Chars.{Bytes}
use libedi.Struct.Tables.{Coded, CodedElements, Structs}
use libedi.Struct.Lookup.{
  Found, hit, miss, fault, unfinished, search_table, segment_name, element_name, composite_name,
  coded_name, coded_el, find_segment, find_element, find_composite, find_actual_value, in_element,
  find_coded_value,
}
use libedi.Struct.Search.{IsSorted, IsSorted-unique, Finds, search_table-Finds}

-- A table that a search may be used on.
pub record IsTable {A : Type 0} (name_of : A → Bytes) (table : List A) : Type 0 where
  pub some_entry : 0 < length table
  pub sorted : IsSorted name_of table

-- Tables that the searches may be used on, the tables of values too.
pub record AreTables (c : Structs) : Type 0 where
  pub segs : IsTable segment_name c.segs
  pub elems : IsTable element_name c.elems
  pub comps : IsTable composite_name c.comps
  pub codes : IsTable coded_el c.codes
  pub vals : (i : ℕ) (t : CodedElements) → get_elem? c.codes i ≡ some t → IsTable coded_name t.vals

module _ (c : Structs) (tables : AreTables c) where
  -- With tables that are sorted by name and not empty, the searches for segments, elements and
  -- composites each return the entry with the name, or NULL where the table has none.
  pub find_by_name :
      (name : Bytes)
      → Finds segment_name c.segs name (find_segment (some c) name)
        × Finds element_name c.elems name (find_element (some c) name)
        × Finds composite_name c.comps name (find_composite (some c) name)
  unfolding find_segment find_element find_composite
  find_by_name name = (
    search_table-Finds segment_name c.segs name tables.segs.some_entry tables.segs.sorted,
    search_table-Finds element_name c.elems name tables.elems.some_entry tables.elems.sorted,
    search_table-Finds composite_name c.comps name tables.comps.some_entry tables.comps.sorted,
  )

  module _ (elem name : Bytes) where
    -- A value of the element with the name, or none.
    abbrev pub FindsCoded : Found Coded → Type 0
    FindsCoded (hit x) =
        (i : ℕ) × (t : CodedElements) × (get_elem? c.codes i ≡ some t)
        × (elem ≡ t.el)
        × (j : ℕ) × (get_elem? t.vals j ≡ some x)
        × (name ≡ x.name)
    FindsCoded miss =
        (i : ℕ) (t : CodedElements) (j : ℕ) (x : Coded)
        → get_elem? c.codes i ≡ some t
        → elem ≡ t.el
        → get_elem? t.vals j ≡ some x
        → name ≢ x.name
    FindsCoded fault = ⊥
    FindsCoded unfinished = ⊥

    in_found :
        (i : ℕ) (t : CodedElements)
        → get_elem? c.codes i ≡ some t
        → elem ≡ t.el
        → (r : Found Coded) → Finds coded_name t.vals name r
        → FindsCoded r
    in_found i t p e (hit x) f = (i, t, p, e, f.0, f.1, f.2)
    in_found i t p e miss f = λ k u j x q n.
        let same = IsSorted-unique coded_el c.codes k i u t tables.codes.sorted q p (sym n ∙ e) in
        rw same (f j x)
    in_found i t p e fault f = f
    in_found i t p e unfinished f = f

    in_codes :
        (r : Found CodedElements) → Finds coded_el c.codes elem r → FindsCoded (in_element name r)
    unfolding find_actual_value
    in_codes (hit t) f =
        let vals = tables.vals f.0 t f.1 in
        in_found f.0 t f.1 f.2 _
          (search_table-Finds coded_name t.vals name vals.some_entry vals.sorted)
    in_codes miss f = λ i t j x p e. absurd (f i t p e)
    in_codes fault f = f
    in_codes unfinished f = f

    -- With such tables the search for a coded value returns a value of the element, both with the
    -- names asked for, or NULL where the element has no such value or there is no such element.
    pub find_coded_value-FindsCoded : FindsCoded (find_coded_value (some c) elem name)
    unfolding find_coded_value
    find_coded_value-FindsCoded =
        in_codes (search_table coded_el c.codes elem)
          (search_table-Finds coded_el c.codes elem tables.codes.some_entry tables.codes.sorted)

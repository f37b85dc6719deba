-- ===== src/Detect/Fair.antt =====
-- The blocks that making one entry of the registry in libedi/detect.c allocates and frees.
use libedi.Base.{
  ℕ, ◌+◌, ◌≤◌, List, [], ◌∷◌, ◌++◌, Option, none, some, ◌≡◌, arith, length, ltb, leb, ◌==◌,
  if◌then◌else◌, append-nil, ◌⊎◌, Bool-cases, inl, inr,
}
use libedi.Base.Chars.{Bytes}
use libedi.Params.{Params, Detector}
use libedi.Detect.Registry.{copied}
use libedi.Detect.Heap.{
  Heap, Pointers, OwnedEntry, Registration, alloc, free_blocks, unless_null, strdup, entry_init,
  rp_cleanup, uncleaned, entry_detector, entry_detectors, make_entry, blocks_of,
}

-- How often a block stands in a list.
unfoldable pub count : ℕ → List ℕ → ℕ
count b [] = 0
count b (c ∷ cs) = (if c == b then 1 else 0) + count b cs

pub count-append : (b : ℕ) (cs ds : List ℕ) → count b (cs ++ ds) ≡ count b cs + count b ds
unfolding count
count-append b [] ds = omega arith
count-append b (c ∷ cs) ds = ground (arith, count-append b cs ds)

-- A block stands at most once among the freed ones and those that are pointed to, and a block that
-- was not allocated stands nowhere.
abbrev pub IsFair : Heap → List ℕ → Type 0
IsFair h bs =
    (b : ℕ) → (count b h.freed + count b bs ≤ 1) × (h.next ≤ b → count b h.freed + count b bs ≡ 0)

pub IsFair-fewer :
    (h : Heap) (bs cs : List ℕ) → ((b : ℕ) → count b cs ≤ count b bs) → IsFair h bs → IsFair h cs
IsFair-fewer h bs cs le f b =
    let l = le b in let g = f b in (omega arith, λ n. let z = g.1 n in omega arith)

count_one : (b c : ℕ) → (c ≡ b × count b (c ∷ []) ≡ 1) ⊎ (count b (c ∷ []) ≡ 0)
unfolding count
count_one b c = elim (Bool-cases (c == b)) [
  | inl e ↦ inl (ground arith, rw e (omega arith))
  | inr e ↦ inr (rw e (omega arith))
]

IsFair-alloc : (h : Heap) (bs : List ℕ) → IsFair h bs → IsFair (alloc h) (bs ++ h.next ∷ [])
IsFair-alloc h bs f b =
    let m = count-append b bs (h.next ∷ []) in
    let g = f b in
    elim (count_one b h.next) [
      | inl (e, k) ↦ let z = g.1 (omega arith) in (omega arith, λ x. absurd (omega arith))
      | inr k ↦ (omega arith, λ x. let z = g.1 (omega arith) in omega arith)
    ]

IsFair-free : (h : Heap) (bs cs : List ℕ) → IsFair h (bs ++ cs) → IsFair (free_blocks h bs) cs
IsFair-free h bs cs f b =
    let m = count-append b bs cs in
    let n = count-append b h.freed bs in
    let g = f b in (omega arith, λ x. let z = g.1 x in omega arith)

IsFair-strdup :
    (h : Heap) (s : Option Bytes) (bs : List ℕ)
    → IsFair h bs
    → IsFair ((strdup h s).0) (bs ++ unless_null ((strdup h s).1))
IsFair-strdup h none bs f = rw (append-nil bs) f
IsFair-strdup h (some s) bs f = IsFair-alloc h bs f

IsFair-entry_init :
    (h : Heap) (src : Params) (bs : List ℕ)
    → IsFair h bs
    → IsFair ((entry_init h src).0) (blocks_of (entry_init h src).1.pointers ++ bs)
unfolding entry_init blocks_of count
IsFair-entry_init h src bs f =
    let root = copied (leb 0x0102 src.version) src.xml_root_node in
    let list = copied (leb 0x0102 src.version) src.containers in
    let name = copied (leb 0x0103 src.version) src.ss_name in
    let trailer = copied (leb 0x0103 src.version) src.ss_trailer in
    let h1 = strdup h root in
    let h2 = strdup (h1.0) list in
    let h3 = strdup (h2.0) name in
    let h4 = strdup (h3.0) trailer in
    let f1 = IsFair-strdup h root bs f in
    let f2 = IsFair-strdup (h1.0) list _ f1 in
    let f3 = IsFair-strdup (h2.0) name _ f2 in
    let f4 = IsFair-strdup (h3.0) trailer _ f3 in
    IsFair-fewer _ _ _ (λ b. simp count-append (omega arith)) (IsFair-alloc (h4.0) _ f4)

IsFair-entry_detector :
    (h : Heap) (e : OwnedEntry) (d : Detector) (bs : List ℕ)
    → IsFair h (blocks_of e.pointers ++ bs)
    → IsFair ((entry_detector h e d).0) (blocks_of (entry_detector h e d).1.pointers ++ bs)
unfolding entry_detector blocks_of
IsFair-entry_detector h e d bs f = elim (Bool-cases (ltb e.rp.nalloc (length e.rp.detectors + 1))) [
  | inl k ↦
      let strings = e.pointers.detectstrs in
      let table = e.pointers.table ∷ [] in
      let own =
        strings
        ++ unless_null e.pointers.xml_root_node
        ++ unless_null e.pointers.containers
        ++ unless_null e.pointers.ss_name
        ++ unless_null e.pointers.ss_trailer in
      let f1 =
        IsFair-fewer (alloc h) _ (table ++ (own ++ h.next ∷ []) ++ bs)
          (λ b. simp count-append (omega arith)) (IsFair-alloc h _ f) in
      let f2 = IsFair-free (alloc h) table _ f1 in
      rw k (IsFair-fewer _ _ _ (λ b. simp count-append (omega arith)) (IsFair-alloc _ _ f2))
  | inr k ↦ rw k (IsFair-fewer _ _ _ (λ b. simp count-append (omega arith)) (IsFair-alloc h _ f))
]

IsFair-entry_detectors :
    (ds : List Detector) (h : Heap) (e : OwnedEntry) (bs : List ℕ)
    → IsFair h (blocks_of e.pointers ++ bs)
    → IsFair
        ((entry_detectors (h, e) ds).0)
        (blocks_of (entry_detectors (h, e) ds).1.pointers ++ bs)
unfolding entry_detectors
IsFair-entry_detectors [] h e bs f = f
IsFair-entry_detectors (d ∷ ds) h e bs f =
    IsFair-entry_detectors ds ((entry_detector h e d).0) ((entry_detector h e d).1) bs
      (IsFair-entry_detector h e d bs f)

pub IsFair-make_entry :
    (h : Heap) (name : Bytes) (r : Registration) (bs : List ℕ)
    → IsFair h bs
    → IsFair ((make_entry h name r).0) (blocks_of (make_entry h name r).1.pointers ++ bs)
unfolding make_entry
IsFair-make_entry h name r bs f =
    IsFair-entry_detectors r.detectors _ _ bs (IsFair-entry_init h r.params bs f)

pub IsFair-rp_cleanup :
    (h : Heap) (p : Pointers) (bs : List ℕ)
    → IsFair h (blocks_of p ++ bs)
    → IsFair (free_blocks h (rp_cleanup p)) (uncleaned p ++ bs)
unfolding rp_cleanup blocks_of uncleaned count
IsFair-rp_cleanup h p bs f =
    IsFair-free h (rp_cleanup p) (uncleaned p ++ bs)
      (IsFair-fewer h _ _ (λ b. simp count-append (omega arith)) f)

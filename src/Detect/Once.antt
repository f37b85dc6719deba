-- ===== src/Detect/Once.antt =====
-- Registering in libedi/detect.c frees no block twice, and none that an entry still points to.
use libedi.Base.{
  ℕ, ◌+◌, ◌≤◌, true, false, List, [], ◌∷◌, ◌++◌, Option, none, some, ◌≡◌, refl, ap, sym, ◌∙◌, arith,
  All, take, append-nil, append_assoc, Bool-cases, Option-cases, inl, inr,
}
use mathlib.Core.Option.{some-injective}
use libedi.Base.Chars.{Bytes}
use libedi.Detect.Registry.{has_name, name_max}
use libedi.Detect.Heap.{
  Heap, OwnedEntry, Store, Registration, free_blocks, rp_cleanup, uncleaned, make_entry,
  replace_entry, put_first, put_behind, register_named, register_all, blocks_of, live_blocks,
  empty_store,
}
use libedi.Detect.Fair.{
  count, IsFair, IsFair-fewer, IsFair-make_entry, IsFair-rp_cleanup, count-append,
}

IsFair-replace_entry :
    (h : Heap) (name : Bytes) (r : Registration) (es : List OwnedEntry) (bs : List ℕ) (s : Store)
    → IsFair h (live_blocks es ++ bs)
    → replace_entry h name r es ≡ some s
    → IsFair (s.0) (live_blocks (s.1) ++ bs)
unfolding replace_entry live_blocks
IsFair-replace_entry h name r [] bs s f e = cc
IsFair-replace_entry h name r (x ∷ es) bs s f e = elim (Bool-cases (has_name name x.rp)) [
  | inl k ↦
      let h' = free_blocks h (rp_cleanup x.pointers) in
      let m = make_entry h' [] r in
      let z : s ≡ put_first m es = sym (some-injective _ _ (sym (rw k refl) ∙ e)) in
      let f0 =
        IsFair-rp_cleanup h x.pointers (live_blocks es ++ bs)
          (rw (sym (append_assoc (blocks_of x.pointers) (live_blocks es) bs)) f) in
      let f1 = IsFair-fewer h' _ (live_blocks es ++ bs) (λ b. simp count-append (omega arith)) f0 in
      rw (z, append_assoc (blocks_of m.1.pointers) (live_blocks es) bs)
        (IsFair-make_entry h' [] r (live_blocks es ++ bs) f1)
  | inr k ↦ elim (Option-cases (replace_entry h name r es)) [
    | inl q ↦ absurd (ground arith)
    | inr (t, q) ↦
        let z : s ≡ put_behind x t = ground arith in
        let f1 =
          IsFair-fewer h _ (live_blocks es ++ (blocks_of x.pointers ++ bs))
            (λ b. simp count-append (omega arith)) f in
        let f2 = IsFair-replace_entry h name r es (blocks_of x.pointers ++ bs) t f1 q in
        rw z (IsFair-fewer _ _ _ (λ b. simp count-append (omega arith)) f2)
  ]
]

live_blocks-append :
    (es : List OwnedEntry) (e : OwnedEntry)
    → live_blocks (es ++ e ∷ []) ≡ live_blocks es ++ blocks_of e.pointers
unfolding live_blocks
live_blocks-append [] e = append-nil (blocks_of e.pointers)
live_blocks-append (x ∷ es) e =
    ap (◌++◌ (blocks_of x.pointers)) (live_blocks-append es e)
    ∙ sym (append_assoc (blocks_of x.pointers) (live_blocks es) (blocks_of e.pointers))

IsFair-append_entry :
    (es : List OwnedEntry) (h : Heap) (name : Bytes) (r : Registration) (bs : List ℕ)
    → IsFair h (live_blocks es ++ bs)
    → IsFair ((make_entry h name r).0) (live_blocks (es ++ (make_entry h name r).1 ∷ []) ++ bs)
IsFair-append_entry es h name r bs f = rw (live_blocks-append es ((make_entry h name r).1)) (
    IsFair-fewer _ _ _ (λ b. simp count-append (omega arith))
      (IsFair-make_entry h name r (live_blocks es ++ bs) f))

IsFair-register_named :
    (h : Heap) (es : List OwnedEntry) (name : Option Bytes) (r : Registration) (bs : List ℕ)
    → IsFair h (live_blocks es ++ bs)
    → IsFair
        ((register_named (h, es) name r).0)
        (live_blocks (register_named (h, es) name r).1 ++ bs)
unfolding register_named
IsFair-register_named h es none r bs f = IsFair-append_entry es h [] r bs f
IsFair-register_named h es (some name) r bs f =
    elim (Option-cases (replace_entry h (take name_max name) r es)) [
      | inl q ↦ rw q (IsFair-append_entry es h (take name_max name) r bs f)
      | inr (s, q) ↦ rw q (IsFair-replace_entry h (take name_max name) r es bs s f q)
    ]

IsFair-register_all :
    (rs : List Registration) (s : Store) (bs : List ℕ)
    → IsFair (s.0) (live_blocks (s.1) ++ bs)
    → IsFair ((register_all s rs).0) (live_blocks (register_all s rs).1 ++ bs)
unfolding register_all
IsFair-register_all [] s bs f = f
IsFair-register_all (r ∷ rs) s bs f =
    IsFair-register_all rs (register_named s r.name r) bs
      (IsFair-register_named (s.0) (s.1) r.name r bs f)

IsFair-empty : IsFair (empty_store.0) (live_blocks (empty_store.1) ++ [])
unfolding live_blocks count
IsFair-empty b = (omega arith, λ x. omega arith)

-- Whatever parameters and detectors are registered, under whatever names, no block is freed twice,
-- and none that an entry of the registry points to was freed or is pointed to by another.
pub register_all_once :
    (rs : List Registration) (b : ℕ)
    → count b ((register_all empty_store rs).0.freed)
        + count b (live_blocks (register_all empty_store rs).1)
      ≤ 1
register_all_once rs b =
    let f = IsFair-register_all rs empty_store [] IsFair-empty b in
    let m = count-append b (live_blocks (register_all empty_store rs).1) [] in omega arith

-- What is left of an entry that is replaced stands aside from then on.
IsFair-replaced :
    (h : Heap) (name : Bytes) (r : Registration) (before : List OwnedEntry) (e : OwnedEntry)
    (after : List OwnedEntry) (bs : List ℕ)
    → All (λ x. has_name name x.rp ≡ false) before
    → has_name name e.rp ≡ true
    → IsFair h (live_blocks (before ++ e ∷ after) ++ bs)
    → (s : Store) × (replace_entry h name r (before ++ e ∷ after) ≡ some s)
      × IsFair (s.0) (live_blocks (s.1) ++ (uncleaned e.pointers ++ bs))
unfolding replace_entry live_blocks
IsFair-replaced h name r [] e after bs a k f =
    let h' = free_blocks h (rp_cleanup e.pointers) in
    let f0 =
      IsFair-rp_cleanup h e.pointers (live_blocks after ++ bs)
        (rw (sym (append_assoc (blocks_of e.pointers) (live_blocks after) bs)) f) in
    let f1 = IsFair-make_entry h' [] r (uncleaned e.pointers ++ (live_blocks after ++ bs)) f0 in
    (
      put_first (make_entry h' [] r) after,
      rw k refl,
      IsFair-fewer _ _ _ (λ b. simp count-append (omega arith)) f1,
    )
IsFair-replaced h name r (x ∷ before) e after bs a k f =
    let f1 =
      IsFair-fewer h _ (live_blocks (before ++ e ∷ after) ++ (blocks_of x.pointers ++ bs))
        (λ b. simp count-append (omega arith)) f in
    let (s, q, f2) =
      IsFair-replaced h name r before e after (blocks_of x.pointers ++ bs) (a.1) k f1 in
    (put_behind x s, rw (a.0, q) refl, IsFair-fewer _ _ _ (λ b. simp count-append (omega arith)) f2)

IsFair-named_again :
    (s : Store) (name : Bytes) (r : Registration) (before : List OwnedEntry) (e : OwnedEntry)
    (after : List OwnedEntry)
    → s.1 ≡ before ++ e ∷ after
    → All (λ x. has_name (take name_max name) x.rp ≡ false) before
    → has_name (take name_max name) e.rp ≡ true
    → IsFair (s.0) (live_blocks (s.1) ++ [])
    → IsFair
        ((register_named s (some name) r).0)
        (live_blocks (register_named s (some name) r).1 ++ (uncleaned e.pointers ++ []))
unfolding register_named
IsFair-named_again (h, es) name r before e after z a k f =
    let (t, q, f1) =
      IsFair-replaced h (take name_max name) r before e after [] a k (rw (sym z) f) in
    rw (z, q) f1

-- Where the first 31 bytes of a name are the name of an entry and of none before it, registering it
-- again loses the `ss_name`, the `ss_trailer` and the array of detectors of that entry: whatever is
-- registered afterwards, they are not freed, and no entry points to them.
pub register_named-loses :
    (rs later : List Registration) (name : Bytes) (r : Registration) (before : List OwnedEntry)
    (e : OwnedEntry) (after : List OwnedEntry) (b : ℕ)
    → (register_all empty_store rs).1 ≡ before ++ e ∷ after
    → All (λ x. has_name (take name_max name) x.rp ≡ false) before
    → has_name (take name_max name) e.rp ≡ true
    → 1 ≤ count b (uncleaned e.pointers)
    → let s = register_all (register_named (register_all empty_store rs) (some name) r) later in
      count b (s.0.freed) + count b (live_blocks (s.1)) ≡ 0
unfolding count
register_named-loses rs later name r before e after b z a k lost =
    let s0 = register_all empty_store rs in
    let s1 = register_named s0 (some name) r in
    let s2 = register_all s1 later in
    let f0 = IsFair-register_all rs empty_store [] IsFair-empty in
    let f1 = IsFair-named_again s0 name r before e after z a k f0 in
    let f2 = IsFair-register_all later s1 (uncleaned e.pointers ++ []) f1 b in
    let m = count-append b (live_blocks (s2.1)) (uncleaned e.pointers ++ []) in
    let n = count-append b (uncleaned e.pointers) [] in omega arith

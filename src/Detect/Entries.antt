-- ===== src/Detect/Entries.antt =====
-- The entries in libedi/detect.c with the blocks they point to, and the entries without.
use libedi.Base.{
  List, [], ◌∷◌, ◌++◌, Option, none, some, ◌≡◌, refl, ap, ◌∙◌, sym, take, Bool-cases, Option-cases,
  inl, inr,
}
use libedi.Base.Chars.{Bytes}
use libedi.Params.{Detector}
use libedi.Detect.Registry.{
  Registry, rp_init, name_max, has_name, replace_named, or_append, register_entry,
  register_detectors,
}
use libedi.Detect.Heap.{
  Heap, OwnedEntry, Store, Registration, free_blocks, rp_cleanup, entry_init, entry_detector,
  entry_detectors, make_entry, replace_entry, or_appended, register_named, registry_of,
}

-- The entries, without their pointers.
registry_of-append :
    (es : List OwnedEntry) (e : OwnedEntry)
    → registry_of (es ++ e ∷ []) ≡ registry_of es ++ e.rp ∷ []
unfolding registry_of
registry_of-append [] e = refl
registry_of-append (x ∷ es) e = ap (◌∷◌ x.rp) (registry_of-append es e)

entry_detectors_rp :
    (ds : List Detector) (h : Heap) (e : OwnedEntry)
    → (entry_detectors (h, e) ds).1.rp ≡ register_detectors e.rp ds
unfolding entry_detectors register_detectors
entry_detectors_rp [] h e = refl
entry_detectors_rp (d ∷ ds) h e =
    entry_detectors_rp ds ((entry_detector h e d).0) ((entry_detector h e d).1)

make_entry_rp :
    (h : Heap) (name : Bytes) (r : Registration)
    → (make_entry h name r).1.rp
      ≡ register_detectors (record (rp_init r.params) { name = name }) r.detectors
unfolding make_entry entry_init
make_entry_rp h name r = entry_detectors_rp r.detectors _ _

-- What the registry is after the call: the entries of the store that it leaves.
abbrev entries_of : Option Store → Option Registry
entries_of none = none
entries_of (some s) = some (registry_of (s.1))

replace_entry_rp :
    (h : Heap) (name : Bytes) (r : Registration) (es : List OwnedEntry)
    → entries_of (replace_entry h name r es)
      ≡ replace_named name (register_detectors (rp_init r.params) r.detectors) (registry_of es)
unfolding replace_entry replace_named registry_of rp_init
replace_entry_rp h name r [] = refl
replace_entry_rp h name r (e ∷ es) = elim (Bool-cases (has_name name e.rp)) [
  | inl k ↦ rw k (
      ap (λ x. some (x ∷ registry_of es))
        (make_entry_rp (free_blocks h (rp_cleanup e.pointers)) [] r))
  | inr k ↦ elim (Option-cases (replace_entry h name r es)) [
    | inl q ↦ let ih = sym (replace_entry_rp h name r es) ∙ ap entries_of q in rw (k, q, ih) refl
    | inr (s, q) ↦
        let ih = sym (replace_entry_rp h name r es) ∙ ap entries_of q in rw (k, q, ih) refl
  ]
]

or_appended_rp :
    (es : List OwnedEntry) (he : Heap × OwnedEntry) (o : Option Store)
    → registry_of ((or_appended es he o).1) ≡ or_append (registry_of es) (he.1.rp) (entries_of o)
or_appended_rp es he none = registry_of-append es (he.1)
or_appended_rp es he (some s) = refl

-- Registering parameters and detectors makes of the entries what the model without a heap says.
pub register_named-register_entry :
    (h : Heap) (es : List OwnedEntry) (name : Option Bytes) (r : Registration)
    → registry_of ((register_named (h, es) name r).1)
      ≡ register_entry (registry_of es) name r.params (λ rp. register_detectors rp r.detectors)
unfolding register_named register_entry rp_init
register_named-register_entry h es none r =
    registry_of-append es _ ∙ ap (λ x. registry_of es ++ x ∷ []) (make_entry_rp h [] r)
register_named-register_entry h es (some name) r =
    let tbuf = take name_max name in
    or_appended_rp es (make_entry h tbuf r) (replace_entry h tbuf r es)
    ∙ rw (make_entry_rp h tbuf r, replace_entry_rp h tbuf r es) refl

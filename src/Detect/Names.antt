-- ===== src/Detect/Names.antt =====
-- Registering dialects under names, and finding them again: `edi_params_register`,
-- `edi_detect_get` and `edi_detect_get_params` of libedi/detect.c.
use libedi.Base.{
  ◌≤◌, true, false, [], ◌∷◌, ◌++◌, ◌≡◌, ◌≢◌, refl, ap, ◌∙◌, sym, arith, length, take, take_all,
  none, some, All, Bool-cases, Option-cases, inl, inr,
}
use libedi.Base.Chars.{Bytes, same_text-eq, same_text_self}
use libedi.Params.{Params}
use libedi.Detect.Registry.{
  RegParams, Registry, Library, params_copy, rp_init, name_max, has_name, replace_named, or_append,
  register_entry, register_params, init, params_register, find_named, detect_get, detect_get_params,
}

init-init :
    (l : Library) (r : Registry)
    → init (record (init l) { registry = r }) ≡ record (init l) { registry = r }
unfolding init
init-init l r = ground arith

has_name_self :
    (name : Bytes) (rp : RegParams) → name ≢ [] → rp.name ≡ name → has_name name rp ≡ true
unfolding has_name
has_name_self [] rp ne e = absurd (ne refl)
has_name_self (c ∷ name) rp ne e = rw (e, same_text_self (c ∷ name))

has_name-eq : (name : Bytes) (rp : RegParams) → has_name name rp ≡ true → name ≡ rp.name
unfolding has_name
has_name-eq name rp h = ground (arith, same_text-eq name rp.name)

has_name-ne : (name : Bytes) (rp : RegParams) → name ≢ rp.name → has_name name rp ≡ false
has_name-ne name rp ne = elim (Bool-cases (has_name name rp)) [
  | inl h ↦ absurd (ne (has_name-eq name rp h))
  | inr h ↦ h
]

has_name_none : (name : Bytes) (rp : RegParams) → rp.name ≡ [] → has_name name rp ≡ false
unfolding has_name
has_name_none name rp e = rw e

-- No entry of the registry has the name.
abbrev pub IsFresh : Bytes → Registry → Type 0
IsFresh name = All (λ rp. has_name name rp ≡ false)

-- One entry of the registry has the name.
pub record IsOnly (name : Bytes) (reg : Registry) : Type 0 where
  pub before_entry : Registry
  pub entry : RegParams
  pub after_entry : Registry
  pub split : reg ≡ before_entry ++ entry ∷ after_entry
  pub before_fresh : IsFresh name before_entry
  pub has : has_name name entry ≡ true
  pub after_fresh : IsFresh name after_entry

replace_named_fresh :
    (name : Bytes) (new : RegParams) (reg : Registry)
    → IsFresh name reg
    → replace_named name new reg ≡ none
unfolding replace_named
replace_named_fresh name new [] h = refl
replace_named_fresh name new (rp ∷ reg) h = rw (h.0, replace_named_fresh name new reg h.1)

find_named_fresh : (name : Bytes) (reg : Registry) → IsFresh name reg → find_named name reg ≡ none
unfolding find_named
find_named_fresh name [] h = refl
find_named_fresh name (rp ∷ reg) h = rw (h.0) (find_named_fresh name reg h.1)

find_named_behind :
    (name : Bytes) (reg : Registry) (rest : Registry)
    → IsFresh name reg
    → find_named name (reg ++ rest) ≡ find_named name rest
unfolding find_named
find_named_behind name [] rest h = refl
find_named_behind name (rp ∷ reg) rest h = rw (h.0) (find_named_behind name reg rest h.1)

replace_named_only :
    (name : Bytes) (new : RegParams) (before : Registry) (rp : RegParams) (after : Registry)
    → IsFresh name before
    → has_name name rp ≡ true
    → replace_named name new (before ++ rp ∷ after) ≡ some (before ++ new ∷ after)
unfolding replace_named
replace_named_only name new [] rp after h k = rw k
replace_named_only name new (b ∷ before) rp after h k =
    rw (h.0, replace_named_only name new before rp after h.1 k)

-- The loop finds the same entry for another name, whether an entry is replaced by one without a
-- name or none has the name.
find_named_replaced :
    (other name : Bytes) (new : RegParams) (reg reg' : Registry)
    → new.name ≡ []
    → other ≢ name
    → replace_named name new reg ≡ some reg'
    → find_named other reg' ≡ find_named other reg
unfolding replace_named find_named
find_named_replaced other name new [] reg' e ne h = cc
find_named_replaced other name new (rp ∷ reg) reg' e ne h = elim (Bool-cases (has_name name rp)) [
  | inl k ↦
      let n = has_name-eq name rp k in
      let a = has_name_none other new e in
      let b = has_name-ne other rp (λ x. ne (x ∙ sym n)) in
      let q : reg' ≡ new ∷ reg = ground arith in rw (q, a, b)
  | inr k ↦ elim (Option-cases (replace_named name new reg)) [
    | inl q ↦ absurd (ground arith)
    | inr (tail, q) ↦
        let z : reg' ≡ rp ∷ tail = ground arith in
        rw (z, find_named_replaced other name new reg tail e ne q)
  ]
]

find_named_appended :
    (other : Bytes) (rp : RegParams) (reg : Registry)
    → has_name other rp ≡ false
    → find_named other (reg ++ rp ∷ []) ≡ find_named other reg
unfolding find_named
find_named_appended other rp [] h = rw h
find_named_appended other rp (x ∷ reg) h = rw (find_named_appended other rp reg h)

find_named-or_append :
    (other name : Bytes) (new named : RegParams) (reg : Registry)
    → new.name ≡ []
    → named.name ≡ name
    → other ≢ name
    → find_named other (or_append reg named (replace_named name new reg)) ≡ find_named other reg
find_named-or_append other name new named reg e k ne =
    elim (Option-cases (replace_named name new reg)) [
      | inl q ↦
          rw q (find_named_appended other named reg (has_name-ne other named (λ x. ne (x ∙ k))))
      | inr (reg', q) ↦ rw q (find_named_replaced other name new reg reg' e ne q)
    ]

find_named_cleared :
    (name : Bytes) (before : Registry) (new : RegParams) (after : Registry)
    → new.name ≡ []
    → IsFresh name before
    → IsFresh name after
    → find_named name (before ++ new ∷ after) ≡ none
unfolding find_named
find_named_cleared name before new after e h k =
    find_named_behind name before (new ∷ after) h
    ∙ rw (has_name_none name new e) (find_named_fresh name after k)

rp_init_name : (params : Params) → (rp_init params).name ≡ []
unfolding rp_init
rp_init_name params = refl

module _ (l : Library) (name : Bytes) (params : Params) where
  -- The registry after the call.
  register_fresh :
      IsFresh (take name_max name) (init l).registry
      → (init (params_register l (some name) params)).registry
        ≡ (init l).registry ++ record (rp_init params) { name = take name_max name } ∷ []
  unfolding params_register register_params register_entry
  register_fresh h =
      ap (λ x. x.registry) (init-init l _)
      ∙ ap (or_append (init l).registry _) (replace_named_fresh (take name_max name) _ _ h)

  -- Parameters registered under a name of 1 to 31 bytes that is not in use are found by that name.
  register_get_fresh :
      name ≢ []
      → length name ≤ 31
      → IsFresh name (init l).registry
      → detect_get_params (params_register l (some name) params) name ≡ some (params_copy params)
  unfolding detect_get_params detect_get rp_init find_named
  register_get_fresh ne short fresh =
      let whole = take_all 31 name short in
      let new : RegParams = record (rp_init params) { name = take name_max name } in
      let reg = register_fresh (rw whole fresh) in
      rw (
        reg,
        find_named_behind name (init l).registry (new ∷ []) fresh,
        has_name_self name new ne whole,
      )

  -- Registering a name of 1 to 31 bytes that one entry has leaves no entry with that name, so the
  -- new parameters are not found by it.
  pub register_get_again :
      length name ≤ 31
      → IsOnly name (init l).registry
      → detect_get_params (params_register l (some name) params) name ≡ none
  unfolding detect_get_params detect_get params_register register_params register_entry
  register_get_again short only =
      let whole = take_all 31 name short in
      let replaced =
        replace_named_only name (rp_init params) only.before_entry only.entry only.after_entry
          only.before_fresh only.has in
      let reg : (init (params_register l (some name) params)).registry
          ≡ only.before_entry ++ rp_init params ∷ only.after_entry =
        ap (λ x. x.registry) (init-init l _)
        ∙ ap
            (λ t.
              or_append (init l).registry (record (rp_init params) { name = t })
                (replace_named t (rp_init params) (init l).registry))
            whole
        ∙ ap (or_append (init l).registry _)
            (ap (replace_named name (rp_init params)) only.split ∙ replaced) in
      rw (
        reg,
        find_named_cleared name only.before_entry (rp_init params) only.after_entry
            (rp_init_name params) only.before_fresh only.after_fresh,
      )

  -- Registering a name leaves what is found by every other name as it was.
  register_get_other :
      (other : Bytes)
      → other ≢ take name_max name
      → detect_get (params_register l (some name) params) other ≡ detect_get l other
  unfolding detect_get params_register register_params register_entry
  register_get_other other ne =
      let tbuf = take name_max name in
      let named : RegParams = record (rp_init params) { name = tbuf } in
      ap (λ x. find_named other x.registry) (init-init l _)
      ∙ find_named-or_append other tbuf (rp_init params) named (init l).registry
          (rp_init_name params) refl ne

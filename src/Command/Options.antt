-- ===== src/Command/Options.antt =====
-- What the options of xml/edi2xml.c mean, whatever their order.
use mathlib.Core.Bool.{or_assoc, or-true, or-false}
use libedi.Base.{
  ℕ, Bool, true, false, List, [], ◌∷◌, Option, none, some, ◌≡◌, refl, ap, ◌∙◌, ◌==◌, ==_iff,
  if◌then◌else◌, Bool-cases, inl, inr,
}
use libedi.Base.Chars.{Bytes}
use libedi.Command.Flags.{
  Flags, either, no_flag, flags_of, letter_in, effect, effects, is_known, all_known, last_dir,
}
use libedi.Command.{Opt, Settings, start_settings, comment_option, comment_options, option, options}

-- Settings behind others.
pub record Follows (g : Flags) (dir : Bytes) (s s' : Settings) : Type 0 where
  pub flags : flags_of s' ≡ either (flags_of s) g
  pub errors : s'.opts.comments_errors ≡ s.opts.comments_errors
  pub schema_dir : s'.schema_dir ≡ dir

either_assoc : (a b c : Flags) → either (either a b) c ≡ either a (either b c)
either_assoc a b c = simp (or_assoc)

Follows-trans :
    (g h : Flags) (d e : Bytes) (s t u : Settings)
    → Follows g d s t
    → Follows h e t u
    → Follows (either g h) e s u
Follows-trans g h d e s t u f k = record {
  flags = k.flags ∙ ap (λ a. either a h) f.flags ∙ either_assoc (flags_of s) g h;
  errors = k.errors ∙ f.errors;
  schema_dir = k.schema_dir;
}

unchanged : (s : Settings) → Follows no_flag s.schema_dir s s
unchanged s = record { flags = simp (or-false); errors = refl; schema_dir = refl }

-- The letters of a comment option.
abbrev letters : Bytes → Flags
letters optarg = record {
  segment_names = letter_in b's' optarg;
  element_names = letter_in b'e' optarg;
  coded_values = letter_in b'c' optarg;
  translated = false;
  elements = false;
}

comment_option-Follows :
    (c : ℕ) (s : Settings) → Follows (letters (c ∷ [])) s.schema_dir s (comment_option c s)
unfolding comment_option
comment_option-Follows c s = elim (Bool-cases (c == b's')) [
  | inl e ↦
      rw ((==_iff c b's').0 e)
        (record { flags = simp (or-true, or-false); errors = refl; schema_dir = refl })
  | inr n ↦ elim (Bool-cases (c == b'e')) [
    | inl e ↦
        rw ((==_iff c b'e').0 e)
          (record { flags = simp (or-true, or-false); errors = refl; schema_dir = refl })
    | inr m ↦ elim (Bool-cases (c == b'c')) [
      | inl e ↦
          rw ((==_iff c b'c').0 e)
            (record { flags = simp (or-true, or-false); errors = refl; schema_dir = refl })
      | inr l ↦ rw (n, m, l) (record { flags = simp (or-false); errors = refl; schema_dir = refl })
    ]
  ]
]

comment_options-Follows :
    (optarg : Bytes) (s : Settings)
    → Follows (letters optarg) s.schema_dir s (comment_options optarg s)
unfolding comment_options
comment_options-Follows [] s = unchanged s
comment_options-Follows (c ∷ optarg) s =
    let r =
      Follows-trans _ _ _ _ s (comment_option c s) _ (comment_option-Follows c s)
        (comment_options-Follows optarg (comment_option c s)) in
    let one : either (letters (c ∷ [])) (letters optarg) ≡ letters (c ∷ optarg) = simp (or-false) in
    record {
      flags = r.flags ∙ ap (either (flags_of s)) one;
      errors = r.errors;
      schema_dir = r.schema_dir ∙ (comment_option-Follows c s).schema_dir;
    }

-- What one option comes to.
abbrev After : Opt → Settings → Option Settings → Type 0
After p s none = is_known p ≡ false
After p s (some s') =
    (is_known p ≡ true) × Follows (effect p) (if p.ch == b'S' then p.optarg else s.schema_dir) s s'

module _ (can_open : Bytes → Bool) where
  option-After :
      (ch : ℕ) (optarg : Bytes) (s : Settings)
      → After
          (record { ch = ch; optarg = optarg })
          s
          (option can_open (record { ch = ch; optarg = optarg }) s)
  unfolding option
  option-After ch optarg s = elim (Bool-cases (ch == b'c')) [
    | inl e ↦ rw ((==_iff ch b'c').0 e) (refl, comment_options-Follows optarg s)
    | inr n ↦ elim (Bool-cases (ch == b'e')) [
      | inl e ↦
          rw ((==_iff ch b'e').0 e)
            (refl, record { flags = simp (or-true, or-false); errors = refl; schema_dir = refl })
      | inr m ↦ elim (Bool-cases (ch == b'd')) [
        | inl e ↦
            rw ((==_iff ch b'd').0 e)
              (refl, record { flags = simp (or-true, or-false); errors = refl; schema_dir = refl })
        | inr l ↦ elim (Bool-cases (ch == b'x')) [
          | inl e ↦
              rw ((==_iff ch b'x').0 e)
                (refl, record { flags = simp (or-false); errors = refl; schema_dir = refl })
          | inr k ↦ elim (Bool-cases (ch == b'S')) [
            | inl e ↦
                rw ((==_iff ch b'S').0 e)
                  (refl, record { flags = simp (or-false); errors = refl; schema_dir = refl })
            | inr j ↦
                let unknown : is_known (record { ch = ch; optarg = optarg }) ≡ false =
                  rw (n, m, l, k, j) refl in
                rw (n, m, l, k, j) unknown
          ]
        ]
      ]
    ]
  ]

  -- What the options come to: help, or settings.
  abbrev pub Means : List Opt → Settings → Option Settings → Type 0
  Means ps s none = all_known ps ≡ false
  Means ps s (some s') =
      (all_known ps ≡ true) × Follows (effects ps) (last_dir ps s.schema_dir) s s'

  options-Means : (ps : List Opt) (s : Settings) → Means ps s (options can_open ps s)
  unfolding options
  options-Means [] s = (refl, unchanged s)
  options-Means (p ∷ ps) s =
      by_first (option can_open p s) (option-After p.ch p.optarg s) (options-Means ps)
    where
      by_first :
          (o : Option Settings)
          → After p s o
          → ((t : Settings) → Means ps t (options can_open ps t))
          → Means (p ∷ ps) s (elim o [ none ↦ none | some s' ↦ options can_open ps s' ])
      by_first none a ih = rw a refl
      by_first (some t) (known, f) ih = by_rest (options can_open ps t) (ih t)
        where
          by_rest : (o : Option Settings) → Means ps t o → Means (p ∷ ps) s o
          by_rest none b = rw (known, b) refl
          by_rest (some u) (all, k) =
              (rw (known, all) refl, rw (← f.schema_dir) (Follows-trans _ _ _ _ s t u f k))

  -- The command goes on from its options just if each of them is c, d, e, x or S. Then, whatever their
  -- order, each kind of comment is on just if its letter is among those of an option c, coded values
  -- are translated just if there is an option d or e, into elements just if there is an option e,
  -- errors are written as comments, and the directory is that of the last option S, if there is one.
  pub options_start-Means :
      (size_is_int : Bool) (datadir : Bytes) (ps : List Opt)
      → Means ps
          (start_settings size_is_int datadir)
          (options can_open ps (start_settings size_is_int datadir))
  options_start-Means size_is_int datadir ps = options-Means ps (start_settings size_is_int datadir)

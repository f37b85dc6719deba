-- ===== src/RoundTrip/Newlines.antt =====
-- The newlines that libedi/parse.c skips before a segment: the written form of a segment starts
-- with none, if its first value does not.
use libedi.Base.{
  ℕ, true, List, [], ◌∷◌, ◌++◌, ◌≡◌, ◌≢◌, refl, arith, inl, inr, Bool-cases, append_assoc,
}
use libedi.Base.Chars.{Bytes}
use libedi.Params.{Params}
use libedi.Interchange.{Field, one, many}
use libedi.Parse.Segments.{skip_newlines}
use libedi.Build.Buffer.{needs_escape}
use libedi.Format.{escaped, encode_values, encode_field, encode_fields}
use libedi.RoundTrip.Dialect.{IsDialect, IsSeparator}

abbrev pub NoNewline : ℕ → Type 0
NoNewline c = (c ≢ 0x0D) × (c ≢ 0x0A)

-- A text that starts with no newline, or is empty.
abbrev pub StartsPlain : Bytes → Type 0
StartsPlain [] = Unit
StartsPlain (c ∷ m) = NoNewline c

-- The first value of a segment.
abbrev pub first_value : List Bytes → Bytes
first_value [] = []
first_value (v ∷ vs) = v

abbrev pub first_of : Field → Bytes
first_of (one v) = v
first_of (many vs) = first_value vs

abbrev pub first_text : List Field → Bytes
first_text [] = []
first_text (f ∷ fs) = first_of f

pub skip_newlines_none : (m : Bytes) → StartsPlain m → skip_newlines m ≡ m
unfolding skip_newlines
skip_newlines_none [] h = refl
skip_newlines_none (c ∷ m) h = ground (arith, h)

separator-NoNewline : {c : ℕ} → IsSeparator c → NoNewline c
separator-NoNewline s = (s.not_cr, s.not_lf)

module _ {params : Params} (d : IsDialect params) where
  escaped-StartsPlain :
      (v : Bytes) (c : ℕ) (m : Bytes)
      → StartsPlain v
      → NoNewline c
      → StartsPlain (escaped params v ++ c ∷ m)
  escaped-StartsPlain [] c m h k = k
  escaped-StartsPlain (x ∷ v) c m h k = elim (Bool-cases (needs_escape params x)) [
    | inl special ↦ rw special (d.esc_not_cr, d.esc_not_lf)
    | inr plain ↦ rw plain h
  ]

  values-StartsPlain :
      (vs : List Bytes) (c : ℕ) (m : Bytes)
      → StartsPlain (first_value vs)
      → NoNewline c
      → StartsPlain (encode_values params vs ++ c ∷ m)
  values-StartsPlain [] c m h k = k
  values-StartsPlain (v ∷ []) c m h k = escaped-StartsPlain v c m h k
  values-StartsPlain (v ∷ w ∷ vs) c m h k =
      rw append_assoc (escaped-StartsPlain v _ _ h (separator-NoNewline d.sub))

  field-StartsPlain :
      (f : Field) (c : ℕ) (m : Bytes)
      → StartsPlain (first_of f)
      → NoNewline c
      → StartsPlain (encode_field params f ++ c ∷ m)
  field-StartsPlain (one v) c m h k = escaped-StartsPlain v c m h k
  field-StartsPlain (many vs) c m h k = values-StartsPlain vs c m h k

  pub fields-StartsPlain :
      (fs : List Field) (m : Bytes)
      → StartsPlain (first_text fs)
      → StartsPlain (encode_fields params true fs ++ params.segment_separator ∷ m)
  fields-StartsPlain [] m h = separator-NoNewline d.seg
  fields-StartsPlain (f ∷ []) m h = field-StartsPlain f _ m h (separator-NoNewline d.seg)
  fields-StartsPlain (f ∷ g ∷ fs) m h =
      rw append_assoc (field-StartsPlain f _ _ h (separator-NoNewline d.tag))

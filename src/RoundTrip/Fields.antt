-- ===== src/RoundTrip/Fields.antt =====
-- Fields that survive being written, and the steps of the element loop of libedi/parse.c at one.
use libedi.Base.{
  ℕ, Bool, true, false, not, List, [], ◌∷◌, ◌++◌, ◌≡◌, ◌≢◌, refl, ap, ◌∙◌, sym, arith, All,
  Bool-cases, ◌⊎◌, inl, inr, is_nil, length, some, map, ◌<◌,
}
use libedi.Base.Chars.{Bytes, char_is, char_is_self, char_is-ne}
use libedi.Params.{Params}
use libedi.Interchange.{Value, Element, untyped, composite, Field, one, many, field_of, value_text}
use libedi.Parse.Scan.{is_escape, ends_value}
use libedi.Parse.Elements.{
  SegState, open_element, read_value, add_value, values_of, elements_of, more_elements,
  skip_separator,
}
use libedi.Parse.Runs.{Runs, again}
use libedi.Parse.State.{add_value_sub}
use libedi.Build.Buffer.{needs_escape}
use libedi.Format.{escaped}
use libedi.RoundTrip.Dialect.{IsDialect, parser_of, IsWritable, plain_byte}
use libedi.RoundTrip.Values.{read_value-ReadsValue}

-- What the elements read so far say.
abbrev pub shown : SegState → List Field
shown s = map field_of (elements_of s)

pub open_done : (s : SegState) → s.newel ≡ true → (open_element s).done ≡ elements_of s
unfolding open_element
open_done s h = ground arith

pub open_el : (s : SegState) → s.newel ≡ true → (open_element s).el ≡ some untyped
unfolding open_element
open_el s h = ground arith

pub open_newel : (s : SegState) → (open_element s).newel ≡ false
unfolding open_element
open_newel s = ground arith

pub open_same : (s : SegState) → s.newel ≡ false → open_element s ≡ s
unfolding open_element
open_same s h = rw h

module _ (params : Params) where
  -- A value that can be written.
  abbrev pub IsText : Bytes → Type 0
  IsText = All (IsWritable params)

  -- A field that can be written: a composite has two values or more.
  abbrev pub IsField : Field → Type 0
  IsField (one v) = IsText v
  IsField (many vs) = (1 < length vs) × All IsText vs

  -- The byte `c` behind a field ends it.
  pub record IsEnd (first : Bool) (c : ℕ) : Type 0 where
    pub ends : ends_value (parser_of params) first c ≡ true
    pub no_escape : is_escape params.escape c ≡ false
    pub no_sub : char_is c params.subelement_separator ≡ false

  -- A value that is seen in front of `c`: behind nothing, `c` is not the segment separator.
  abbrev pub IsSeen : Bytes → ℕ → Type 0
  IsSeen v c = (v ≢ []) ⊎ (char_is c params.segment_separator ≡ false)

  abbrev pub last_value : List Bytes → Bytes
  last_value [] = []
  last_value (v ∷ []) = v
  last_value (v ∷ w ∷ vs) = last_value (w ∷ vs)

  abbrev pub last_text : Field → Bytes
  last_text (one v) = v
  last_text (many vs) = last_value vs

  -- From `s` the loop comes to a state `at`, whose value is the last one of a field, with the
  -- fields `fs` then read and `c` behind them.
  pub record Reaches (s : SegState) (fs : List Field) (c : ℕ) (m : Bytes) : Type 0 where
    pub at : SegState
    pub runs : (r : SegState) → Runs (parser_of params) at r → Runs (parser_of params) s r
    pub more : more_elements (parser_of params) at.message ≡ true
    pub message_is : (read_value (parser_of params) at).message ≡ c ∷ m
    pub newel_is : (read_value (parser_of params) at).newel ≡ false
    pub shown_is : shown (read_value (parser_of params) at) ≡ fs
    pub some_element : is_nil (elements_of (read_value (parser_of params) at)) ≡ false

pub is_nil-concat {ℓ} : {A : Type ℓ} (xs : List A) (x : A) → is_nil (xs ++ x ∷ []) ≡ false
is_nil-concat [] x = refl
is_nil-concat (y ∷ xs) x = refl

pub elements_known :
    (s : SegState) {es : List Element} {e : Element}
    → s.done ≡ es
    → s.el ≡ some e
    → elements_of s ≡ es ++ e ∷ []
elements_known s h k = rw (h, k)

pub texts-concat :
    (ws : List Value) (x : Value) (v : Bytes) (vs : List Bytes)
    → x.text ≡ v
    → map value_text (ws ++ x ∷ []) ++ vs ≡ map value_text ws ++ v ∷ vs
texts-concat [] x v vs e = ap (λ t. t ∷ vs) e
texts-concat (w ∷ ws) x v vs e = ap (◌∷◌ w.text) (texts-concat ws x v vs e)

pub shown_composite :
    {es es' : List Element} {ts ts' : List Bytes}
    → es ≡ es'
    → ts ≡ ts'
    → map field_of es ++ many ts ∷ [] ≡ map field_of es' ++ many ts' ∷ []
shown_composite h k = rw (h, k)

module _ {params : Params} (d : IsDialect params) where
  -- The loop goes on at a value that is seen.
  pub more_elements-escaped :
      (v : Bytes) (c : ℕ) (m : Bytes)
      → IsText params v
      → IsSeen params v c
      → more_elements (parser_of params) (escaped params v ++ c ∷ m) ≡ true
  unfolding more_elements
  more_elements-escaped [] c m w (inl h) = absurd (h refl)
  more_elements-escaped [] c m w (inr h) = rw h
  more_elements-escaped (x ∷ v) c m w h = elim (Bool-cases (needs_escape params x)) [
    | inl special ↦ rw (special, char_is-ne params.escape params.segment_separator d.esc_seg)
    | inr plain ↦ rw plain (ends_none x (plain_byte params true x w.0 plain).1)
  ]
    where
      ends_none :
          (y : ℕ)
          → ends_value (parser_of params) true y ≡ false
          → not (char_is y params.segment_separator) ≡ true
      ends_none y h = unfold ends_value in ground arith

  pub no_escape : (k : ℕ) → params.escape ≢ k → is_escape params.escape k ≡ false
  unfolding is_escape
  no_escape k h = ground (arith, char_is-ne k params.escape (λ e. h (sym e)))

  sub_ends : (first : Bool) → ends_value (parser_of params) first params.subelement_separator ≡ true
  unfolding ends_value
  sub_ends first = rw (char_is_self params.subelement_separator d.sub.small)

  sub-IsSeen : (v : Bytes) → IsSeen params v params.subelement_separator
  sub-IsSeen v =
      inr (char_is-ne params.subelement_separator params.segment_separator (λ e. d.seg_sub (sym e)))

  -- Behind the value of a composite that is not its last one, the loop goes on in the same element.
  skip_sub :
      (t : SegState) (m : Bytes)
      → t.message ≡ params.subelement_separator ∷ m
      → t.newel ≡ false
      → skip_separator (parser_of params) t ≡ record t { newel = false; message = m }
  unfolding skip_separator
  skip_sub t m e h = rw (
    e,
    h,
    char_is-ne params.subelement_separator params.element_separator d.sub_elem,
    char_is-ne params.subelement_separator params.tag_separator d.sub_tag,
  )

  more_at_sub :
      (m : Bytes) → more_elements (parser_of params) (params.subelement_separator ∷ m) ≡ true
  unfolding more_elements
  more_at_sub m =
      rw (char_is-ne params.subelement_separator params.segment_separator (λ e. d.seg_sub (sym e)))

  -- One value of a composite that is not its last one: the loop goes on, in the same element.
  pub record GoesOn (s : SegState) (v rest : Bytes) : Type 0 where
    pub next : SegState
    pub value : Value
    pub value_text : value.text ≡ v
    pub next_newel : next.newel ≡ false
    pub next_message : next.message ≡ rest
    pub next_done : next.done ≡ (open_element s).done
    pub next_el : next.el ≡ some (composite (values_of (open_element s).el ++ value ∷ []))
    pub runs : (r : SegState) → Runs (parser_of params) next r → Runs (parser_of params) s r

  pub goes_on :
      (s : SegState) (v rest : Bytes)
      → s.message ≡ escaped params v ++ params.subelement_separator ∷ rest
      → IsText params v
      → GoesOn s v rest
  goes_on s v rest h w =
      let sub = params.subelement_separator in
      let r =
        read_value-ReadsValue d s v sub rest h w (no_escape sub d.esc_sub)
          (sub_ends (is_nil (open_element s).done)) in
      let q = read_value (parser_of params) s in
      let q' : SegState = record q { newel = false; message = rest } in
      let skipped = skip_sub q rest r.message_is (r.newel_is ∙ open_newel s) in
      record {
        next = q';
        value = r.value;
        value_text = r.value_text;
        next_newel = refl;
        next_message = refl;
        next_done = r.done_is;
        next_el =
            r.el_is
            ∙ ap (λ b. some (add_value (open_element s).el b r.value))
                (char_is_self sub d.sub.small)
            ∙ ap some (add_value_sub (open_element s).el r.value);
        runs = λ x run.
            again (rw h (more_elements-escaped v sub rest w (sub-IsSeen v)))
              (ap (more_elements (parser_of params)) r.message_is ∙ more_at_sub rest)
              (rw skipped run);
      }

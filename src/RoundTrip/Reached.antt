-- ===== src/RoundTrip/Reached.antt =====
-- One element: what the element loop of libedi/parse.c does at the written form of a field.
use libedi.Base.{
  ℕ, true, false, List, [], ◌∷◌, ◌++◌, ◌≡◌, ◌≢◌, refl, ap, ◌∙◌, arith, All, is_nil, some, map,
  append_assoc,
}
use mathlib.Core.List.{map-append}
use libedi.Base.Chars.{Bytes, char_is}
use libedi.Params.{Params}
use libedi.Interchange.{Value, simple, composite, Field, one, many, field_of, value_text}
use libedi.Parse.Elements.{SegState, open_element, read_value, add_value, values_of, elements_of}
use libedi.Format.{escaped, encode_values, encode_field}
use libedi.RoundTrip.Dialect.{IsDialect, parser_of}
use libedi.RoundTrip.Fields.{
  shown, open_done, open_el, open_newel, open_same, IsText, IsField, IsEnd, IsSeen, last_value,
  last_text, Reaches, is_nil-concat, elements_known, texts-concat, shown_composite,
  more_elements-escaped, goes_on,
}
use libedi.RoundTrip.Values.{ReadsValue, read_value-ReadsValue}

module _ {params : Params} (d : IsDialect params) where
  composite_el :
      (t : SegState) (ws : List Value) (v : Bytes) (c : ℕ) (m : Bytes)
      → t.newel ≡ false
      → t.el ≡ some (composite ws)
      → (r : ReadsValue d t v c m)
      → (read_value (parser_of params) t).el ≡ some (composite (ws ++ r.value ∷ []))
  composite_el t ws v c m n e r =
      r.el_is
      ∙ ap (λ o. some (add_value o (char_is c params.subelement_separator) r.value))
          (ap (λ u. u.el) (open_same t n) ∙ e)

  composite_read :
      (t : SegState) (ws : List Value) (v : Bytes) (c : ℕ) (m : Bytes)
      → t.newel ≡ false
      → t.el ≡ some (composite ws)
      → (r : ReadsValue d t v c m)
      → elements_of (read_value (parser_of params) t)
        ≡ t.done ++ composite (ws ++ r.value ∷ []) ∷ []
  composite_read t ws v c m n e r =
      elements_known (read_value (parser_of params) t)
        (r.done_is ∙ ap (λ u. u.done) (open_same t n)) (composite_el t ws v c m n e r)

  -- The values of a composite behind the first one.
  values-Reaches :
      (vs : List Bytes) (t : SegState) (ws : List Value) (c : ℕ) (m : Bytes)
      → vs ≢ []
      → t.newel ≡ false
      → t.el ≡ some (composite ws)
      → t.message ≡ encode_values params vs ++ c ∷ m
      → All (IsText params) vs
      → IsEnd params (is_nil t.done) c
      → IsSeen params (last_value params vs) c
      → Reaches params t (map field_of t.done ++ many (map value_text ws ++ vs) ∷ []) c m
  values-Reaches [] t ws c m ne n e h w k seen = absurd (ne refl)
  values-Reaches (v ∷ []) t ws c m ne n e h w k seen =
      let o = open_same t n in
      let r = read_value-ReadsValue d t v c m h w.0 k.no_escape (rw o k.ends) in
      let es = composite_read t ws v c m n e r in
      record {
        at = t;
        runs = λ r h. h;
        more = rw h (more_elements-escaped d v c m w.0 seen);
        message_is = r.message_is;
        newel_is = r.newel_is ∙ open_newel t;
        shown_is =
            ap (map field_of) es
            ∙ map-append field_of t.done (composite (ws ++ r.value ∷ []) ∷ [])
            ∙ rw (map-append value_text ws (r.value ∷ []), r.value_text);
        some_element = rw es (is_nil-concat t.done (composite (ws ++ r.value ∷ [])));
      }
  values-Reaches (v ∷ w ∷ vs) t ws c m ne n e h ok k seen =
      let rest = encode_values params (w ∷ vs) ++ c ∷ m in
      let o = open_same t n in
      let h' = h ∙ append_assoc (escaped params v) (_ ∷ encode_values params (w ∷ vs)) (c ∷ m) in
      let q = goes_on d t v rest h' ok.0 in
      let done : q.next.done ≡ t.done = q.next_done ∙ ap (λ u. u.done) o in
      let el =
        q.next_el
        ∙ ap (λ u. some (composite (values_of u ++ q.value ∷ []))) (ap (λ u. u.el) o ∙ e) in
      let tail =
        values-Reaches (w ∷ vs) q.next (ws ++ q.value ∷ []) c m (λ x. cc) q.next_newel el
          q.next_message ok.1 (rw done k) seen in
      record {
        at = tail.at;
        runs = λ x run. q.runs x (tail.runs x run);
        more = tail.more;
        message_is = tail.message_is;
        newel_is = tail.newel_is;
        shown_is =
            tail.shown_is ∙ shown_composite done (texts-concat ws q.value v (w ∷ vs) q.value_text);
        some_element = tail.some_element;
      }

  -- A whole field.
  pub field-Reaches :
      (f : Field) (s : SegState) (c : ℕ) (m : Bytes)
      → s.newel ≡ true
      → s.message ≡ encode_field params f ++ c ∷ m
      → IsField params f
      → IsEnd params (is_nil (elements_of s)) c
      → IsSeen params (last_text params f) c
      → Reaches params s (shown s ++ f ∷ []) c m
  field-Reaches (one v) s c m n h w k seen =
      let done = open_done s n in
      let r = read_value-ReadsValue d s v c m h w k.no_escape (rw done k.ends) in
      let es = elements_known (read_value (parser_of params) s) (r.done_is ∙ done) (
        r.el_is
        ∙ ap (λ b. some (add_value (open_element s).el b r.value)) k.no_sub
        ∙ ap (λ u. some (add_value u false r.value)) (open_el s n)) in
      record {
        at = s;
        runs = λ r h. h;
        more = rw h (more_elements-escaped d v c m w seen);
        message_is = r.message_is;
        newel_is = r.newel_is ∙ open_newel s;
        shown_is =
            ap (map field_of) es
            ∙ map-append field_of (elements_of s) (simple r.value ∷ [])
            ∙ rw r.value_text;
        some_element = rw es (is_nil-concat (elements_of s) (simple r.value));
      }
  field-Reaches (many []) s c m n h w k seen = absurd (omega arith)
  field-Reaches (many (v ∷ [])) s c m n h w k seen = absurd (omega arith)
  field-Reaches (many (v ∷ u ∷ vs)) s c m n h w k seen =
      let rest = encode_values params (u ∷ vs) ++ c ∷ m in
      let h' = h ∙ append_assoc (escaped params v) (_ ∷ encode_values params (u ∷ vs)) (c ∷ m) in
      let q = goes_on d s v rest h' w.1.0 in
      let done : q.next.done ≡ elements_of s = q.next_done ∙ open_done s n in
      let el = q.next_el ∙ ap (λ u. some (composite (values_of u ++ q.value ∷ []))) (open_el s n) in
      let tail =
        values-Reaches (u ∷ vs) q.next (q.value ∷ []) c m (λ x. cc) q.next_newel el q.next_message
          w.1.1 (rw done k) seen in
      record {
        at = tail.at;
        runs = λ x run. q.runs x (tail.runs x run);
        more = tail.more;
        message_is = tail.message_is;
        newel_is = tail.newel_is;
        shown_is =
            tail.shown_is ∙ shown_composite done (texts-concat [] q.value v (u ∷ vs) q.value_text);
        some_element = tail.some_element;
      }

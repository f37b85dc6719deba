-- ===== src/Build/Cut.antt =====
-- With no interchange header, `edi_interchange_build` of libedi/build.c writes the written form of
-- the message, cut at the size of the buffer.
use libedi.Base.{
  ℕ, ◌≤◌, ◌<◌, Bool, true, false, List, [], ◌∷◌, ◌++◌, none, some, ◌≡◌, sym, ap, ◌∙◌, arith, length,
  take, take_all, take_full, take-take-append, length-take, length-append, Bool-cases, inl, inr,
  if◌then◌else◌, append-nil, append_assoc, map,
}
use libedi.Base.Chars.{Bytes}
use libedi.Params.{Params}
use libedi.Interchange.{
  Value, Element, untyped, simple, composite, Segment, Interchange, value_text, field_of, fields_of,
  content_of,
}
use libedi.Format.{
  escaped_char, escaped, encode_values, encode_field, encode_fields, encode_segment, encode,
}
use libedi.Build.Buffer.{
  Out, start_out, full, put, put_nul, unless_full, needs_escape, add_char, add_chars, addescaped,
}
use libedi.Build.Write.{
  begin_element, write_values, write_typed, write_element, write_elements, end_segment,
  write_segment, write_segments, header_of, interchange_build,
}

-- `o'` is `o` with `xs` written to it, as far as the buffer goes.
abbrev Writes : ℕ → Out → Bytes → Out → Type 0
Writes n o xs o' = o'.text ≡ take n (o.text ++ xs)

module _ (n : ℕ) where
  Writes-le : (o : Out) (xs : Bytes) (o' : Out) → Writes n o xs o' → length o'.text ≤ n
  Writes-le o xs o' w = rw w (omega (arith, length-take n (o.text ++ xs)))

  Writes-nothing : (o : Out) → length o.text ≤ n → Writes n o [] o
  Writes-nothing o h = rw append-nil (sym (take_all n o.text h))

  -- Nothing more is written to a full buffer.
  Writes-full : (o : Out) (xs : Bytes) → length o.text ≤ n → full n o ≡ true → Writes n o xs o
  Writes-full o xs h f = sym (take_full n o.text xs (ground arith) ∙ take_all n o.text h)

  Writes-trans :
      (o o₁ o₂ : Out) (xs ys : Bytes)
      → Writes n o xs o₁
      → Writes n o₁ ys o₂
      → Writes n o (xs ++ ys) o₂
  Writes-trans o o₁ o₂ xs ys a b =
      b
      ∙ ap (λ t. take n (t ++ ys)) a
      ∙ take-take-append n (o.text ++ xs) ys
      ∙ ap (take n) (append_assoc o.text xs ys)

  -- Two steps with the test between them.
  unless_full-Writes :
      (o o₁ : Out) (xs ys : Bytes) (next : Out → Out)
      → Writes n o xs o₁
      → (length o₁.text < n → Writes n o₁ ys (next o₁))
      → Writes n o (xs ++ ys) (unless_full n o₁ next)
  unless_full-Writes o o₁ xs ys next a b = elim (Bool-cases (full n o₁)) [
    | inl f ↦ rw f (Writes-trans o o₁ o₁ xs ys a (Writes-full o₁ ys (Writes-le o xs o₁ a) f))
    | inr f ↦ rw f (Writes-trans o o₁ (next o₁) xs ys a (b (ground arith)))
  ]

  put-Writes : (c : ℕ) (o : Out) → length o.text < n → Writes n o (c ∷ []) (put c o)
  unfolding put
  put-Writes c o h = sym (take_all n _ (omega (arith, length-append o.text (c ∷ []))))

module _ (params : Params) (n : ℕ) where
  add_char-Writes :
      (c : ℕ) (o : Out)
      → length o.text < n
      → Writes n o (escaped_char params c) (add_char params n c o)
  unfolding add_char
  add_char-Writes c o h = elim (Bool-cases (needs_escape params c)) [
    | inr plain ↦ rw plain (put-Writes n c o h)
    | inl special ↦ rw special (
        unless_full-Writes n o (put params.escape o) (params.escape ∷ []) (c ∷ []) (put c)
          (put-Writes n params.escape o h) (put-Writes n c (put params.escape o)))
  ]

  add_chars-Writes :
      (v : Bytes) (o : Out)
      → length o.text ≤ n
      → Writes n o (escaped params v) (add_chars params n v o)
  unfolding add_chars
  add_chars-Writes [] o h = Writes-nothing n o h
  add_chars-Writes (c ∷ v) o h = elim (Bool-cases (full n o)) [
    | inl f ↦ rw f (Writes-full n o (escaped params (c ∷ v)) h f)
    | inr f ↦
        let o₁ = add_char params n c o in
        let cs = escaped_char params c in
        let a = add_char-Writes c o (ground arith) in
        rw f (
          Writes-trans n o o₁ (add_chars params n v o₁) cs (escaped params v) a
            (add_chars-Writes v o₁ (Writes-le n o cs o₁ a)))
  ]

  addescaped-Writes :
      (v : Bytes) (o : Out)
      → length o.text ≤ n
      → Writes n o (escaped params v) (addescaped params n v o)
  unfolding addescaped put_nul
  addescaped-Writes v o h = add_chars-Writes v o h

  write_values-Writes :
      (vs : List Value) (o : Out)
      → length o.text ≤ n
      → Writes n o (encode_values params (map value_text vs)) (write_values params n vs o)
  unfolding write_values
  write_values-Writes [] o h = Writes-nothing n o h
  write_values-Writes (v ∷ []) o h = addescaped-Writes v.text o h
  write_values-Writes (v ∷ w ∷ vs) o h =
      let sep = params.subelement_separator in
      let o₁ = addescaped params n v.text o in
      let o₂ = put sep o₁ in
      let last = λ (q : Out). write_values params n (w ∷ vs) q in
      let next = λ (q : Out). unless_full n (put sep q) last in
      let rest = encode_values params (map value_text (w ∷ vs)) in
      unless_full-Writes n o o₁ (escaped params v.text) (sep ∷ rest) next
        (addescaped-Writes v.text o h)
        λ room.
          unless_full-Writes n o₁ o₂ (sep ∷ []) rest last (put-Writes n sep o₁ room)
            λ more. write_values-Writes (w ∷ vs) o₂ (omega arith)

  write_typed-Writes :
      (e : Element) (o : Out)
      → length o.text ≤ n
      → Writes n o (encode_field params (field_of e)) (write_typed params n e o)
  unfolding write_typed
  write_typed-Writes untyped o h = Writes-nothing n o h
  write_typed-Writes (simple v) o h = addescaped-Writes v.text o h
  write_typed-Writes (composite vs) o h = write_values-Writes vs o h

  write_element-Writes :
      (e : Element) (o : Out)
      → length o.text ≤ n
      → Writes n o (encode_field params (field_of e)) (write_element params n none e o)
  unfolding write_element begin_element
  write_element-Writes e o h =
      unless_full-Writes n o o [] (encode_field params (field_of e)) (write_typed params n e)
        (Writes-nothing n o h) (λ _. write_typed-Writes e o h)

  write_elements-Writes :
      (first : Bool) (es : List Element) (o : Out)
      → length o.text ≤ n
      → Writes n o
          (encode_fields params first (map field_of es))
          (write_elements params n none first es o)
  unfolding write_elements
  write_elements-Writes first [] o h = Writes-nothing n o h
  write_elements-Writes first (e ∷ []) o h = write_element-Writes e o h
  write_elements-Writes first (e ∷ f ∷ es) o h =
      let sep = if first then params.tag_separator else params.element_separator in
      let o₁ = write_element params n none e o in
      let o₂ = put sep o₁ in
      let last = λ (q : Out). write_elements params n none false (f ∷ es) q in
      let next = λ (q : Out). unless_full n (put sep q) last in
      let rest = encode_fields params false (map field_of (f ∷ es)) in
      unless_full-Writes n o o₁ (encode_field params (field_of e)) (sep ∷ rest) next
        (write_element-Writes e o h)
        λ room.
          unless_full-Writes n o₁ o₂ (sep ∷ []) rest last (put-Writes n sep o₁ room)
            λ more. write_elements-Writes false (f ∷ es) o₂ (omega arith)

  write_segment-Writes :
      (s : Segment) (o : Out)
      → length o.text ≤ n
      → Writes n o (encode_segment params (fields_of s)) (write_segment params n none s o)
  unfolding write_segment end_segment
  write_segment-Writes s o h =
      let o₁ = write_elements params n none true s.elements o in
      unless_full-Writes n o o₁ (encode_fields params true (fields_of s))
        (params.segment_separator ∷ []) (put params.segment_separator)
        (write_elements-Writes true s.elements o h) (put-Writes n params.segment_separator o₁)

  write_segments-Writes :
      (ss : List Segment) (o : Out)
      → length o.text ≤ n
      → Writes n o (encode params (map fields_of ss)) (write_segments params n none ss o)
  unfolding write_segments
  write_segments-Writes [] o h = Writes-nothing n o h
  write_segments-Writes (s ∷ ss) o h =
      let o₁ = write_segment params n none s o in
      let a = write_segment-Writes s o h in
      unless_full-Writes n o o₁ (encode_segment params (fields_of s))
        (encode params (map fields_of ss)) (write_segments params n none ss) a
        (λ room. write_segments-Writes ss o₁ (omega arith))

-- With parameters that give no interchange header, the bytes that the call leaves are the written
-- form of the message, cut at `buflen` bytes.
pub interchange_build-encode :
    (msg : Interchange) (params : Params) (buflen : ℕ)
    → header_of params ≡ none
    → (interchange_build msg (some params) buflen).text
      ≡ take buflen (encode params (content_of msg))
unfolding interchange_build put_nul
interchange_build-encode msg params buflen h =
    rw h (write_segments-Writes params buflen msg.segments start_out (omega arith))

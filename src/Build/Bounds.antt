-- ===== src/Build/Bounds.antt =====
-- How far into its buffer `edi_interchange_build` of libedi/build.c writes.
use libedi.Base.{
  ℕ, ◌+◌, ◌≤◌, ◌<◌, Bool, true, false, List, [], ◌∷◌, Option, none, some, ◌≡◌, ap, arith, length,
  length-take, length-append, Bool-cases, inl, inr, if◌then◌else◌, ◌==◌,
}
use libedi.Base.Chars.{Bytes}
use libedi.Params.{Params, or_default}
use libedi.Interchange.{
  Value, Element, untyped, simple, composite, Segment, Interchange, content_of,
}
use libedi.Format.{encode}
use libedi.Build.Buffer.{
  Out, start_out, full, put, put_nul, unless_full, needs_escape, add_char, add_chars, addescaped,
}
use libedi.Build.Header.{drop_last, backspace, directive, dangling, add_format, addhdrtrailer}
use libedi.Build.Write.{
  Header, is_header, dohdrtrailer, write_header, begin_element, write_values, write_typed,
  write_element, write_elements, end_segment, write_segment, write_segments, header_of,
  interchange_build,
}
use libedi.Build.Cut.{interchange_build-encode}

-- The text is at most `n` bytes long, and no byte behind index `n` was written.
pub record Fits (n : ℕ) (o : Out) : Type 0 where
  pub text_fits : length o.text ≤ n
  pub high_fits : o.high ≤ n + 1

drop_last-length : (t : Bytes) → length (drop_last t) ≤ length t
drop_last-length [] = omega arith
drop_last-length (c ∷ []) = omega arith
drop_last-length (c ∷ d ∷ t) = omega (arith, drop_last-length (d ∷ t))

module _ (n : ℕ) where
  put-Fits : (c : ℕ) (o : Out) → Fits n o → length o.text < n → Fits n (put c o)
  unfolding put
  put-Fits c o f h = omega (arith, length-append o.text (c ∷ []))

  put_nul-Fits : (o : Out) → Fits n o → Fits n (put_nul o)
  unfolding put_nul
  put_nul-Fits o f = omega arith

  backspace-Fits : (o : Out) → Fits n o → Fits n (backspace o)
  unfolding backspace
  backspace-Fits o f = omega (arith, drop_last-length o.text)

  if-Fits : (b : Bool) {o q : Out} → Fits n o → Fits n q → Fits n (if b then o else q)
  if-Fits true f g = f
  if-Fits false f g = g

  unless_full-Fits :
      (o : Out) (next : Out → Out)
      → Fits n o
      → (length o.text < n → Fits n (next o))
      → Fits n (unless_full n o next)
  unless_full-Fits o next f g = elim (Bool-cases (full n o)) [
    | inl e ↦ rw e f
    | inr e ↦ rw e (g (ground arith))
  ]

module _ (params : Params) (n : ℕ) where
  add_char-Fits : (c : ℕ) (o : Out) → Fits n o → length o.text < n → Fits n (add_char params n c o)
  unfolding add_char
  add_char-Fits c o f h = elim (Bool-cases (needs_escape params c)) [
    | inr plain ↦ rw plain (put-Fits n c o f h)
    | inl special ↦
        let f₁ = put-Fits n params.escape o f h in
        rw special (unless_full-Fits n (put params.escape o) (put c) f₁ (put-Fits n c _ f₁))
  ]

  add_chars-Fits : (v : Bytes) (o : Out) → Fits n o → Fits n (add_chars params n v o)
  unfolding add_chars
  add_chars-Fits [] o f = f
  add_chars-Fits (c ∷ v) o f = elim (Bool-cases (full n o)) [
    | inl e ↦ rw e f
    | inr e ↦ rw e (add_chars-Fits v (add_char params n c o) (add_char-Fits c o f (ground arith)))
  ]

  addescaped-Fits : (v : Bytes) (o : Out) → Fits n o → Fits n (addescaped params n v o)
  unfolding addescaped
  addescaped-Fits v o f = put_nul-Fits n _ (add_chars-Fits v o f)

  directive-Fits :
      (d : ℕ) (o : Out) → Fits n o → length o.text < n → Fits n (directive params n d o)
  unfolding directive
  directive-Fits d o f h = if-Fits n (d == b'_') (backspace-Fits n o f) (
      if-Fits n (d == b'S') (put-Fits n params.segment_separator o f h) (
        if-Fits n (d == b'E') (put-Fits n params.element_separator o f h) (
          if-Fits n (d == b's') (put-Fits n params.subelement_separator o f h) (
            if-Fits n (d == b'T') (put-Fits n params.tag_separator o f h) (
              if-Fits n (d == b'R') (put-Fits n params.escape o f h) (
                let f₁ = put-Fits n b'%' o f h in
                unless_full-Fits n (put b'%' o) (put d) f₁ (put-Fits n d _ f₁)))))))

  dangling-Fits : (o : Out) → Fits n o → length o.text < n → Fits n (dangling n o)
  unfolding dangling
  dangling-Fits o f h =
      let f₁ = put-Fits n b'%' o f h in
      let next = λ (q : Out). record (put 0 q) { overread = true } in
      unless_full-Fits n (put b'%' o) next f₁ (λ room.
        let f₂ = put-Fits n 0 _ f₁ room in
        record { text_fits = f₂.text_fits; high_fits = f₂.high_fits })

  add_format-Fits : (t : Bytes) (o : Out) → Fits n o → Fits n (add_format params n t o)
  unfolding add_format
  add_format-Fits [] o f = f
  add_format-Fits (c ∷ []) o f = ground (arith, dangling-Fits o f, put-Fits n c o f)
  add_format-Fits (c ∷ d ∷ t) o f = ground (
    arith,
    directive-Fits d o f,
    put-Fits n c o f,
    add_format-Fits t (directive params n d o),
    add_format-Fits (d ∷ t) (put c o),
  )

  addhdrtrailer-Fits : (t : Bytes) (o : Out) → Fits n o → Fits n (addhdrtrailer params n t o)
  unfolding addhdrtrailer
  addhdrtrailer-Fits t o f = put_nul-Fits n _ (add_format-Fits t o f)

  write_header-Fits : (h : Header) (o : Out) → Fits n o → Fits n (write_header params n h o)
  unfolding write_header
  write_header-Fits h o f =
      let f₁ = addescaped-Fits h.hdrname o f in
      unless_full-Fits n _ (addhdrtrailer params n h.hdrtrail) f₁
        (λ _. addhdrtrailer-Fits h.hdrtrail _ f₁)

  begin_element-Fits :
      (hdr : Option Header) (e : Element) (o : Out)
      → Fits n o
      → Fits n (begin_element params n hdr e o)
  unfolding begin_element
  begin_element-Fits (some h) (simple v) o f = elim (Bool-cases (is_header h v)) [
    | inl e ↦ rw e f
    | inr e ↦ rw e (write_header-Fits h o f)
  ]
  begin_element-Fits (some h) (composite (v ∷ vs)) o f = write_header-Fits h o f
  begin_element-Fits _ _ o f = f

  write_values-Fits : (vs : List Value) (o : Out) → Fits n o → Fits n (write_values params n vs o)
  unfolding write_values
  write_values-Fits [] o f = f
  write_values-Fits (v ∷ []) o f = addescaped-Fits v.text o f
  write_values-Fits (v ∷ w ∷ vs) o f =
      let sep = params.subelement_separator in
      let last = λ (q : Out). write_values params n (w ∷ vs) q in
      let next = λ (q : Out). unless_full n (put sep q) last in
      let f₁ = addescaped-Fits v.text o f in
      unless_full-Fits n _ next f₁ λ room.
        let f₂ = put-Fits n sep _ f₁ room in
        unless_full-Fits n _ last f₂ (λ _. write_values-Fits (w ∷ vs) _ f₂)

  write_typed-Fits : (e : Element) (o : Out) → Fits n o → Fits n (write_typed params n e o)
  unfolding write_typed
  write_typed-Fits untyped o f = f
  write_typed-Fits (simple v) o f = addescaped-Fits v.text o f
  write_typed-Fits (composite vs) o f = write_values-Fits vs o f

  write_element-Fits :
      (hdr : Option Header) (e : Element) (o : Out)
      → Fits n o
      → Fits n (write_element params n hdr e o)
  unfolding write_element
  write_element-Fits hdr e o f =
      let f₁ = begin_element-Fits hdr e o f in
      unless_full-Fits n _ (write_typed params n e) f₁ (λ _. write_typed-Fits e _ f₁)

  write_elements-Fits :
      (hdr : Option Header) (first : Bool) (es : List Element) (o : Out)
      → Fits n o
      → Fits n (write_elements params n hdr first es o)
  unfolding write_elements
  write_elements-Fits hdr first [] o f = f
  write_elements-Fits hdr first (e ∷ []) o f = write_element-Fits hdr e o f
  write_elements-Fits hdr first (e ∷ g ∷ es) o f =
      let sep = if first then params.tag_separator else params.element_separator in
      let last = λ (q : Out). write_elements params n none false (g ∷ es) q in
      let next = λ (q : Out). unless_full n (put sep q) last in
      let f₁ = write_element-Fits hdr e o f in
      unless_full-Fits n _ next f₁ λ room.
        let f₂ = put-Fits n sep _ f₁ room in
        unless_full-Fits n _ last f₂ (λ _. write_elements-Fits none false (g ∷ es) _ f₂)

  end_segment-Fits :
      (hdr : Option Header) (es : List Element) (o : Out)
      → Fits n o
      → length o.text < n
      → Fits n (end_segment params n hdr es o)
  unfolding end_segment
  end_segment-Fits none es o f room = put-Fits n params.segment_separator o f room
  end_segment-Fits (some h) es o f room = elim (Bool-cases (dohdrtrailer (some h) es)) [
    | inl e ↦ rw e (addhdrtrailer-Fits h.hdrtrail o f)
    | inr e ↦ rw e (put-Fits n params.segment_separator o f room)
  ]

  write_segment-Fits :
      (hdr : Option Header) (s : Segment) (o : Out)
      → Fits n o
      → Fits n (write_segment params n hdr s o)
  unfolding write_segment
  write_segment-Fits hdr s o f =
      let f₁ = write_elements-Fits hdr true s.elements o f in
      unless_full-Fits n _ (end_segment params n hdr s.elements) f₁
        (end_segment-Fits hdr s.elements _ f₁)

  write_segments-Fits :
      (hdr : Option Header) (ss : List Segment) (o : Out)
      → Fits n o
      → Fits n (write_segments params n hdr ss o)
  unfolding write_segments
  write_segments-Fits hdr [] o f = f
  write_segments-Fits hdr (s ∷ ss) o f =
      let f₁ = write_segment-Fits hdr s o f in
      unless_full-Fits n _ (write_segments params n none ss) f₁
        (λ _. write_segments-Fits none ss _ f₁)

-- Whatever the interchange, the parameters and the header, the length that the call returns is at
-- most `buflen`, and no byte behind index `buflen` is written.
pub interchange_build-Fits :
    (msg : Interchange) (params : Option Params) (buflen : ℕ)
    → Fits buflen (interchange_build msg params buflen)
unfolding interchange_build
interchange_build-Fits msg params n = put_nul-Fits n _ (
    write_segments-Fits (or_default params) n (header_of (or_default params)) msg.segments start_out
      (omega arith))

high_of_text :
    (msg : Interchange) (params : Option Params) (n : ℕ)
    → length (interchange_build msg params n).text < (interchange_build msg params n).high
unfolding interchange_build put_nul
high_of_text msg params n = omega arith

-- Where the written form of the message does not fit with its NUL, and no interchange header is
-- asked for, the byte at index `buflen`, which is behind the end of the buffer, is written.
pub interchange_build_overrun :
    (msg : Interchange) (params : Params) (buflen : ℕ)
    → header_of params ≡ none
    → buflen ≤ length (encode params (content_of msg))
    → (interchange_build msg (some params) buflen).high ≡ buflen + 1
interchange_build_overrun msg params n h long =
    let text = encode params (content_of msg) in
    let e = ap length (interchange_build-encode msg params n h) in
    omega (
      arith,
      e,
      length-take n text,
      high_of_text msg (some params) n,
      (interchange_build-Fits msg (some params) n).high_fits,
    )

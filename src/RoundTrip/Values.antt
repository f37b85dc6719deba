-- ===== src/RoundTrip/Values.antt =====
-- One value, written by `addescaped` of libedi/build.c and read back by the value loop and
-- `memcpyescape` of libedi/parse.c.
use libedi.Base.{
  ℕ, ◌+◌, Bool, true, false, [], ◌∷◌, ◌++◌, ◌≡◌, refl, ap, ◌∙◌, arith, All, Bool-cases, inl, inr,
  is_nil, length, some,
}
use libedi.Base.Chars.{Bytes, char_is}
use libedi.Params.{Params}
use libedi.Interchange.{Parser, Value}
use libedi.Pool.{stringpool_alloc}
use libedi.Parse.Scan.{is_escape, ends_value, before, scan, memcpyescape}
use libedi.Parse.Elements.{SegState, open_element, read_value, add_value}
use libedi.Parse.Runs.{message-open_element}
use libedi.Build.Buffer.{needs_escape}
use libedi.Format.{escaped}
use libedi.RoundTrip.Dialect.{IsDialect, parser_of, IsWritable, plain_byte, is_escape_self}

-- A step over one byte that neither ends the value nor escapes.
scan_plain :
    (p : Parser) (first : Bool) (c : ℕ) (m : Bytes)
    → is_escape p.escape c ≡ false
    → ends_value p first c ≡ false
    → scan p first false (c ∷ m) ≡ before c (scan p first false m)
unfolding scan
scan_plain p first c m e f = rw (e, f)

scan_escape :
    (p : Parser) (first : Bool) (k c : ℕ) (m : Bytes)
    → is_escape p.escape k ≡ true
    → scan p first false (k ∷ c ∷ m) ≡ before k (before c (scan p first false m))
unfolding scan
scan_escape p first k c m e = rw e

scan_end :
    (p : Parser) (first : Bool) (c : ℕ) (m : Bytes)
    → is_escape p.escape c ≡ false
    → ends_value p first c ≡ true
    → scan p first false (c ∷ m) ≡ ([], c ∷ m)
unfolding scan
scan_end p first c m e f = rw (e, f)

memcpyescape_plain :
    (k c : ℕ) (m : Bytes)
    → is_escape k c ≡ false
    → memcpyescape k false (c ∷ m) ≡ c ∷ memcpyescape k false m
unfolding memcpyescape
memcpyescape_plain k c m e = ground arith

memcpyescape_escape :
    (k e c : ℕ) (m : Bytes)
    → is_escape k e ≡ true
    → memcpyescape k false (e ∷ c ∷ m) ≡ c ∷ memcpyescape k false m
unfolding memcpyescape
memcpyescape_escape k e c m h = ground arith

module _ {params : Params} (d : IsDialect params) where
  -- The loop takes the whole value, and stops at the separator behind it.
  pub scan-escaped :
      (first : Bool) (v : Bytes) (c : ℕ) (m : Bytes)
      → All (IsWritable params) v
      → is_escape params.escape c ≡ false
      → ends_value (parser_of params) first c ≡ true
      → scan (parser_of params) first false (escaped params v ++ c ∷ m) ≡ (escaped params v, c ∷ m)
  scan-escaped first [] c m w e f = scan_end (parser_of params) first c m e f
  scan-escaped first (x ∷ v) c m w e f = elim (Bool-cases (needs_escape params x)) [
    | inl special ↦ rw special (
        scan_escape (parser_of params) first params.escape x (escaped params v ++ c ∷ m)
          (is_escape_self d x special)
        ∙ ap (λ t. before params.escape (before x t)) (scan-escaped first v c m w.1 e f))
    | inr plain ↦
        let (a, b) = plain_byte params first x w.0 plain in
        rw plain (
          scan_plain (parser_of params) first x (escaped params v ++ c ∷ m) a b
          ∙ ap (before x) (scan-escaped first v c m w.1 e f))
  ]

  -- Copying takes the escape characters out again.
  pub memcpyescape-escaped :
      (v : Bytes)
      → All (IsWritable params) v
      → memcpyescape params.escape false (escaped params v) ≡ v
  unfolding memcpyescape
  memcpyescape-escaped [] w = refl
  memcpyescape-escaped (x ∷ v) w = elim (Bool-cases (needs_escape params x)) [
    | inl special ↦ rw special (
        memcpyescape_escape params.escape params.escape x (escaped params v)
          (is_escape_self d x special)
        ∙ ap (◌∷◌ x) (memcpyescape-escaped v w.1))
    | inr plain ↦ rw plain (
        memcpyescape_plain params.escape x (escaped params v) (plain_byte params true x w.0 plain).0
        ∙ ap (◌∷◌ x) (memcpyescape-escaped v w.1))
  ]

  -- What the body of the element loop does at a written value with a separator `c` behind it.
  pub record ReadsValue (s : SegState) (v : Bytes) (c : ℕ) (m : Bytes) : Type 0 where
    pub value : Value
    pub value_text : value.text ≡ v
    pub message_is : (read_value (parser_of params) s).message ≡ c ∷ m
    pub done_is : (read_value (parser_of params) s).done ≡ (open_element s).done
    pub newel_is : (read_value (parser_of params) s).newel ≡ (open_element s).newel
    pub el_is :
        (read_value (parser_of params) s).el
        ≡ some (add_value (open_element s).el (char_is c params.subelement_separator) value)

  pub read_value-ReadsValue :
      (s : SegState) (v : Bytes) (c : ℕ) (m : Bytes)
      → s.message ≡ escaped params v ++ c ∷ m
      → All (IsWritable params) v
      → is_escape params.escape c ≡ false
      → ends_value (parser_of params) (is_nil (open_element s).done) c ≡ true
      → ReadsValue s v c m
  unfolding read_value
  read_value-ReadsValue s v c m e w f g =
      let o = open_element s in
      let scanned : scan (parser_of params) (is_nil o.done) false o.message
          ≡ (escaped params v, c ∷ m) =
        ap (scan (parser_of params) (is_nil o.done) false) (message-open_element s ∙ e)
        ∙ scan-escaped (is_nil o.done) v c m w f g in
      record {
        value = record {
          at = (stringpool_alloc o.pools (length (escaped params v) + 1)).1;
          text = memcpyescape params.escape false (escaped params v);
          len = length (memcpyescape params.escape false (escaped params v));
        };
        value_text = memcpyescape-escaped v w;
        message_is = ap (λ t. t.1) scanned;
        done_is = refl;
        newel_is = refl;
        el_is = rw scanned;
      }

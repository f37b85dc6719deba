-- ===== src/RoundTrip/Segments.antt =====
-- One segment: the element loop of libedi/parse.c at the written form of a list of fields.
use libedi.Base.{
  ℕ, Bool, true, false, List, [], ◌∷◌, ◌++◌, ◌≡◌, ◌≢◌, refl, ap, ◌∙◌, sym, arith, All, inl, inr,
  if◌then◌else◌, is_nil, append_assoc,
}
use libedi.Base.Chars.{Bytes, char_is, char_is_self, char_is-ne}
use libedi.Params.{Params}
use libedi.Interchange.{Field}
use libedi.Parse.Scan.{ends_value}
use libedi.Parse.Elements.{SegState, elements_of, read_value, more_elements, skip_separator}
use libedi.Parse.Runs.{Runs, leave, again}
use libedi.Format.{encode_field, encode_fields}
use libedi.RoundTrip.Dialect.{IsDialect, parser_of}
use libedi.RoundTrip.Fields.{shown, IsField, IsEnd, last_text, no_escape}
use libedi.RoundTrip.Reached.{field-Reaches}

module _ (params : Params) where
  -- The separator behind a field of a segment that is not its last one.
  abbrev pub separator : Bool → ℕ
  separator first = if first then params.tag_separator else params.element_separator

  -- The last value of a segment, behind which the parser must see something.
  abbrev pub EndsSeen : List Field → Type 0
  EndsSeen [] = Unit
  EndsSeen (f ∷ []) = last_text params f ≢ []
  EndsSeen (f ∷ g ∷ fs) = EndsSeen (g ∷ fs)

module _ {params : Params} (d : IsDialect params) where
  separator-IsEnd : (first : Bool) → IsEnd params first (separator params first)
  unfolding ends_value
  separator-IsEnd true = record {
    ends = ground (arith, char_is_self params.tag_separator d.tag.small);
    no_escape = no_escape d params.tag_separator d.esc_tag;
    no_sub = char_is-ne params.tag_separator params.subelement_separator (λ e. d.sub_tag (sym e));
  }
  separator-IsEnd false = record {
    ends = ground (arith, char_is_self params.element_separator d.elem.small);
    no_escape = no_escape d params.element_separator d.esc_elem;
    no_sub =
        char_is-ne params.element_separator params.subelement_separator (λ e. d.sub_elem (sym e));
  }

  separator_seg : (first : Bool) → char_is (separator params first) params.segment_separator ≡ false
  separator_seg true = char_is-ne _ _ (λ e. d.seg_tag (sym e))
  separator_seg false = char_is-ne _ _ (λ e. d.seg_elem (sym e))

  seg-IsEnd : (first : Bool) → IsEnd params first params.segment_separator
  unfolding ends_value
  seg-IsEnd first = record {
    ends = ground (arith, char_is_self params.segment_separator d.seg.small);
    no_escape = no_escape d params.segment_separator d.esc_seg;
    no_sub = char_is-ne params.segment_separator params.subelement_separator d.seg_sub;
  }

  pub no_more :
      (m : Bytes) → more_elements (parser_of params) (params.segment_separator ∷ m) ≡ false
  unfolding more_elements
  no_more m = rw (char_is_self params.segment_separator d.seg.small)

  more_at_separator :
      (first : Bool) (m : Bytes)
      → more_elements (parser_of params) (separator params first ∷ m) ≡ true
  unfolding more_elements
  more_at_separator first m = rw (separator_seg first)

  skip_at_separator :
      (first : Bool) (s : SegState) (m : Bytes)
      → s.message ≡ separator params first ∷ m
      → skip_separator (parser_of params) s ≡ record s { newel = true; message = m }
  unfolding skip_separator
  skip_at_separator true s m e =
      rw (e, char_is_self params.tag_separator d.tag.small) (ground arith)
  skip_at_separator false s m e =
      rw (e, char_is_self params.element_separator d.elem.small) (ground arith)

  -- The state in which the element loop ends, with the fields read and the segment separator next.
  pub record Reads (s : SegState) (fs : List Field) (m : Bytes) : Type 0 where
    pub end : SegState
    pub runs : Runs (parser_of params) s end
    pub message_is : end.message ≡ params.segment_separator ∷ m
    pub shown_is : shown end ≡ fs

  -- The loop reads all fields of a segment.
  pub fields-Reads :
      (fs : List Field) (s : SegState) (m : Bytes)
      → fs ≢ []
      → s.newel ≡ true
      → s.message ≡ encode_fields params (is_nil (elements_of s)) fs ++ params.segment_separator ∷ m
      → All (IsField params) fs
      → EndsSeen params fs
      → Reads s (shown s ++ fs) m
  fields-Reads [] s m ne n h w seen = absurd (ne refl)
  fields-Reads (f ∷ []) s m ne n h w seen =
      let k = seg-IsEnd (is_nil (elements_of s)) in
      let r = field-Reaches d f s params.segment_separator m n h w.0 k (inl seen) in
      record {
        end = read_value (parser_of params) r.at;
        runs =
            r.runs _
              (leave r.more (ap (more_elements (parser_of params)) r.message_is ∙ no_more m) refl);
        message_is = r.message_is;
        shown_is = r.shown_is;
      }
  fields-Reads (f ∷ g ∷ fs) s m ne n h w seen =
      let first = is_nil (elements_of s) in
      let sep = separator params first in
      let rest = encode_fields params false (g ∷ fs) ++ params.segment_separator ∷ m in
      let h' =
        h
        ∙ append_assoc (encode_field params f) (sep ∷ encode_fields params false (g ∷ fs))
            (params.segment_separator ∷ m) in
      let r =
        field-Reaches d f s sep rest n h' w.0 (separator-IsEnd first) (inr (separator_seg first)) in
      let q = read_value (parser_of params) r.at in
      let q' : SegState = record q { newel = true; message = rest } in
      let later : q'.message
          ≡ encode_fields params (is_nil (elements_of q')) (g ∷ fs)
            ++ params.segment_separator ∷ m =
        ap (λ b. encode_fields params b (g ∷ fs) ++ params.segment_separator ∷ m)
          (sym r.some_element) in
      let tail = fields-Reads (g ∷ fs) q' m (λ x. cc) refl later w.1 seen in
      record {
        end = tail.end;
        runs = r.runs _ (
            again r.more
              (ap (more_elements (parser_of params)) r.message_is ∙ more_at_separator first rest)
              (rw (skip_at_separator first q rest r.message_is) tail.runs));
        message_is = tail.message_is;
        shown_is =
            tail.shown_is
            ∙ ap (λ t. t ++ g ∷ fs) r.shown_is
            ∙ append_assoc (shown s) (f ∷ []) (g ∷ fs);
      }

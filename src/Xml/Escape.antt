-- ===== src/Xml/Escape.antt =====
-- `escape_xml` of libedixml/output.c: its text, and the size of its block.
use libedi.Base.{
  ℕ, ◌+◌, ◌≤◌, ◌≢◌, [], ◌∷◌, ◌++◌, ◌≡◌, refl, ap, ◌∙◌, sym, arith, length, length-append,
  append-nil, append_assoc, Bool-cases, inl, inr, true, false, ◌⊎◌, ◌==◌, ==_iff, ◌||◌, leb, Bool,
  suc, ◌↔◌,
}
use mathlib.Core.Path.{subst}
use libedi.Base.Chars.{Bytes, codes, same_prefix}
use libedi.Xml.Tokens.{escape_char, extra, escape_loop, escape_xml}

-- The text of all the bytes.
abbrev escaped : Bytes → Bytes
unfolding escape_char
escaped [] = []
escaped (c ∷ src) = escape_char c ++ escaped src

escape_loop-escaped :
    (src : Bytes) (len : ℕ) (r : Bytes) → (escape_loop (len, r) src).1 ≡ r ++ escaped src
unfolding escape_loop escaped
escape_loop-escaped [] len r = sym (append-nil r)
escape_loop-escaped (c ∷ src) len r =
    escape_loop-escaped src (len + extra c) (r ++ escape_char c)
    ∙ append_assoc r (escape_char c) (escaped src)

-- Each byte's text fits into the byte and what the block grows by.
escape_char-length : (c : ℕ) → length (escape_char c) ≤ extra c + 1
unfolding escape_char extra
escape_char-length c = ground arith

-- While the rest of the source has room, the block keeps room.
escape_loop_room :
    (src : Bytes) (len : ℕ) (r : Bytes)
    → length r + length src + 1 ≤ len
    → length (escape_loop (len, r) src).1 + 1 ≤ (escape_loop (len, r) src).0
unfolding escape_loop
escape_loop_room [] len r h = omega arith
escape_loop_room (c ∷ src) len r h =
    escape_loop_room src (len + extra c) (r ++ escape_char c)
      (omega (arith, length-append r (escape_char c), escape_char-length c))

-- The text that `escape_xml` writes fits with its NUL into the block, as grown by the loop.
pub escape_xml_room :
    (src : Bytes) → length (escape_xml src) + 1 ≤ (escape_loop (length src + 1, []) src).0
unfolding escape_xml
escape_xml_room src = escape_loop_room src (length src + 1) [] (omega arith)

-- The bytes that can stand in character data of XML and that a reader leaves as they are: no control
-- character but tab and line feed. The bytes from 128 on are taken to be UTF-8.
abbrev pub is_char : ℕ → Bool
is_char c = c == 9 || c == 10 || leb 32 c

-- What ends a CDATA section, which character data may not contain.
unfoldable pub ends_cdata : Bytes → Bool
unfolding same_prefix
ends_cdata x = same_prefix 3 (codes "]]>") x

-- Character data of XML, and the text that it stands for: with the five predefined entities, and
-- without references to characters by number.
pub data Reads : Bytes → Bytes → Type 0 where
  end : Reads [] []
  less : {x t : Bytes} → Reads x t → Reads (codes "&lt;" ++ x) (b'<' ∷ t)
  ampersand : {x t : Bytes} → Reads x t → Reads (codes "&amp;" ++ x) (b'&' ∷ t)
  greater : {x t : Bytes} → Reads x t → Reads (codes "&gt;" ++ x) (b'>' ∷ t)
  apostrophe : {x t : Bytes} → Reads x t → Reads (codes "&apos;" ++ x) (b'\'' ∷ t)
  quotation : {x t : Bytes} → Reads x t → Reads (codes "&quot;" ++ x) (b'"' ∷ t)
  plain :
      {x t : Bytes} (c : ℕ)
      → c ≢ b'<'
      → c ≢ b'&'
      → is_char c ≡ true
      → ends_cdata (c ∷ x) ≡ false
      → Reads x t
      → Reads (c ∷ x) (c ∷ t)

-- A text that can stand in character data once `<` and `&` are escaped.
abbrev pub IsText : Bytes → Type 0
IsText [] = Unit
IsText (c ∷ t) = (is_char c ≡ true) × (ends_cdata (c ∷ t) ≡ false) × IsText t

-- What is written for a byte, case by case.
escape_char-cases :
    (c : ℕ)
    → ((c ≡ b'<') × (escape_char c ≡ codes "&lt;"))
      ⊎ ((c ≡ b'&') × (escape_char c ≡ codes "&amp;"))
      ⊎ ((c ≢ b'<') × (c ≢ b'&') × (escape_char c ≡ c ∷ []))
unfolding escape_char
escape_char-cases c = elim (Bool-cases (c == b'<')) [
  | inl e ↦ inl ((==_iff c b'<').0 e, rw e refl)
  | inr n ↦ elim (Bool-cases (c == b'&')) [
    | inl e ↦ inr (inl ((==_iff c b'&').0 e, rw (n, e) refl))
    | inr m ↦ inr (inr ((λ e. ground arith), (λ e. ground arith), rw (n, m) refl))
  ]
]

-- Where the byte looked for is neither of the two that are escaped, the escaped text starts with it
-- just if the text does.
same_prefix-escaped :
    (n k : ℕ) (ks : Bytes) (c : ℕ) (s : Bytes)
    → k ≢ b'<'
    → k ≢ b'&'
    → same_prefix n ks (escaped s) ≡ same_prefix n ks s
    → same_prefix (suc n) (k ∷ ks) (escaped (c ∷ s)) ≡ same_prefix (suc n) (k ∷ ks) (c ∷ s)
unfolding same_prefix escaped
same_prefix-escaped n k ks c s l a ih = elim (escape_char-cases c) [
  | inl (e, q) ↦
      let x : (k == b'&') ≡ false = ground arith in
      let y : (k == b'<') ≡ false = ground arith in rw (q, e, x, y) refl
  | inr (inl (e, q)) ↦ let x : (k == b'&') ≡ false = ground arith in rw (q, e, x) refl
  | inr (inr (n, m, q)) ↦ rw (q, ih) refl
]

ends_cdata-escaped : (s : Bytes) → ends_cdata (escaped s) ≡ ends_cdata s
unfolding ends_cdata same_prefix escaped
ends_cdata-escaped s = from_first s
  where
    from_third : (s : Bytes) → same_prefix 1 (codes ">") (escaped s) ≡ same_prefix 1 (codes ">") s
    from_third [] = refl
    from_third (c ∷ s) =
        same_prefix-escaped 0 b'>' [] c s (λ e. absurd (omega arith)) (λ e. absurd (omega arith))
          refl

    from_second :
        (s : Bytes) → same_prefix 2 (codes "]>") (escaped s) ≡ same_prefix 2 (codes "]>") s
    from_second [] = refl
    from_second (c ∷ s) =
        same_prefix-escaped 1 b']' (codes ">") c s (λ e. absurd (omega arith))
          (λ e. absurd (omega arith)) (from_third s)

    from_first :
        (s : Bytes) → same_prefix 3 (codes "]]>") (escaped s) ≡ same_prefix 3 (codes "]]>") s
    from_first [] = refl
    from_first (c ∷ s) =
        same_prefix-escaped 2 b']' (codes "]>") c s (λ e. absurd (omega arith))
          (λ e. absurd (omega arith)) (from_second s)

escaped-Reads : (src : Bytes) → IsText src → Reads (escaped src) src
unfolding escaped
escaped-Reads [] h = end
escaped-Reads (c ∷ src) h =
    let r = escaped-Reads src (h.2) in
    let whole = ends_cdata-escaped (c ∷ src) ∙ h.1 in
    elim (escape_char-cases c) [
      | inl (e, q) ↦ rw (q, e) (less r)
      | inr (inl (e, q)) ↦ rw (q, e) (ampersand r)
      | inr (inr (n, m, q)) ↦
          let k : ends_cdata (c ∷ escaped src) ≡ false =
            ap (λ x. ends_cdata (x ++ escaped src)) (sym q) ∙ whole in
          rw q (plain c n m (h.0) k r)
    ]

-- What character data that starts with a byte, or with an entity, stands for.
plain-inv :
    {c : ℕ} {x t : Bytes}
    → Reads (c ∷ x) t
    → c ≢ b'&'
    → (u : Bytes) × (t ≡ c ∷ u) × (is_char c ≡ true) × (ends_cdata (c ∷ x) ≡ false) × Reads x u
plain-inv (less r) n = absurd (n refl)
plain-inv (ampersand r) n = absurd (n refl)
plain-inv (greater r) n = absurd (n refl)
plain-inv (apostrophe r) n = absurd (n refl)
plain-inv (quotation r) n = absurd (n refl)
plain-inv (plain c l a h k r) n = (_, refl, h, k, r)

less-inv : {x t : Bytes} → Reads (codes "&lt;" ++ x) t → (u : Bytes) × (t ≡ b'<' ∷ u) × Reads x u
less-inv (less r) = (_, refl, r)
less-inv (plain c l a h k r) = absurd (a refl)

ampersand-inv :
    {x t : Bytes} → Reads (codes "&amp;" ++ x) t → (u : Bytes) × (t ≡ b'&' ∷ u) × Reads x u
ampersand-inv (ampersand r) = (_, refl, r)
ampersand-inv (plain c l a h k r) = absurd (a refl)

unended : (c : ℕ) (src : Bytes) (d : ℕ) → c ≡ d → (b']' == d) ≡ false → ends_cdata (c ∷ src) ≡ false
unfolding ends_cdata same_prefix
unended c src d e n = rw (e, n) refl

module _ (c : ℕ) (src : Bytes)
    (only : (t : Bytes) → Reads (escaped src) t → (t ≡ src) × IsText src) where
  -- Before the text of the rest, the text of a byte stands for that byte.
  escape_char-only :
      {t : Bytes} → Reads (escape_char c ++ escaped src) t → (t ≡ c ∷ src) × IsText (c ∷ src)
  unfolding escaped
  escape_char-only {t} r = elim (escape_char-cases c) [
    | inl (e, q) ↦
        let (u, k, r') = less-inv (subst (λ x. Reads (x ++ escaped src) t) q r) in
        let (f, w) = only _ r' in (k ∙ rw (e, f) refl, (rw e refl, unended c src b'<' e refl, w))
    | inr (inl (e, q)) ↦
        let (u, k, r') = ampersand-inv (subst (λ x. Reads (x ++ escaped src) t) q r) in
        let (f, w) = only _ r' in (k ∙ rw (e, f) refl, (rw e refl, unended c src b'&' e refl, w))
    | inr (inr (n, m, q)) ↦
        let (u, k, h, z, r') = plain-inv (subst (λ x. Reads (x ++ escaped src) t) q r) m in
        let (f, w) = only _ r' in
        let g : ends_cdata (c ∷ src) ≡ false =
          sym (ends_cdata-escaped (c ∷ src)) ∙ ap (λ x. ends_cdata (x ++ escaped src)) q ∙ z in
        (k ∙ rw f refl, (h, g, w))
  ]

escaped-only : (src t : Bytes) → Reads (escaped src) t → (t ≡ src) × IsText src
unfolding escaped
escaped-only [] _ end = (refl, tt)
escaped-only (c ∷ src) _ r = escape_char-only c src (escaped-only src) r

escape_xml-escaped : (src : Bytes) → escape_xml src ≡ escaped src
unfolding escape_xml
escape_xml-escaped src = escape_loop-escaped src (length src + 1) []

pub escape_xml-Reads_text : (src : Bytes) → IsText src → Reads (escape_xml src) src
escape_xml-Reads_text src h = rw (escape_xml-escaped src) (escaped-Reads src h)

-- As character data of XML in UTF-8, without references to characters by number, what `escape_xml`
-- writes stands for its argument just if the argument has no control character but tab and line
-- feed, and no `]]>`; and it stands for no other text.
pub escape_xml-Reads :
    (src : Bytes)
    → (Reads (escape_xml src) src ↔ IsText src) × ((t : Bytes) → Reads (escape_xml src) t → t ≡ src)
escape_xml-Reads src =
    let e = escape_xml-escaped src in
    (
      (λ r. (escaped-only src src (subst (λ x. Reads x src) e r)).1, escape_xml-Reads_text src),
      λ t r. (escaped-only src t (subst (λ x. Reads x t) e r)).0,
    )

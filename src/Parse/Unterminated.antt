-- ===== src/Parse/Unterminated.antt =====
-- The element loop of libedi/parse.c at the end of a message: it leaves what it would leave in front of a
-- segment separator.
use libedi.Base.{
  ℕ, Bool, true, false, not, ◌&&◌, [], ◌∷◌, ◌++◌, ◌≡◌, refl, ap, ◌∙◌, sym, arith, length,
  length-append, Bool-cases, ◌⊎◌, inl, inr, is_nil,
}
use mathlib.Core.Path.{subst}
use libedi.Base.Chars.{Bytes, char_is, peek}
use libedi.Interchange.{Parser}
use libedi.Parse.Scan.{is_escape, ends_value, before, scan}
use libedi.Parse.Elements.{
  SegState, open_element, store_value, read_value, more_elements, skip_separator,
}
use libedi.Parse.Runs.{message-open_element, Runs, stop, leave, again}

-- A segment separator that can be told from the other separators, from the escape character and from the
-- NUL at the end.
pub record IsLast (p : Parser) (z : ℕ) : Type 0 where
  pub is_seg : char_is z p.sep_seg ≡ true
  pub no_escape : is_escape p.escape z ≡ false
  pub no_sub : char_is z p.sep_sub ≡ false
  pub nul_no_sub : char_is 0 p.sep_sub ≡ false

module _ {p : Parser} {z : ℕ} (last : IsLast p z) where
  -- A value that ends in front of the separator ends at the end of the message without it.
  record ScanCut (first e : Bool) (m : Bytes) : Type 0 where
    token : Bytes
    rest : Bytes
    whole : scan p first e (m ++ z ∷ []) ≡ (token, rest ++ z ∷ [])
    part : scan p first e m ≡ (token, rest)

  scan_at_last : (first : Bool) → ends_value p first z ≡ true
  unfolding ends_value
  scan_at_last first = ground (arith, last.is_seg)

  scan-ScanCut :
      (first e : Bool) (m : Bytes) → ScanCut first e m ⊎ ((scan p first e (m ++ z ∷ [])).1 ≡ [])
  unfolding scan
  scan-ScanCut first true [] = inr refl
  scan-ScanCut first false [] = inl (record {
    token = [];
    rest = [];
    whole = rw (last.no_escape, scan_at_last first) refl;
    part = refl;
  })
  scan-ScanCut first true (c ∷ m) = elim (scan-ScanCut first false m) [
    | inl k ↦ inl (record {
      token = c ∷ k.token;
      rest = k.rest;
      whole = ap (before c) k.whole;
      part = ap (before c) k.part;
    })
    | inr h ↦ inr h
  ]
  scan-ScanCut first false (c ∷ m) =
      let later = scan-ScanCut first (is_escape p.escape c) m in
      elim (Bool-cases (not (is_escape p.escape c) && ends_value p first c)) [
        | inl e ↦ inl (record { token = []; rest = c ∷ m; whole = rw e refl; part = rw e refl })
        | inr n ↦ elim later [
          | inl k ↦ inl (record {
            token = c ∷ k.token;
            rest = k.rest;
            whole = rw n (ap (before c) k.whole);
            part = rw n (ap (before c) k.part);
          })
          | inr h ↦ inr (rw n h)
        ]
      ]

  abbrev pub cut : SegState → Bytes → SegState
  cut s m = record s { message = m }

  -- A value read in a state `s`, and in the same without the separator at the end; the first also
  -- where an escape character stands in front of the separator.
  record ValueCut (t t' : SegState) : Type 0 where
    rest : Bytes
    whole : t.message ≡ rest ++ z ∷ []
    part : t' ≡ cut t rest

  open_element-cut : (s : SegState) (m : Bytes) → open_element (cut s m) ≡ cut (open_element s) m
  unfolding open_element
  open_element-cut s m = elim (Bool-cases s.newel) [ inl e ↦ rw e refl | inr n ↦ rw n refl ]

  peek_sub :
      (rest : Bytes) → char_is (peek (rest ++ z ∷ [])) p.sep_sub ≡ char_is (peek rest) p.sep_sub
  peek_sub [] = last.no_sub ∙ sym last.nul_no_sub
  peek_sub (c ∷ rest) = refl

  store_value-ValueCut :
      (s : SegState) (m : Bytes)
      → s.message ≡ m ++ z ∷ []
      → ValueCut (store_value p s) (store_value p (cut s m)) ⊎ ((store_value p s).message ≡ [])
  unfolding store_value
  store_value-ValueCut s m e = elim (scan-ScanCut (is_nil s.done) false m) [
    | inl k ↦ inl (record {
      rest = k.rest;
      whole = rw (e, k.whole) refl;
      part = rw (e, k.whole, k.part, peek_sub k.rest) refl;
    })
    | inr h ↦ inr (rw e h)
  ]

  read_value-ValueCut :
      (s : SegState) (m : Bytes)
      → s.message ≡ m ++ z ∷ []
      → ValueCut (read_value p s) (read_value p (cut s m)) ⊎ ((read_value p s).message ≡ [])
  unfolding read_value
  read_value-ValueCut s m e =
      let o = open_element-cut s m in
      subst (λ t. ValueCut (read_value p s) (store_value p t) ⊎ ((read_value p s).message ≡ []))
        (sym o) (store_value-ValueCut (open_element s) m (message-open_element s ∙ e))

  more_cut : (m : Bytes) → more_elements p (m ++ z ∷ []) ≡ more_elements p m
  unfolding more_elements
  more_cut [] = rw last.is_seg refl
  more_cut (c ∷ m) = refl

  more-cons : (m : Bytes) → more_elements p m ≡ true → (c : ℕ) × (k : Bytes) × (m ≡ c ∷ k)
  unfolding more_elements
  more-cons [] h = cc
  more-cons (c ∷ k) h = (c, k, refl)

  nothing_left : (m : Bytes) → m ++ z ∷ [] ≡ z ∷ [] → m ≡ []
  nothing_left [] h = refl
  nothing_left (c ∷ m) h = absurd (omega (arith, ap length h, length-append m (z ∷ [])))

  record SkipCut (t : SegState) (c : ℕ) (k : Bytes) : Type 0 where
    whole : (skip_separator p t).message ≡ k ++ z ∷ []
    part : skip_separator p (cut t (c ∷ k)) ≡ cut (skip_separator p t) k

  skip_separator-SkipCut :
      (t : SegState) (c : ℕ) (k : Bytes) → t.message ≡ (c ∷ k) ++ z ∷ [] → SkipCut t c k
  unfolding skip_separator
  skip_separator-SkipCut t c k e = record { whole = rw e refl; part = rw e refl }

  pub Runs-cut :
      {s r : SegState} (m : Bytes)
      → Runs p s r
      → s.message ≡ m ++ z ∷ []
      → r.message ≡ z ∷ []
      → Runs p (cut s m) (cut r [])
  unfolding more_elements
  Runs-cut m (stop a) e h = rw (nothing_left m (sym e ∙ h)) (stop refl)
  Runs-cut {s} {r} m (leave a b q) e h = elim (read_value-ValueCut s m e) [
    | inl k ↦
        let nil : k.rest ≡ [] =
          nothing_left k.rest (sym k.whole ∙ ap (λ t. t.message) (sym q) ∙ h) in
        leave (sym (more_cut m) ∙ ap (more_elements p) (sym e) ∙ a)
          (ap (λ t. more_elements p t.message) k.part
            ∙ sym (more_cut k.rest)
            ∙ ap (more_elements p) (sym k.whole)
            ∙ b)
          (ap (λ t. cut t []) q ∙ ap (cut (read_value p s)) (sym nil) ∙ sym k.part)
    | inr n ↦ let x : [] ≡ z ∷ [] = sym n ∙ ap (λ t. t.message) (sym q) ∙ h in absurd cc
  ]
  Runs-cut {s} {r} m (again a b d) e h = elim (read_value-ValueCut s m e) [
    | inl k ↦
        let more = sym (more_cut k.rest) ∙ ap (more_elements p) (sym k.whole) ∙ b in
        let (c, left, is_cons) = more-cons k.rest more in
        let w =
          skip_separator-SkipCut (read_value p s) c left
            (k.whole ∙ ap (λ t. t ++ z ∷ []) is_cons) in
        let later = Runs-cut left d w.whole h in
        let same = ap (skip_separator p) (k.part ∙ ap (cut (read_value p s)) is_cons) ∙ w.part in
        again (sym (more_cut m) ∙ ap (more_elements p) (sym e) ∙ a)
          (ap (λ t. more_elements p t.message) k.part ∙ more)
          (subst (λ t. Runs p t (cut r [])) (sym same) later)
    | inr n ↦ let x : false ≡ true = sym (ap (more_elements p) n) ∙ b in absurd cc
  ]

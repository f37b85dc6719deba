-- ===== src/Parse/Invariant.antt =====
-- What the body of the element loop of libedi/parse.c keeps of the state.
use libedi.Base.{
  ℕ, ◌+◌, Bool, true, false, ◌||◌, List, [], ◌∷◌, ◌++◌, ◌≡◌, refl, ap, ◌∙◌, sym, arith, All,
  All-append, All-append_left, Option, none, some, length, append_assoc, is_nil, Bool-cases, inl,
  inr,
}
use libedi.Base.Chars.{Bytes, char_is, peek}
use libedi.Interchange.{Parser, Value, Element}
use libedi.Pool.{stringpool_alloc}
use libedi.Parse.Scan.{ends_value, scan, memcpyescape}
use libedi.Parse.Elements.{
  SegState, close_element, elements_of, open_element, values_of, add_value, store_value,
  more_elements, skip_separator,
}
use libedi.Parse.Storage.{values_in, Stored-alloc, values_in-concat}
use libedi.Parse.State.{
  IsSound, MayContinue, memcpyescape-length, add_value_sub, IsOpen, IsOpened, add_value-values,
  closed_values, length-close, open_length, HasValue, is_nil-concat, tag_first, first_value,
}

module _ (p : Parser) (prior : List Value) where
  -- The state at the head of the loop.
  pub record AtHead (s : SegState) : Type 0 where
    pub sound : IsSound prior s
    pub may_continue : MayContinue s
    pub valued : All HasValue (elements_of s)

  -- The body keeps the state sound.
  pub store_value-IsSound :
      (o : SegState) → IsOpened prior o → All HasValue o.done → IsSound prior (store_value p o)
  unfolding store_value
  store_value-IsSound o i valued =
      let (ts, m) = scan p (is_nil o.done) false o.message in
      let text = memcpyescape p.escape false ts in
      let v : Value = record {
        at = (stringpool_alloc o.pools (length ts + 1)).1;
        text = text;
        len = length text;
      } in
      let b = char_is (peek m) p.sep_sub in
      let opened : values_in (elements_of o) ≡ values_in o.done ++ values_of o.el =
        closed_values o.done o.el i.open_el in
      let closed : values_in (o.done ++ add_value o.el b v ∷ [])
          ≡ values_in o.done ++ (values_of o.el ++ v ∷ []) =
        values_in-concat o.done (add_value o.el b v)
        ∙ ap (λ t. values_in o.done ++ t) (add_value-values o.el b v i.open_el) in
      let joined : (prior ++ values_in (elements_of o)) ++ v ∷ []
          ≡ prior ++ values_in (o.done ++ add_value o.el b v ∷ []) =
        append_assoc prior (values_in (elements_of o)) (v ∷ [])
        ∙ ap (λ t. prior ++ t)
            (ap (λ t. t ++ v ∷ []) opened
              ∙ append_assoc (values_in o.done) (values_of o.el) (v ∷ [])
              ∙ sym closed) in
      record {
        stored = rw (← joined) (
            Stored-alloc o.pools (prior ++ values_in (elements_of o)) (length ts + 1) v
              i.sound.stored refl (omega (arith, memcpyescape-length p.escape false ts)) refl);
        capacity = omega (
          arith,
          length-close o.done (add_value o.el b v),
          open_length o.done o.el i.open_el,
          i.sound.capacity,
        );
        tag_is =
            tag_first o.done o.el b o.tag v i.open_el (i.sound.tag_is ∙ ap first_value opened)
              valued
            ∙ ap first_value (sym closed);
      }

  pub store_value-valued :
      (o : SegState)
      → IsOpen o.el
      → All HasValue o.done
      → All HasValue (elements_of (store_value p o))
  unfolding store_value
  store_value-valued o h valued = All-append HasValue o.done _ valued (has_value o.el _ _ h, tt)
    where
      has_value :
          (el : Option Element) (b : Bool) (v : Value) → IsOpen el → HasValue (add_value el b v)
      has_value el b v k = rw (add_value-values el b v k) (is_nil-concat (values_of el) v)

  pub open_element-valued :
      (s : SegState) → All HasValue (elements_of s) → All HasValue (open_element s).done
  unfolding open_element
  open_element-valued s h = elim (Bool-cases s.newel) [
    | inl n ↦ rw n h
    | inr n ↦ rw n (closed_done s.done s.el h)
  ]
    where
      closed_done :
          (es : List Element) (el : Option Element)
          → All HasValue (close_element es el)
          → All HasValue es
      closed_done es none k = k
      closed_done es (some e) k = All-append_left HasValue es (e ∷ []) k

  -- Behind a value that the loop does not leave at, a separator starts a new element, or the
  -- element is a composite.
  pub skip_separator-MayContinue :
      (q : SegState) (el : Option Element) (w : Value) (first : Bool) (m : Bytes)
      → q.message ≡ m
      → q.newel ≡ false
      → q.el ≡ some (add_value el (char_is (peek m) p.sep_sub) w)
      → ((c : ℕ) (rest : Bytes) → m ≡ c ∷ rest → ends_value p first c ≡ true)
      → more_elements p m ≡ true
      → MayContinue (skip_separator p q)
  unfolding skip_separator more_elements ends_value
  skip_separator-MayContinue q el w first [] e n el_is stops more = cc
  skip_separator-MayContinue q el w first (c ∷ rest) e n el_is stops more =
      elim (Bool-cases (char_is c p.sep_data || char_is c p.sep_tag)) [
        | inl starts ↦ inl (rw (e, n) starts)
        | inr goes_on ↦
            let sub : char_is c p.sep_sub ≡ true = ground (arith, stops c rest refl) in
            inr (
              values_of el ++ w ∷ [],
              rw (e, n) goes_on,
              rw e (el_is ∙ ap (λ b. some (add_value el b w)) sub ∙ ap some (add_value_sub el w)),
            )
      ]

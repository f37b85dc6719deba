-- ===== src/Parse/State.antt =====
-- The state of the element loop of libedi/parse.c: its values stored, its array of elements large
-- enough, the segment's tag its first value, and no simple element continued.
use libedi.Base.{
  ℕ, ◌+◌, ◌≤◌, Bool, true, false, List, [], ◌∷◌, ◌++◌, ◌≡◌, refl, ap, ◌∙◌, sym, arith, All, Option,
  none, some, length, length-append, append-nil, is_nil, ◌⊎◌, inl, inr, if◌then◌else◌,
}
use libedi.Base.Chars.{Bytes}
use libedi.Interchange.{Parser, Value, Element, untyped, simple, composite}
use libedi.Parse.Scan.{is_escape, ends_value, scan, memcpyescape}
use libedi.Parse.Elements.{
  SegState, close_element, elements_of, open_element, values_of, add_value, sets_tag,
}
use libedi.Parse.Storage.{element_values, values_in, Stored, values_in-concat}

-- The first value, if there is one.
abbrev pub first_value : List Value → Option Value
first_value [] = none
first_value (v ∷ vs) = some v

-- The loop's state is sound, where `prior` are the values of the segments before.
pub record IsSound (prior : List Value) (s : SegState) : Type 0 where
  pub stored : Stored s.pools (prior ++ values_in (elements_of s))
  pub capacity : length (elements_of s) ≤ s.elalloc
  pub tag_is : s.tag ≡ first_value (values_in (elements_of s))

-- At the head of the loop: an element that is read on is a composite.
abbrev pub MayContinue : SegState → Type 0
MayContinue s =
    (s.newel ≡ true) ⊎ ((vs : List Value) × (s.newel ≡ false) × (s.el ≡ some (composite vs)))

pub memcpyescape-length : (k : ℕ) (e : Bool) (m : Bytes) → length (memcpyescape k e m) ≤ length m
unfolding memcpyescape
memcpyescape-length k e [] = omega arith
memcpyescape-length k true (c ∷ m) = omega (arith, memcpyescape-length k false m)
memcpyescape-length k false (c ∷ m) =
    ground (arith, memcpyescape-length k true m, memcpyescape-length k false m)

-- The value loop stops at the end of the message, or at a byte that ends the value.
pub scan_stops :
    (p : Parser) (first e : Bool) (m : Bytes) (c : ℕ) (rest : Bytes)
    → (scan p first e m).1 ≡ c ∷ rest
    → ends_value p first c ≡ true
unfolding scan
scan_stops p first e [] c rest h = cc
scan_stops p first true (x ∷ m) c rest h = scan_stops p first false m c rest h
scan_stops p first false (x ∷ m) c rest h =
    ground (arith, scan_stops p first (is_escape p.escape x) m c rest)

-- In front of a subelement separator an element is a composite, or becomes one.
pub add_value_sub :
    (el : Option Element) (v : Value) → add_value el true v ≡ composite (values_of el ++ v ∷ [])
add_value_sub none v = refl
add_value_sub (some untyped) v = refl
add_value_sub (some (simple w)) v = refl
add_value_sub (some (composite ws)) v = refl

-- An element on which a value may be put: a new one, or a composite.
abbrev pub IsOpen : Option Element → Type 0
IsOpen none = ⊥
IsOpen (some untyped) = Unit
IsOpen (some (simple v)) = ⊥
IsOpen (some (composite vs)) = Unit

pub add_value-values :
    (el : Option Element) (b : Bool) (v : Value)
    → IsOpen el
    → element_values (add_value el b v) ≡ values_of el ++ v ∷ []
add_value-values none b v h = absurd h
add_value-values (some untyped) true v h = refl
add_value-values (some untyped) false v h = refl
add_value-values (some (simple w)) b v h = absurd h
add_value-values (some (composite ws)) b v h = refl

pub closed_values :
    (es : List Element) (el : Option Element)
    → IsOpen el
    → values_in (close_element es el) ≡ values_in es ++ values_of el
closed_values es none h = absurd h
closed_values es (some untyped) h = values_in-concat es untyped
closed_values es (some (simple v)) h = absurd h
closed_values es (some (composite vs)) h = values_in-concat es (composite vs)

-- What `if(newel) { … }` gives the rest of the body.
pub record IsOpened (prior : List Value) (s : SegState) : Type 0 where
  pub sound : IsSound prior s
  pub open_el : IsOpen s.el
  pub newel_is : s.newel ≡ false

pub open_element-IsOpened :
    (prior : List Value) (s : SegState)
    → IsSound prior s
    → MayContinue s
    → IsOpened prior (open_element s)
unfolding open_element
open_element-IsOpened prior s i (inl n) =
    let values : values_in (elements_of s ++ untyped ∷ []) ≡ values_in (elements_of s) =
      values_in-concat (elements_of s) untyped ∙ append-nil (values_in (elements_of s)) in
    rw n (record {
      sound = record {
        stored = rw values i.stored;
        capacity = ground (arith, i.capacity, length-append (elements_of s) (untyped ∷ []));
        tag_is = i.tag_is ∙ sym (ap first_value values);
      };
      open_el = tt;
      newel_is = refl;
    })
open_element-IsOpened prior s i (inr (vs, n, e)) = rw n (record {
  sound = record { stored = i.stored; capacity = i.capacity; tag_is = i.tag_is };
  open_el = rw e tt;
  newel_is = refl;
})

pub length-close :
    (es : List Element) (e : Element) → length (close_element es (some e)) ≡ length es + 1
length-close es e = length-append es (e ∷ []) ∙ omega arith

pub open_length :
    (es : List Element) (el : Option Element)
    → IsOpen el
    → length (close_element es el) ≡ length es + 1
open_length es none h = absurd h
open_length es (some e) h = length-close es e

-- An element on which a value was put.
abbrev pub HasValue : Element → Type 0
HasValue e = is_nil (element_values e) ≡ false

first_value-append :
    (xs ys : List Value) → is_nil xs ≡ false → first_value (xs ++ ys) ≡ first_value xs
first_value-append [] ys h = cc
first_value-append (x ∷ xs) ys h = refl

is_nil-append {ℓ} : {A : Type ℓ} (xs ys : List A) → is_nil xs ≡ false → is_nil (xs ++ ys) ≡ false
is_nil-append [] ys h = cc
is_nil-append (x ∷ xs) ys h = refl

pub is_nil-concat {ℓ} : {A : Type ℓ} (xs : List A) (x : A) → is_nil (xs ++ x ∷ []) ≡ false
is_nil-concat [] x = refl
is_nil-concat (y ∷ xs) x = refl

later_same :
    (e : Element) (es : List Element) (ys zs : List Value)
    → HasValue e
    → first_value (values_in (e ∷ es) ++ ys) ≡ first_value (values_in (e ∷ es) ++ zs)
later_same e es ys zs h =
    let some_value = is_nil-append (element_values e) (values_in es) h in
    first_value-append (values_in (e ∷ es)) ys some_value
    ∙ sym (first_value-append (values_in (e ∷ es)) zs some_value)

-- The tag is set by the first value of the segment, and by no other one.
pub tag_first :
    (es : List Element) (el : Option Element) (b : Bool) (tag : Option Value) (v : Value)
    → IsOpen el
    → tag ≡ first_value (values_in es ++ values_of el)
    → All HasValue es
    → (if sets_tag (is_nil es) el b then some v else tag)
      ≡ first_value (values_in es ++ (values_of el ++ v ∷ []))
tag_first es none b tag v h t k = absurd h
tag_first [] (some untyped) true tag v h t k = refl
tag_first [] (some untyped) false tag v h t k = refl
tag_first es (some (simple w)) b tag v h t k = absurd h
tag_first [] (some (composite [])) true tag v h t k = refl
tag_first [] (some (composite [])) false tag v h t k = refl
tag_first [] (some (composite (w ∷ ws))) true tag v h t k = t
tag_first [] (some (composite (w ∷ ws))) false tag v h t k = t
tag_first (e ∷ es) (some untyped) b tag v h t k = t ∙ later_same e es [] (v ∷ []) k.0
tag_first (e ∷ es) (some (composite ws)) b tag v h t k = t ∙ later_same e es ws (ws ++ v ∷ []) k.0

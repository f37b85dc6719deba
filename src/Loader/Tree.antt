-- ===== src/Loader/Tree.antt =====
-- The driver of libedistruct/struct_loader.c on the events of a document: the handlers are called
-- along its tree, and the path is that of the element.
use libedi.Base.{
  ◌+◌, ◌-◌, ◌≤◌, ◌<◌, List, [], ◌∷◌, ◌++◌, Option, some, ◌≡◌, refl, ap, ◌∙◌, arith, length,
  length-append, take, take_all, take-append, lt→ltb, le→leb, append_assoc,
}
use mathlib.Core.Path.{fun_ext}
use libedi.Base.Chars.{Bytes, codes}
use libedi.Loader.Memory.{◌>>=◌, >>=_assoc, >>=-some}
use libedi.Loader.Driver.{
  xpath_max, Event, start, end, cdata, Handlers, strncat, attributes, start_element, cut_path,
  end_element, character_data, handle_all,
}
use libedi.Loader.Buffers.{handle_all-append, parse_xml_file-events}
use libedi.Loader.File.{Expat, parsed, loaded, parse_xml_file, events_in}

-- The nodes of a document one after the other: elements, with their attributes and what is in them,
-- and pieces of text.
pub data Nodes : Type 0 where
  no_node : Nodes
  element : Bytes → List (Bytes × Bytes) → Nodes → Nodes → Nodes
  piece : Bytes → Nodes → Nodes

abbrev pub events_of : Nodes → List Event
events_of no_node = []
events_of (element n attrs kids rest) = start n attrs ∷ (events_of kids ++ end n ∷ events_of rest)
events_of (piece s rest) = cdata s ∷ events_of rest

-- The path of an element, and that of an attribute.
abbrev pub child_path : Bytes → Bytes → Bytes
child_path p n = p ++ b'/' ∷ n

abbrev pub attribute_path : Bytes → Bytes → Bytes
attribute_path p n = p ++ b'/' ∷ b'@' ∷ n

module _ {S : Type 0} (h : Handlers S) where
  abbrev pub visit_attributes : Bytes → List (Bytes × Bytes) → S → Option S
  visit_attributes q [] s = some s
  visit_attributes q ((n, v) ∷ attrs) s =
      h.on_cdata (attribute_path q n) v s >>= visit_attributes q attrs

  -- The handlers called along a document's tree, each with the path of what it is called for.
  unfoldable pub visit : Bytes → Nodes → S → Option S
  visit p no_node s = some s
  visit p (element n attrs kids rest) s = h.on_start (child_path p n) s >>= (λ s.
      visit_attributes (child_path p n) attrs s >>= (λ s.
        visit (child_path p n) kids s >>= (λ s. h.on_end (child_path p n) s >>= visit p rest)))
  visit p (piece s rest) u = h.on_cdata p s u >>= visit p rest

  -- An element with one attribute.
  pub visit-element :
      (p n m v : Bytes) (kids rest : Nodes) (s : S)
      → visit p (element n ((m, v) ∷ []) kids rest) s ≡ (
          h.on_start (child_path p n) s >>= (λ s.
            h.on_cdata (attribute_path (child_path p n) m) v s >>= (λ s.
              visit (child_path p n) kids s
              >>= (λ s. h.on_end (child_path p n) s >>= visit p rest))))
  unfolding visit
  visit-element p n m v kids rest s = simp (>>=-some)

-- A path that fits into its array with its NUL.
abbrev pub FitsPath : Bytes → Type 0
FitsPath p = length p < xpath_max

abbrev pub FitAttributes : Bytes → List (Bytes × Bytes) → Type 0
FitAttributes q [] = Unit
FitAttributes q ((n, v) ∷ attrs) = FitsPath (attribute_path q n) × FitAttributes q attrs

-- Every path in the document does.
abbrev pub Fit : Bytes → Nodes → Type 0
Fit p no_node = Unit
Fit p (element n attrs kids rest) =
    FitsPath (child_path p n)
    × FitAttributes (child_path p n) attrs
    × Fit (child_path p n) kids
    × Fit p rest
Fit p (piece s rest) = Fit p rest

pub strncat_fits : (p s : Bytes) → FitsPath (p ++ s) → strncat p s ≡ some (p ++ s)
unfolding strncat
strncat_fits p s h =
    let short : length s ≤ 512 = omega (arith, length-append p s) in
    rw (take_all 512 s short, lt→ltb _ _ h)

cut_path-child : (p n : Bytes) → cut_path (child_path p n) n ≡ some p
unfolding cut_path
cut_path-child p n =
    let len : length (child_path p n) ≡ length p + length n + 1 =
      omega (arith, length-append p (b'/' ∷ n)) in
    let at : length (child_path p n) - length n - 1 ≡ length p = omega (arith, len) in
    rw (le→leb (length n + 1) (length (child_path p n)) (omega (arith, len)))
      (ap some (ap (λ k. take k (child_path p n)) at ∙ take-append p (b'/' ∷ n)))

module _ {S : Type 0} (h : Handlers S) where
  attributes-visit :
      (q : Bytes) (attrs : List (Bytes × Bytes)) (s : S)
      → FitAttributes q attrs
      → attributes h q attrs s ≡ visit_attributes h q attrs s
  unfolding attributes
  attributes-visit q [] s fit = refl
  attributes-visit q ((n, v) ∷ attrs) s (fit, fits) =
      let whole : (q ++ codes "/@") ++ n ≡ attribute_path q n = append_assoc q (codes "/@") n in
      let slash : strncat q (codes "/@") ≡ some (q ++ codes "/@") =
        strncat_fits q (codes "/@")
          (omega (arith, length-append (q ++ codes "/@") n, ap length whole)) in
      let name : strncat (q ++ codes "/@") n ≡ some (attribute_path q n) =
        strncat_fits (q ++ codes "/@") n (rw whole fit) ∙ ap some whole in
      rw (slash, name)
        (ap (λ f. h.on_cdata (attribute_path q n) v s >>= f)
          (fun_ext (λ u. attributes-visit q attrs u fits)))

  start_element-visit :
      (p n : Bytes) (attrs : List (Bytes × Bytes)) (s : S)
      → FitsPath (child_path p n)
      → FitAttributes (child_path p n) attrs
      → start_element h n attrs (record { path = p; user = s }) ≡ (
          h.on_start (child_path p n) s >>= λ s.
          visit_attributes h (child_path p n) attrs s >>= λ s.
          some (record { path = child_path p n; user = s }))
  unfolding start_element
  start_element-visit p n attrs s fit fits =
      let whole : (p ++ codes "/") ++ n ≡ child_path p n = append_assoc p (codes "/") n in
      let slash : strncat p (codes "/") ≡ some (p ++ codes "/") =
        strncat_fits p (codes "/")
          (omega (arith, length-append (p ++ codes "/") n, ap length whole)) in
      let name : strncat (p ++ codes "/") n ≡ some (child_path p n) =
        strncat_fits (p ++ codes "/") n (rw whole fit) ∙ ap some whole in
      let q = child_path p n in
      rw (slash, name)
        (ap (λ f. h.on_start q s >>= f)
          (fun_ext (λ u.
            ap (λ o. o >>= λ s. some (record { path = q; user = s }))
              (attributes-visit q attrs u fits))))

  end_element-visit :
      (p n : Bytes) (s : S)
      → end_element h n (record { path = child_path p n; user = s })
        ≡ (h.on_end (child_path p n) s >>= λ s. some (record { path = p; user = s }))
  unfolding end_element
  end_element-visit p n s = rw (cut_path-child p n)

  -- With a path that fits, the events of a document call the handlers along its tree, and leave
  -- the path as it was.
  pub handle_all-visit :
      (p : Bytes) (nodes : Nodes)
      → Fit p nodes
      → (s : S)
      → handle_all h (events_of nodes) (record { path = p; user = s })
        ≡ (visit h p nodes s >>= λ s. some (record { path = p; user = s }))
  unfolding handle_all visit
  handle_all-visit p no_node fit s = refl
  handle_all-visit p (piece t rest) fit s =
      unfold character_data in simp (>>=_assoc, handle_all-visit p rest fit)
  handle_all-visit p (element n attrs kids rest) (fit, fits, inner, later) s = simp (
    start_element-visit p n attrs s fit fits,
    >>=_assoc,
    handle_all-append,
    handle_all-visit (child_path p n) kids inner,
    end_element-visit,
    handle_all-visit p rest later,
  )

-- A document whose handlers end in a state is loaded with it.
pub parse_xml_file-visit :
    {S : Type 0} (expat : Expat) (h : Handlers S) (file : Bytes) (nodes : Nodes) (ud s : S)
    → events_in expat file ≡ some (events_of nodes)
    → Fit [] nodes
    → visit h [] nodes ud ≡ some s
    → parse_xml_file expat h (some file) ud ≡ some (parsed loaded s)
parse_xml_file-visit expat h file nodes ud s e fit v =
    simp (
      parse_xml_file-events expat h file ud (events_of nodes) e,
      handle_all-visit h [] nodes fit,
      v,
    )

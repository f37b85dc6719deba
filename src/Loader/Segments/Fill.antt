-- ===== src/Loader/Segments/Fill.antt =====
-- How the handlers of libedistruct/struct_loader.c fill one entry of the table of segments, and its
-- children.
use libedi.Base.{
  ℕ, ◌+◌, List, [], ◌∷◌, ◌++◌, Option, some, ◌≡◌, refl, ap, ◌∙◌, sym, arith, length, length-append,
  map, append_assoc, append-nil,
}
use mathlib.Core.Path.{subst}
use libedi.Base.Chars.{Bytes, codes, same_text}
use libedi.Loader.Memory.{
  ◌>>=◌, >>=-some, Cell, null, junk, set, write_at, write_at-append, grow, Filled, HasRoom,
  grow-HasRoom,
}
use libedi.Loader.Tree.{Nodes, no_node, visit, child_path}
use libedi.Loader.Document.{Gaps, leaf, children_nodes, children_element}
use libedi.Loader.Segments.{
  Slot, Entry, SegmentsHelper, new_slots, set_entry, push_child, end_children, segments_text,
  segments_handlers, segments_cdata,
}
use libedi.Loader.Segments.Paths.{
  segments_tstart_below, segments_tend_below, segments_cdata_below, segments_cdata_at,
}
use libedi.Loader.Rows.{pieces-visit}

-- The state while the entry behind `done` is filled.
abbrev pub filling : List Entry → Entry → List Entry → List Slot → ℕ → SegmentsHelper
filling done e others slots k = record {
  segs = done ++ e ∷ others;
  index = length done;
  children = slots;
  chld_index = k;
}

pub set_entry-filling :
    (f : Entry → Entry) (done : List Entry) (e : Entry) (others : List Entry) (slots : List Slot)
    (k : ℕ)
    → set_entry f (filling done e others slots k) ≡ some (filling done (f e) others slots k)
unfolding set_entry
set_entry-filling f done e others slots k = rw (write_at-append f done e others)

-- The state behind some children: the entry may lead to slots, and the helper's are filled.
pub record Pushed (done : List Entry) (e : Entry) (others : List Entry) (seen : List Slot)
    (o : Option SegmentsHelper) : Type 0 where
  pub pointer : Cell (List Slot)
  pub slots : List Slot
  pub is_run : o ≡ some (filling done (record e { children = pointer }) others slots (length seen))
  pub filled : Filled slots seen

module _ (done : List Entry) (e : Entry) (others : List Entry) (slots seen : List Slot)
    (f : Filled slots seen) (c : Slot) where
  room : HasRoom (grow (length seen) new_slots slots) seen
  room = grow-HasRoom junk (junk ∷ junk ∷ junk ∷ junk ∷ junk ∷ junk ∷ junk ∷ []) slots seen f

  -- The slots with one more child.
  put : List Slot
  put = seen ++ c ∷ room.others

  push_child-filling :
      push_child c (filling done e others slots (length seen))
      ≡ some (filling done (record e { children = set put }) others put (length (seen ++ c ∷ [])))
  unfolding push_child put
  push_child-filling =
      let written : write_at (length seen) (λ _. c) (grow (length seen) new_slots slots)
          ≡ some put =
        ap (write_at (length seen) (λ _. c)) room.is_room
        ∙ write_at-append (λ _. c) seen room.first room.others in
      let longer : length seen + 1 ≡ length (seen ++ c ∷ []) =
        omega (arith, length-append seen (c ∷ [])) in
      rw (written, write_at-append (λ e. record e { children = set put }) done e others, longer)
        refl

  put-Filled : Filled put (seen ++ c ∷ [])
  unfolding put
  put-Filled = record {
    rest = room.others;
    is_filled = sym (append_assoc seen (c ∷ []) room.others);
  }

module _ (gaps : Gaps) (base : Bytes) where
  open gaps use {inside}

  abbrev kids : Bytes
  kids = child_path base (codes "children")

  child-visit :
      (c : Bytes) (rest : Nodes) (s : SegmentsHelper)
      → visit (segments_handlers base) kids (leaf (codes "child") c rest) s
        ≡ (push_child (set c) s >>= visit (segments_handlers base) kids rest)
  unfolding visit segments_text same_text
  child-visit c rest s = simp (
    append_assoc,
    segments_tstart_below base b'/' (codes "children/child"),
    segments_cdata_below base b'/' (codes "children/child"),
    segments_tend_below base b'/' (codes "children/child"),
    >>=-some,
  )

  -- The text between the children.
  kids_skipped : (t : Bytes) (s : SegmentsHelper) → segments_cdata base kids t s ≡ some s
  unfolding segments_text same_text
  kids_skipped t s = segments_cdata_below base b'/' (codes "children") t s

  children-visit :
      (cs : List Bytes) (done : List Entry) (e : Entry) (others : List Entry)
      (slots seen : List Slot)
      → Filled slots seen
      → Pushed done e others (seen ++ map set cs) (
          visit
            (segments_handlers base)
            kids
            (children_nodes gaps cs)
            (filling done e others slots (length seen)))
  unfolding visit
  children-visit [] done e others slots seen f = rw append-nil (record {
    pointer = e.children;
    slots = slots;
    is_run =
        pieces-visit (segments_handlers base) kids kids_skipped inside no_node
          (filling done e others slots (length seen));
    filled = f;
  })
  children-visit (c ∷ cs) done e others slots seen f =
      let later = put done e others slots seen f (set c) in
      let rest =
        children-visit cs done (record e { children = set later }) others later (seen ++ set c ∷ [])
          (put-Filled done e others slots seen f (set c)) in
      let whole : (seen ++ set c ∷ []) ++ map set cs ≡ seen ++ map set (c ∷ cs) =
        append_assoc seen (set c ∷ []) (map set cs) in
      let e' : Entry = record e { children = rest.pointer } in
      let step =
        pieces-visit (segments_handlers base) kids kids_skipped inside
          (leaf (codes "child") c (children_nodes gaps cs))
          (filling done e others slots (length seen))
        ∙ child-visit c (children_nodes gaps cs) (filling done e others slots (length seen))
        ∙ ap (λ o. o >>= visit (segments_handlers base) kids (children_nodes gaps cs))
            (push_child-filling done e others slots seen f (set c)) in
      record {
        pointer = rest.pointer;
        slots = rest.slots;
        is_run =
            step
            ∙ rest.is_run
            ∙ ap (λ t. some (filling done e' others rest.slots (length t))) whole;
        filled = subst (Filled rest.slots) whole rest.filled;
      }

  -- The state behind the element of the children: the entry leads to them and a NULL, and the
  -- helper has forgotten them.
  pub record Listed (done : List Entry) (e : Entry) (others : List Entry) (cs : List Bytes)
      (o : Option SegmentsHelper) : Type 0 where
    pub slots : List Slot
    pub is_run : o ≡ some (filling done (record e { children = set slots }) others [] 0)
    pub filled : Filled slots (map set cs ++ null ∷ [])

  pub element_children-Listed :
      (cs : List Bytes) (done : List Entry) (e : Entry) (others : List Entry)
      → Listed done e others cs (
          visit
            (segments_handlers base)
            base
            (children_element gaps cs)
            (filling done e others [] 0))
  unfolding visit end_children same_text
  element_children-Listed cs done e others =
      let q = children-visit cs done e others [] [] (record { rest = []; is_filled = refl }) in
      let e' : Entry = record e { children = q.pointer } in
      let last = push_child-filling done e' others q.slots (map set cs) q.filled null in
      record {
        slots = put done e' others q.slots (map set cs) q.filled null;
        is_run = simp (
          pieces-visit (segments_handlers base) base (segments_cdata_at base),
          segments_tstart_below base b'/' (codes "children"),
          segments_tend_below base b'/' (codes "children"),
          q.is_run,
          last,
        );
        filled = put-Filled done e' others q.slots (map set cs) q.filled null;
      }

-- ===== src/Loader/Segments/Read.antt =====
-- How one segment or composite of a document is read into the table of
-- libedistruct/struct_loader.c.
use libedi.Base.{
  ◌+◌, List, [], ◌∷◌, ◌++◌, some, ◌≡◌, refl, ap, ◌∙◌, sym, arith, length, length-append, map,
  append_assoc,
}
use mathlib.Core.List.{map-append}
use libedi.Base.Chars.{Bytes, codes, same_text, same_text_self}
use libedi.Loader.Memory.{Cell, null, set, grow, Filled, HasRoom, grow-HasRoom, replicate}
use libedi.Loader.Driver.{Handlers}
use libedi.Loader.Tree.{Nodes, visit, visit-element, child_path, attribute_path}
use libedi.Loader.Document.{Gaps, Described, info_of, fields_of, item_row, children_element}
use libedi.Loader.Segments.{
  Slot, Entry, SegmentsHelper, cleared, uncleared, new_entries, segments_tstart, segments_tend,
  segments_cdata, segments_text, segments_handlers,
}
use libedi.Loader.Segments.Paths.{segments_cdata_below, segments_cdata_at, leaf-visit}
use libedi.Loader.Rows.{Next, pieces-visit}
use libedi.Loader.Segments.Fill.{filling, set_entry-filling, element_children-Listed}
use libedi.Loader.Tables.{read_all, entry_info, read_all-concat, strings_of-Filled}

-- The state between two entries.
abbrev pub between : List Entry → List Entry → SegmentsHelper
between done rest = record {
  segs = done ++ rest;
  index = length done;
  children = [];
  chld_index = 0;
}

-- The state with the entries of `ds` done.
pub record Ready (ds : List Described) (s : SegmentsHelper) : Type 0 where
  pub done : List Entry
  pub rest : List Entry
  pub is_state : s ≡ between done rest
  pub is_read : read_all entry_info done ≡ some (map info_of ds)

-- An entry with all that `d` says, and the slots of its children.
abbrev described : Described → Cell (List (Cell Bytes)) → Entry
described d slots = record {
  name = set d.name;
  title = set d.title;
  title2 = set d.title2;
  function = set d.function;
  children = slots;
}

module _ (gaps : Gaps) (p item : Bytes) where
  open gaps use {before, after, inside}

  abbrev base : Bytes
  base = child_path p item

  abbrev handlers : Handlers SegmentsHelper
  handlers = segments_handlers base

  start_entry :
      (done rest : List Entry) (r : HasRoom (grow (length done) new_entries (done ++ rest)) done)
      → segments_tstart base base (between done rest) ≡ some (filling done r.first r.others [] 0)
  unfolding segments_tstart
  start_entry done rest r = rw (same_text_self base, r.is_room)

  code-filling :
      (t : Bytes) (done : List Entry) (e : Entry) (others : List Entry)
      → segments_cdata base (attribute_path base (codes "code")) t (filling done e others [] 0)
        ≡ some (filling done (record e { name = set t }) others [] 0)
  unfolding segments_text same_text
  code-filling t done e others =
      segments_cdata_below base b'/' (codes "@code") t (filling done e others [] 0)
      ∙ set_entry-filling (λ e. record e { name = set t }) done e others [] 0

  fields-visit :
      (d : Described) (done : List Entry) (e : Entry) (others : List Entry)
      → visit handlers base (fields_of gaps d) (filling done e others [] 0)
        ≡ visit handlers base (children_element gaps d.children) (
            filling done
              (record e { title = set d.title; title2 = set d.title2; function = set d.function })
              others
              []
              0)
  unfolding segments_text same_text
  fields-visit d done e others = simp (
    pieces-visit handlers base (segments_cdata_at base),
    leaf-visit base (codes "title1"),
    leaf-visit base (codes "title2"),
    leaf-visit base (codes "function"),
    set_entry-filling,
  )

  end_entry :
      (done : List Entry) (e : Entry) (others : List Entry)
      → segments_tend base base (filling done e others [] 0)
        ≡ some (between (done ++ e ∷ []) others)
  unfolding segments_tend
  end_entry done e others =
      let whole : done ++ e ∷ others ≡ (done ++ e ∷ []) ++ others =
        sym (append_assoc done (e ∷ []) others) in
      let next : length done + 1 ≡ length (done ++ e ∷ []) =
        omega (arith, length-append done (e ∷ [])) in
      rw (same_text_self base, whole, next) refl

  -- An entry that is loaded whole is read back.
  described-entry_info :
      (d : Described) (slots : List Slot)
      → Filled slots (map set d.children ++ null ∷ [])
      → entry_info (described d (set slots)) ≡ some (info_of d)
  unfolding entry_info
  described-entry_info d slots f = rw (strings_of-Filled d.children slots f)

  pub item-visit :
      (d : Described) (rest : Nodes) (ds : List Described) (s : SegmentsHelper)
      → Ready ds s
      → Next handlers p Ready (ds ++ d ∷ []) rest (visit handlers p (item_row gaps item d rest) s)
  item-visit d rest ds s r =
      let done = r.done in
      let others = r.rest in
      let room =
        grow-HasRoom cleared (replicate 9 cleared ++ replicate 15 uncleared) (done ++ others) done
          (record { rest = others; is_filled = refl }) in
      let listed =
        element_children-Listed gaps base d.children done
          (record room.first {
            name = set d.name;
            title = set d.title;
            title2 = set d.title2;
            function = set d.function;
          })
          room.others in
      let entry = described d (set listed.slots) in
      record {
        state = between (done ++ entry ∷ []) room.others;
        is_run = rw r.is_state (
            simp (
              visit-element handlers p item,
              start_entry done others room,
              code-filling,
              fields-visit,
              listed.is_run,
              end_entry,
            ));
        ready = record {
          done = done ++ entry ∷ [];
          rest = room.others;
          is_state = refl;
          is_read =
              read_all-concat entry_info done entry (map info_of ds) (info_of d) r.is_read
                (described-entry_info d listed.slots listed.filled)
              ∙ ap some (sym (map-append info_of ds (d ∷ [])));
        };
      }

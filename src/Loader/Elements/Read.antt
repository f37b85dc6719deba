-- ===== src/Loader/Elements/Read.antt =====
-- The round trip of libedistruct/struct_loader.c for elems.xml: the table that is loaded from a
-- document has what the document says.
use libedi.Base.{
  ◌+◌, Bool, true, false, List, [], ◌∷◌, ◌++◌, Option, some, ◌≡◌, refl, ap, ◌∙◌, sym, arith, length,
  length-append, map, append_assoc, take, take-append,
}
use mathlib.Core.List.{map-append}
use libedi.Base.Chars.{Bytes, codes, same_text}
use libedi.Loader.Memory.{set, write_at-append, grow, HasRoom, grow-HasRoom, replicate}
use libedi.Loader.File.{Expat, Status, loaded, events_in}
use libedi.Loader.Tree.{
  Nodes, no_node, visit, visit-element, attribute_path, events_of, Fit, parse_xml_file-visit,
}
use libedi.Loader.Document.{Gaps}
use libedi.Loader.Elements.Document.{
  DescribedElement, element_info_of, digit, element_fields, element_row, elements_document,
}
use libedi.Loader.Elements.{
  ElementEntry, ElementsHelper, cleared_element, uncleared_element, new_elements, start_elements,
  elements_tstart, elements_tend, elements_cdata, set_element, elements_handlers, load_elements,
  is_one,
}
use libedi.Loader.Rows.{Next, pieces-visit, rows-visit}
use libedi.Loader.Tables.{element_info, read_all, read_all-concat}

-- The state while the entry behind `done` is filled.
abbrev filling : List ElementEntry → ElementEntry → List ElementEntry → ElementsHelper
filling done e others = record { elems = done ++ e ∷ others; index = length done }

abbrev entry_of : DescribedElement → ElementEntry
entry_of d = record {
  name = set d.name;
  title = set d.title;
  title2 = set d.title2;
  function = set d.function;
  format = set d.format;
  is_coded = set d.is_coded;
}

-- The state with the elements of `ds` done.
record Ready (ds : List DescribedElement) (s : ElementsHelper) : Type 0 where
  done : List ElementEntry
  rest : List ElementEntry
  is_state : s ≡ record { elems = done ++ rest; index = length done }
  is_read : read_all element_info done ≡ some (map element_info_of ds)

is_one-digit : (b : Bool) → is_one (digit b) ≡ b
is_one-digit true = refl
is_one-digit false = refl

abbrev NextElement : List DescribedElement → Nodes → Option ElementsHelper → Type 0
NextElement = Next elements_handlers (codes "/elements") Ready

module _ (gaps : Gaps) where
  open gaps use {before, after, inside}

  set_element-filling :
      (f : ElementEntry → ElementEntry) (done : List ElementEntry) (e : ElementEntry)
      (others : List ElementEntry)
      → set_element f (filling done e others) ≡ some (filling done (f e) others)
  unfolding set_element
  set_element-filling f done e others = rw (write_at-append f done e others)

  skipped-base :
      (t : Bytes) (s : ElementsHelper) → elements_cdata (codes "/elements/element") t s ≡ some s
  unfolding elements_cdata same_text
  skipped-base t s = refl

  skipped-top : (t : Bytes) (s : ElementsHelper) → elements_cdata (codes "/elements") t s ≡ some s
  unfolding elements_cdata same_text
  skipped-top t s = refl

  fields-visit :
      (d : DescribedElement) (done : List ElementEntry) (e : ElementEntry)
      (others : List ElementEntry)
      → visit elements_handlers
          (codes "/elements/element")
          (element_fields gaps d)
          (filling done (record e { name = set d.name }) others)
        ≡ some (filling done (entry_of d) others)
  unfolding visit elements_tstart elements_cdata elements_tend same_text
  fields-visit d done e others = simp (
    pieces-visit elements_handlers (codes "/elements/element") skipped-base,
    set_element-filling,
    is_one-digit,
  )

  start_entry :
      (done rest : List ElementEntry)
      (r : HasRoom (grow (length done) new_elements (done ++ rest)) done)
      → elements_tstart
          (codes "/elements/element")
          (record { elems = done ++ rest; index = length done })
        ≡ some (filling done r.first r.others)
  unfolding elements_tstart same_text
  start_entry done rest r = rw r.is_room

  end_entry :
      (done : List ElementEntry) (e : ElementEntry) (others : List ElementEntry)
      → elements_tend (codes "/elements/element") (filling done e others)
        ≡ some (record { elems = (done ++ e ∷ []) ++ others; index = length (done ++ e ∷ []) })
  unfolding elements_tend same_text
  end_entry done e others =
      let whole : done ++ e ∷ others ≡ (done ++ e ∷ []) ++ others =
        sym (append_assoc done (e ∷ []) others) in
      let next : length done + 1 ≡ length (done ++ e ∷ []) =
        omega (arith, length-append done (e ∷ [])) in
      rw (whole, next) refl

  code-filling :
      (t : Bytes) (done : List ElementEntry) (e : ElementEntry) (others : List ElementEntry)
      → elements_cdata
          (attribute_path (codes "/elements/element") (codes "code"))
          t
          (filling done e others)
        ≡ some (filling done (record e { name = set t }) others)
  unfolding elements_cdata same_text
  code-filling t done e others = set_element-filling (λ e. record e { name = set t }) done e others

  element-visit :
      (d : DescribedElement) (rest : Nodes) (ds : List DescribedElement) (s : ElementsHelper)
      → Ready ds s
      → NextElement
          (ds ++ d ∷ [])
          rest
          (visit elements_handlers (codes "/elements") (element_row gaps d rest) s)
  unfolding element_info
  element-visit d rest ds s r =
      let done = r.done in
      let others = r.rest in
      let room =
        grow-HasRoom cleared_element (replicate 9 cleared_element ++ replicate 15 uncleared_element)
          (done ++ others) done (record { rest = others; is_filled = refl }) in
      record {
        state = record {
          elems = (done ++ entry_of d ∷ []) ++ room.others;
          index = length (done ++ entry_of d ∷ []);
        };
        is_run = rw r.is_state (
            simp (
              visit-element elements_handlers (codes "/elements") (codes "element"),
              start_entry done others room,
              code-filling,
              fields-visit,
              end_entry,
            ));
        ready = record {
          done = done ++ entry_of d ∷ [];
          rest = room.others;
          is_state = refl;
          is_read =
              read_all-concat element_info done (entry_of d) (map element_info_of ds)
                (element_info_of d) r.is_read refl
              ∙ ap some (sym (map-append element_info_of ds (d ∷ [])));
        };
      }

  document-visit :
      (count : Bytes) (ds : List DescribedElement)
      → Next elements_handlers [] Ready ds no_node
          (visit elements_handlers [] (elements_document gaps count ds) start_elements)
  unfolding visit read_all elements_tstart elements_cdata elements_tend same_text
  document-visit count ds =
      let last =
        rows-visit elements_handlers (codes "/elements") Ready (element_row gaps) after skipped-top
          element-visit ds [] start_elements
          (record { done = []; rest = []; is_state = refl; is_read = refl }) in
      record {
        state = last.state;
        is_run = simp (pieces-visit elements_handlers (codes "/elements") skipped-top, last.is_run);
        ready = last.ready;
      }

-- The table of `ds` is loaded.
pub record LoadedElements (ds : List DescribedElement) (o : Option (Status × List ElementEntry))
    : Type 0 where
  pub table : List ElementEntry
  pub is_loaded : o ≡ some (loaded, table)
  pub is_read : read_all element_info table ≡ some (map element_info_of ds)

-- Where the XML parser finds in a file the document of some elements, each with all of its strings and
-- each text in one piece, and every path in it fits, the loader returns 0 and a table from which just
-- these elements are read, in their order.
pub load_elements-LoadedElements :
    (gaps : Gaps) (count : Bytes) (expat : Expat) (file : Bytes) (old : List ElementEntry)
    (ds : List DescribedElement)
    → events_in expat file ≡ some (events_of (elements_document gaps count ds))
    → Fit [] (elements_document gaps count ds)
    → LoadedElements ds (load_elements expat (some file) old)
unfolding load_elements visit
load_elements-LoadedElements gaps count expat file old ds e fit =
    let v = document-visit gaps count ds in
    let r = v.ready in
    let full : take (length r.done) (r.done ++ r.rest) ≡ r.done = take-append r.done r.rest in
    let parse =
      parse_xml_file-visit expat elements_handlers file (elements_document gaps count ds)
        start_elements (record { elems = r.done ++ r.rest; index = length r.done }) e fit
        (v.is_run ∙ ap some r.is_state) in
    record { table = r.done; is_loaded = rw (parse, full) refl; is_read = r.is_read }

-- ===== src/Tests/Loading.antt =====
-- The theorems on the parts of libedistruct/struct_loader.c at small documents, and what goes wrong in
-- others.
use libedi.Base.{
  ℕ, Bool, true, false, [], ◌∷◌, Option, none, some, ◌≡◌, refl, arith, zero, suc, take, get_elem?,
}
use mathlib.Core.Option
use libedi.Base.Chars.{Bytes, codes, same_text, same_prefix}
use libedi.Loader.Memory.{◌>>=◌, set, replicate}
use libedi.Loader.Driver.{Handlers, handle_all, start_element}
use libedi.Loader.File.{events_in}
use libedi.Loader.Tree.{Nodes, no_node, element, piece, visit, events_of, handle_all-visit}
use libedi.Loader.Document.{leaf}
use libedi.Loader.Segments.{
  Entry, SegmentsHelper, segments_handlers, start_segments, load_segments, segments_tstart,
  segments_tend, segments_cdata,
}
use libedi.Loader.Segments.Load.{Loaded, load_segments-Loaded}
use libedi.Loader.Elements.{ElementsHelper, elements_handlers, load_elements}
use libedi.Loader.Elements.Read.{LoadedElements, load_elements-LoadedElements}
use libedi.Loader.Codes.Read.{LoadedCodes, load_codes-LoadedCodes}
use libedi.Loader.Codes.{load_codes}
use libedi.Loader.Tables.{read_all, entry_info}
use libedi.Loader.Split.{split_text-visit}
use libedi.Loader.Depth.{start_element-overflow}
use libedi.Tests.Loader.{toy, segs, elems, coded, gaps, fits-Fit}
use libedi.Loader.Directory.{segs_document, elems_document, coded_document}

abbrev base : Bytes
base = codes "/segments/segment"

abbrev handlers : Handlers SegmentsHelper
handlers = segments_handlers base

segs_events : events_in toy (codes "s") ≡ some (events_of (segs_document segs))
unfolding events_in same_text
segs_events = refl

handle_all-visit_example :
    handle_all handlers
      (events_of (segs_document segs))
      (record { path = []; user = start_segments })
    ≡ (visit handlers [] (segs_document segs) start_segments >>= λ s.
        some (record { path = []; user = s }))
handle_all-visit_example =
    handle_all-visit handlers [] (segs_document segs) (fits-Fit [] (segs_document segs) refl)
      start_segments

load_segments-Loaded_example : Loaded segs.entries (load_segments base toy (some (codes "s")) [])
unfolding same_prefix
load_segments-Loaded_example =
    load_segments-Loaded gaps (codes "segments") (codes "1") (codes "segment") refl toy (codes "s")
      [] segs.entries segs_events (fits-Fit [] (segs_document segs) refl)

elems_events : events_in toy (codes "e") ≡ some (events_of (elems_document elems))
unfolding events_in same_text
elems_events = refl

load_elements-LoadedElements_example :
    LoadedElements elems.entries (load_elements toy (some (codes "e")) [])
load_elements-LoadedElements_example =
    load_elements-LoadedElements gaps (codes "1") toy (codes "e") [] elems.entries elems_events
      (fits-Fit [] (elems_document elems) refl)

coded_events : events_in toy (codes "v") ≡ some (events_of (coded_document coded))
unfolding events_in same_text
coded_events = refl

load_codes-LoadedCodes_example : LoadedCodes coded.entries (load_codes toy (some (codes "v")) [])
load_codes-LoadedCodes_example =
    load_codes-LoadedCodes gaps (codes "1") toy (codes "v") [] coded.entries coded_events
      (fits-Fit [] (coded_document coded) refl)

abbrev title_path : Bytes
title_path = codes "/segments/segment/title1"

title_is_no_child : same_text (codes "/title1") (codes "/children/child") ≡ false
unfolding same_text
title_is_no_child = refl

split_text-visit_example :
    ((s : SegmentsHelper)
      → visit handlers title_path (piece (codes "A") (piece (codes "&B") no_node)) s
        ≡ visit handlers title_path (piece (codes "&B") no_node) s)
    × ((s : ElementsHelper)
        → visit elements_handlers title_path (piece (codes "A") (piece (codes "&B") no_node)) s
          ≡ visit elements_handlers title_path (piece (codes "&B") no_node) s)
split_text-visit_example =
    split_text-visit base title_path (codes "A") (codes "&B") no_node title_is_no_child

start_element-overflow_example :
    start_element handlers (replicate 512 b'x') [] (record { path = []; user = start_segments })
    ≡ none
start_element-overflow_example =
    start_element-overflow handlers [] (replicate 512 b'x') [] start_segments (omega arith)

-- Segments that leave their functions out.
abbrev no_function : ℕ → Nodes
no_function zero = no_node
no_function (suc n) =
    element (codes "segment") ((codes "code", codes "UNB") ∷ [])
      (leaf (codes "title1") (codes "T") (element (codes "children") [] no_node no_node))
      (no_function n)

abbrev readable : Option SegmentsHelper → Bool
readable none = false
readable (some s) = elim (read_all entry_info (take s.index s.segs)) [
  | none ↦ false
  | some _ ↦ true
]

-- The eleventh of them has a function pointer that was never set; of a title with an entity in it,
-- what stands behind the entity is left.
loading_runs :
    (readable (visit handlers (codes "/segments") (no_function 10) start_segments) ≡ true)
    × (readable (visit handlers (codes "/segments") (no_function 11) start_segments) ≡ false)
    × (Option.map
          (λ (s : SegmentsHelper). Option.map (λ (e : Entry). e.title) (get_elem? s.segs 0))
          (visit handlers
            (codes "/segments")
            (element
              (codes "segment")
              []
              (element
                (codes "title1")
                []
                (piece (codes "A ") (piece (codes "&") (piece (codes " B") no_node)))
                no_node)
              no_node)
            start_segments)
        ≡ some (some (set (codes " B"))))
unfolding visit segments_tstart segments_tend segments_cdata read_all entry_info
loading_runs = (refl, refl, refl)

-- ===== src/Loader/Segments/Load.antt =====
-- The round trip of libedistruct/struct_loader.c for segs.xml and comps.xml: the table that is loaded
-- from a document has what the document says.
use libedi.Base.{
  false, List, [], ◌++◌, Option, some, ◌≡◌, refl, ap, ◌∙◌, length, map, take, take-append,
}
use libedi.Base.Chars.{Bytes, codes, same_prefix}
use libedi.Loader.File.{Expat, Status, loaded, events_in}
use libedi.Loader.Tree.{
  no_node, visit, child_path, attribute_path, events_of, Fit, parse_xml_file-visit,
}
use libedi.Loader.Document.{Gaps, Described, info_of, item_row, document}
use libedi.Loader.Segments.{
  Entry, SegmentsHelper, start_segments, segments_cdata, segments_handlers, load_segments, is_below,
}
use libedi.Loader.Segments.Paths.{
  segments_cdata_above, same_prefix_behind, segments_tstart_above, segments_tend_above,
}
use libedi.Loader.Rows.{Next, pieces-visit, rows-visit}
use libedi.Loader.Tables.{read_all, entry_info}
use libedi.Loader.Segments.Read.{between, Ready, item-visit}

-- The table of `ds` is loaded.
pub record Loaded (ds : List Described) (o : Option (Status × List Entry)) : Type 0 where
  pub table : List Entry
  pub is_loaded : o ≡ some (loaded, table)
  pub is_read : read_all entry_info table ≡ some (map info_of ds)

-- The attribute of the document's element is not that of an item.
abbrev pub Unlike : Bytes → Type 0
Unlike item = same_prefix (length item) (codes "@count") item ≡ false

module _ (gaps : Gaps) (root count item : Bytes) (unlike : Unlike item) where
  open gaps use {before, after}

  abbrev top : Bytes
  top = child_path [] root

  abbrev basepath : Bytes
  basepath = child_path top item

  count-skipped :
      (s : SegmentsHelper)
      → segments_cdata basepath (attribute_path top (codes "count")) count s ≡ some s
  unfolding segments_cdata is_below
  count-skipped s = rw (same_prefix_behind top b'/' (codes "@count") item unlike)

  document-visit :
      (ds : List Described)
      → Next
          (segments_handlers basepath)
          []
          Ready
          ds
          no_node
          (visit (segments_handlers basepath) [] (document gaps root count item ds) start_segments)
  unfolding visit read_all
  document-visit ds =
      let last =
        rows-visit (segments_handlers basepath) top Ready (item_row gaps item) after
          (segments_cdata_above top b'/' item) (item-visit gaps top item) ds [] start_segments
          (record { done = []; rest = []; is_state = refl; is_read = refl }) in
      record {
        state = last.state;
        is_run = simp (
          segments_tstart_above top b'/' item,
          count-skipped,
          pieces-visit (segments_handlers basepath) top (segments_cdata_above top b'/' item),
          last.is_run,
          segments_tend_above top b'/' item,
        );
        ready = last.ready;
      }

  -- Where the XML parser finds in a file the document of some segments or composites, each with all
  -- of its strings and each text in one piece, and every path in it fits, the loader returns 0 and
  -- a table from which just these entries are read, in their order, with their children.
  pub load_segments-Loaded :
      (expat : Expat) (file : Bytes) (old : List Entry) (ds : List Described)
      → events_in expat file ≡ some (events_of (document gaps root count item ds))
      → Fit [] (document gaps root count item ds)
      → Loaded ds (load_segments basepath expat (some file) old)
  unfolding load_segments visit
  load_segments-Loaded expat file old ds e fit =
      let v = document-visit ds in
      let r = v.ready in
      let full : take (length r.done) (r.done ++ r.rest) ≡ r.done = take-append r.done r.rest in
      let parse =
        parse_xml_file-visit expat (segments_handlers basepath) file
          (document gaps root count item ds) start_segments (between r.done r.rest) e fit
          (v.is_run ∙ ap some r.is_state) in
      record { table = r.done; is_loaded = rw (parse, full) refl; is_read = r.is_read }

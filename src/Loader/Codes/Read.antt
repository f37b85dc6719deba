-- ===== src/Loader/Codes/Read.antt =====
-- The round trip of libedistruct/struct_loader.c for coded.xml: the table that is loaded from a
-- document has what the document says.
use libedi.Base.{
  ◌+◌, Bool, true, false, List, [], ◌∷◌, ◌++◌, Option, some, ◌≡◌, refl, ap, ◌∙◌, sym, arith, length,
  length-append, map, append_assoc, take, take-append, if◌then◌else◌,
}
use mathlib.Core.List.{map-append}
use libedi.Base.Chars.{Bytes, codes, same_text, same_prefix}
use libedi.Loader.Memory.{set, grow, HasRoom, grow-HasRoom, replicate}
use libedi.Loader.File.{Expat, Status, loaded, events_in}
use libedi.Loader.Tree.{
  Nodes, no_node, visit, visit_attributes, events_of, Fit, parse_xml_file-visit,
}
use libedi.Loader.Document.{Gaps, pieces, rows}
use libedi.Loader.Codes.Document.{
  DescribedCode, DescribedCoded, code_info_of, coded_info_of, coded_attributes, value_row,
  coded_row, codes_document,
}
use libedi.Loader.Codes.{
  CodeEntry, CodedEntry, CodesHelper, new_coded, junk_coded, start_codes, codes_tstart, codes_tend,
  codes_cdata, code_text, codes_handlers, coded_path, load_codes,
}
use libedi.Loader.Codes.Fill.{filling_coded, set_coded-filling, ReadyCodes, value-visit}
use libedi.Loader.Rows.{Next, pieces-visit, rows-visit}
use libedi.Loader.Tables.{code_info, coded_info, read_all, read_all-concat}

abbrev between : List CodedEntry → List CodedEntry → CodesHelper
between done rest = record { cv = done ++ rest; cv_index = length done; cc = []; cc_index = 0 }

-- The state with the coded elements `cs` done.
record Ready (cs : List DescribedCoded) (s : CodesHelper) : Type 0 where
  done : List CodedEntry
  rest : List CodedEntry
  is_state : s ≡ between done rest
  is_read : read_all coded_info done ≡ some (map coded_info_of cs)

-- The entry with its values, and the memory behind them.
abbrev coded_entry : Bytes → List CodeEntry → List CodeEntry → CodedEntry
coded_entry el seen rest = record {
  el = set el;
  vals = set (seen ++ rest);
  nvals = set (length seen);
}

start_coded :
    (done rest : List CodedEntry) (r : HasRoom (grow (length done) new_coded (done ++ rest)) done)
    → codes_tstart coded_path (between done rest) ≡ some (filling_coded done r.first r.others [] 0)
unfolding codes_tstart same_text
start_coded done rest r = rw r.is_room

attributes-filling :
    (c : DescribedCoded) (done : List CodedEntry) (e : CodedEntry) (others : List CodedEntry)
    → visit_attributes codes_handlers coded_path
        (coded_attributes c)
        (filling_coded done e others [] 0)
      ≡ some (filling_coded done (record e { el = set c.el }) others [] 0)
unfolding codes_cdata code_text same_text same_prefix
attributes-filling c done e others = in_order c.count_first
  where
    in_order :
        (b : Bool)
        → visit_attributes codes_handlers coded_path
            (if b
              then (codes "count", c.count) ∷ (codes "code", c.el) ∷ []
              else (codes "code", c.el) ∷ (codes "count", c.count) ∷ [])
            (filling_coded done e others [] 0)
          ≡ some (filling_coded done (record e { el = set c.el }) others [] 0)
    in_order true = rw (set_coded-filling done others (λ e. record e { el = set c.el }) e [] 0)
    in_order false = rw (set_coded-filling done others (λ e. record e { el = set c.el }) e [] 0)

values-visit :
    (gaps : Gaps) (el : Bytes) (ds : List DescribedCode) (done : List CodedEntry) (e : CodedEntry)
    (others : List CodedEntry)
    → Next codes_handlers coded_path (ReadyCodes done others el) ds no_node (
        visit codes_handlers coded_path
          (pieces gaps.inside (rows (value_row gaps) gaps.inside ds))
          (filling_coded done (record e { el = set el }) others [] 0))
unfolding codes_cdata same_text same_prefix read_all
values-visit gaps el ds done e others =
    let start = filling_coded done (record e { el = set el }) others [] 0 in
    rw (pieces-visit codes_handlers coded_path (λ t s. refl) gaps.inside) (
      rows-visit codes_handlers coded_path (ReadyCodes done others el) (value_row gaps) gaps.inside
        (λ t s. refl) (value-visit done others gaps el) ds [] start
        (record { entry = e; seen = []; rest = []; is_state = refl; is_read = refl }))

end_coded :
    (el : Bytes) (done : List CodedEntry) (e : CodedEntry) (others : List CodedEntry)
    (seen rest : List CodeEntry)
    → codes_tend coded_path
        (filling_coded done (record e { el = set el }) others (seen ++ rest) (length seen))
      ≡ some (between (done ++ coded_entry el seen rest ∷ []) others)
unfolding codes_tend same_text
end_coded el done e others seen rest =
    let whole : done ++ coded_entry el seen rest ∷ others
        ≡ (done ++ coded_entry el seen rest ∷ []) ++ others =
      sym (append_assoc done (coded_entry el seen rest ∷ []) others) in
    let next : length done + 1 ≡ length (done ++ coded_entry el seen rest ∷ []) =
      omega (arith, length-append done (coded_entry el seen rest ∷ [])) in
    rw
      (
        set_coded-filling done others
            (λ e. record e { vals = set (seen ++ rest); nvals = set (length seen) })
            (record e { el = set el }) (seen ++ rest) (length seen),
        whole,
        next,
      )
      refl

coded_entry-info :
    (c : DescribedCoded) (seen rest : List CodeEntry)
    → read_all code_info seen ≡ some (map code_info_of c.vals)
    → coded_info (coded_entry c.el seen rest) ≡ some (coded_info_of c)
unfolding coded_info
coded_entry-info c seen rest h = rw (take-append seen rest, h)

module _ (gaps : Gaps) where
  open gaps use {before, after}

  coded-visit :
      (c : DescribedCoded) (rest : Nodes) (cs : List DescribedCoded) (s : CodesHelper)
      → Ready cs s
      → Next codes_handlers
          (codes "/coded_values")
          Ready
          (cs ++ c ∷ [])
          rest
          (visit codes_handlers (codes "/coded_values") (coded_row gaps c rest) s)
  unfolding visit
  coded-visit c rest cs s r =
      let room =
        grow-HasRoom junk_coded (replicate 9 junk_coded) (r.done ++ r.rest) r.done
          (record { rest = r.rest; is_filled = refl }) in
      let v = values-visit gaps c.el c.vals r.done room.first room.others in
      let k = v.ready in
      let entry = coded_entry c.el k.seen k.rest in
      record {
        state = between (r.done ++ entry ∷ []) room.others;
        is_run = rw r.is_state (
            simp (
              start_coded r.done r.rest room,
              attributes-filling,
              v.is_run,
              k.is_state,
              end_coded,
            ));
        ready = record {
          done = r.done ++ entry ∷ [];
          rest = room.others;
          is_state = refl;
          is_read =
              read_all-concat coded_info r.done entry (map coded_info_of cs) (coded_info_of c)
                r.is_read (coded_entry-info c k.seen k.rest k.is_read)
              ∙ ap some (sym (map-append coded_info_of cs (c ∷ [])));
        };
      }

  document-visit :
      (count : Bytes) (cs : List DescribedCoded)
      → Next codes_handlers [] Ready cs no_node
          (visit codes_handlers [] (codes_document gaps count cs) start_codes)
  unfolding visit read_all codes_tstart codes_cdata codes_tend same_text same_prefix
  document-visit count cs =
      let p = codes "/coded_values" in
      let last =
        rows-visit codes_handlers p Ready (coded_row gaps) after (λ t s. refl) coded-visit cs []
          start_codes (record { done = []; rest = []; is_state = refl; is_read = refl }) in
      record {
        state = last.state;
        is_run = simp (pieces-visit codes_handlers p (λ t s. refl), last.is_run);
        ready = last.ready;
      }

-- The table of `cs` is loaded.
pub record LoadedCodes (cs : List DescribedCoded) (o : Option (Status × List CodedEntry))
    : Type 0 where
  pub table : List CodedEntry
  pub is_loaded : o ≡ some (loaded, table)
  pub is_read : read_all coded_info table ≡ some (map coded_info_of cs)

-- Where the XML parser finds in a file the document of some coded elements, each value with all of its
-- strings and each text in one piece, and every path in it fits, the loader returns 0 and a table from
-- which just these elements are read, in their order, each with its values.
pub load_codes-LoadedCodes :
    (gaps : Gaps) (count : Bytes) (expat : Expat) (file : Bytes) (old : List CodedEntry)
    (cs : List DescribedCoded)
    → events_in expat file ≡ some (events_of (codes_document gaps count cs))
    → Fit [] (codes_document gaps count cs)
    → LoadedCodes cs (load_codes expat (some file) old)
unfolding load_codes visit
load_codes-LoadedCodes gaps count expat file old cs e fit =
    let v = document-visit gaps count cs in
    let r = v.ready in
    let full : take (length r.done) (r.done ++ r.rest) ≡ r.done = take-append r.done r.rest in
    let parse =
      parse_xml_file-visit expat codes_handlers file (codes_document gaps count cs) start_codes
        (between r.done r.rest) e fit (v.is_run ∙ ap some r.is_state) in
    record { table = r.done; is_loaded = rw (parse, full) refl; is_read = r.is_read }

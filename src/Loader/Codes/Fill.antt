-- ===== src/Loader/Codes/Fill.antt =====
-- How the handlers of libedistruct/struct_loader.c fill the array of the values of one coded element.
use libedi.Base.{
  ℕ, ◌+◌, true, false, List, [], ◌∷◌, ◌++◌, Option, some, ◌≡◌, refl, ap, ◌∙◌, sym, arith, length,
  length-append, map, append_assoc, append-nil, ◌==◌, ==_iff,
}
use mathlib.Core.List.{map-append}
use libedi.Base.Chars.{Bytes, codes, same_text, same_prefix}
use libedi.Loader.Memory.{Cell, set, write_at-append, replicate}
use libedi.Loader.Tree.{Nodes, visit, visit-element, attribute_path}
use libedi.Loader.Document.{Gaps}
use libedi.Loader.Codes.Document.{DescribedCode, code_info_of, value_fields, value_row}
use libedi.Loader.Codes.{
  CodeEntry, CodedEntry, CodesHelper, new_codes, junk_code, set_coded, set_code, grow_codes,
  codes_tstart, codes_tend, codes_cdata, code_text, codes_handlers, coded_path, value_path,
}
use libedi.Loader.Rows.{Next, pieces-visit}
use libedi.Loader.Tables.{code_info, read_all, read_all-concat}

abbrev code_entry : DescribedCode → CodeEntry
code_entry d = record {
  name = set d.name;
  title = set d.title;
  title2 = set d.title2;
  function = set d.function;
}

-- The state while the entry `e` behind `done` is filled.
abbrev pub filling_coded :
    List CodedEntry → CodedEntry → List CodedEntry → List CodeEntry → ℕ → CodesHelper
filling_coded done e others cc k = record {
  cv = done ++ e ∷ others;
  cv_index = length done;
  cc = cc;
  cc_index = k;
}

module _ (done : List CodedEntry) (others : List CodedEntry) where
  -- The state while the value `v` behind `seen` is filled.
  abbrev filling_code : CodedEntry → List CodeEntry → CodeEntry → List CodeEntry → CodesHelper
  filling_code e seen v rest = filling_coded done e others (seen ++ v ∷ rest) (length seen)

  -- There is room for one more value; the entry may lead to another array.
  record GrownCodes (e : CodedEntry) (seen : List CodeEntry) (o : Option CodesHelper) : Type 0 where
    pointer : Cell (List CodeEntry)
    first : CodeEntry
    behind : List CodeEntry
    is_run : o ≡ some (filling_code (record e { vals = pointer }) seen first behind)

  pub set_coded-filling :
      (f : CodedEntry → CodedEntry) (e : CodedEntry) (cc : List CodeEntry) (k : ℕ)
      → set_coded f (filling_coded done e others cc k) ≡ some (filling_coded done (f e) others cc k)
  unfolding set_coded
  set_coded-filling f e cc k = rw (write_at-append f done e others)

  set_code-filling :
      (f : CodeEntry → CodeEntry) (e : CodedEntry) (seen : List CodeEntry) (v : CodeEntry)
      (rest : List CodeEntry)
      → set_code f (filling_code e seen v rest) ≡ some (filling_code e seen (f v) rest)
  unfolding set_code
  set_code-filling f e seen v rest = rw (write_at-append f seen v rest)

  grow_codes-GrownCodes :
      (e : CodedEntry) (seen rest : List CodeEntry)
      → GrownCodes e seen (grow_codes (filling_coded done e others (seen ++ rest) (length seen)))
  unfolding grow_codes
  grow_codes-GrownCodes e seen [] =
      let full : (length seen == length seen) ≡ true = (==_iff _ _).1 refl in
      rw append-nil (record {
        pointer = set (seen ++ new_codes);
        first = junk_code;
        behind = replicate 9 junk_code;
        is_run = rw full (
            set_coded-filling (λ e. record e { vals = set (seen ++ new_codes) }) e
              (seen ++ new_codes) (length seen));
      })
  grow_codes-GrownCodes e seen (v ∷ rest) =
      let longer : (length seen == length (seen ++ v ∷ rest)) ≡ false =
        ground (arith, length-append seen (v ∷ rest)) in
      record { pointer = e.vals; first = v; behind = rest; is_run = rw longer refl }

  fields-visit :
      (gaps : Gaps) (d : DescribedCode) (e : CodedEntry) (seen : List CodeEntry) (v : CodeEntry)
      (rest : List CodeEntry)
      → visit codes_handlers value_path
          (value_fields gaps d)
          (filling_code e seen (record v { name = set d.name }) rest)
        ≡ some (filling_code e seen (code_entry d) rest)
  unfolding visit codes_tstart codes_tend codes_cdata code_text same_text same_prefix
  fields-visit gaps d e seen v rest =
      simp (pieces-visit codes_handlers value_path (λ t s. refl), set_code-filling)

  -- The state with the values `ds` of the coded element `el` done.
  pub record ReadyCodes (el : Bytes) (ds : List DescribedCode) (s : CodesHelper) : Type 0 where
    pub entry : CodedEntry
    pub seen : List CodeEntry
    pub rest : List CodeEntry
    pub is_state :
        s ≡ filling_coded done (record entry { el = set el }) others (seen ++ rest) (length seen)
    pub is_read : read_all code_info seen ≡ some (map code_info_of ds)

  code-filling :
      (t : Bytes) (e : CodedEntry) (seen : List CodeEntry) (v : CodeEntry) (rest : List CodeEntry)
      → codes_cdata (attribute_path value_path (codes "code")) t (filling_code e seen v rest)
        ≡ some (filling_code e seen (record v { name = set t }) rest)
  unfolding codes_cdata code_text same_text same_prefix
  code-filling t e seen v rest = set_code-filling (λ e. record e { name = set t }) e seen v rest

  end_value :
      (e : CodedEntry) (seen : List CodeEntry) (v : CodeEntry) (rest : List CodeEntry)
      → codes_tend value_path (filling_code e seen v rest)
        ≡ some (filling_coded done e others ((seen ++ v ∷ []) ++ rest) (length (seen ++ v ∷ [])))
  unfolding codes_tend same_text
  end_value e seen v rest =
      let whole : seen ++ v ∷ rest ≡ (seen ++ v ∷ []) ++ rest =
        sym (append_assoc seen (v ∷ []) rest) in
      let next : length seen + 1 ≡ length (seen ++ v ∷ []) =
        omega (arith, length-append seen (v ∷ [])) in
      rw (whole, next) refl

  start_value : (s : CodesHelper) → codes_tstart value_path s ≡ grow_codes s
  unfolding codes_tstart same_text
  start_value s = refl

  pub value-visit :
      (gaps : Gaps) (el : Bytes) (d : DescribedCode) (rest : Nodes) (ds : List DescribedCode)
      (s : CodesHelper)
      → ReadyCodes el ds s
      → Next codes_handlers coded_path
          (ReadyCodes el)
          (ds ++ d ∷ [])
          rest
          (visit codes_handlers coded_path (value_row gaps d rest) s)
  unfolding code_info
  value-visit gaps el d rest ds s r =
      let e : CodedEntry = record r.entry { el = set el } in
      let g = grow_codes-GrownCodes e r.seen r.rest in
      let e' : CodedEntry = record e { vals = g.pointer } in
      record {
        state =
            filling_coded done e' others ((r.seen ++ code_entry d ∷ []) ++ g.behind)
              (length (r.seen ++ code_entry d ∷ []));
        is_run = rw r.is_state (
            simp (
              visit-element codes_handlers coded_path (codes "value"),
              start_value,
              g.is_run,
              code-filling,
              fields-visit,
              end_value,
            ));
        ready = record {
          entry = e';
          seen = r.seen ++ code_entry d ∷ [];
          rest = g.behind;
          is_state = refl;
          is_read =
              read_all-concat code_info r.seen (code_entry d) (map code_info_of ds) (code_info_of d)
                r.is_read refl
              ∙ ap some (sym (map-append code_info_of ds (d ∷ [])));
        };
      }

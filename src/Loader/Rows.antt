-- ===== src/Loader/Rows.antt =====
-- Elements one after the other in a document that libedistruct/struct_loader.c reads, each of which
-- makes one entry of a table.
use libedi.Base.{List, [], ◌∷◌, ◌++◌, Option, ◌≡◌, refl, ◌∙◌, sym, append_assoc, append-nil, some}
use libedi.Base.Chars.{Bytes}
use libedi.Loader.Driver.{Handlers}
use libedi.Loader.Tree.{Nodes, no_node, visit}
use libedi.Loader.Document.{pieces, rows}

-- Text that no handler looks at.
abbrev pub Skips : {S : Type 0} → Handlers S → Bytes → Type 0
Skips {S} h p = (t : Bytes) (s : S) → h.on_cdata p t s ≡ some s

module _ {S : Type 0} (h : Handlers S) (p : Bytes) (skipped : Skips h p) where
  pub pieces-visit :
      (gap : List Bytes) (rest : Nodes) (s : S) → visit h p (pieces gap rest) s ≡ visit h p rest s
  unfolding visit
  pieces-visit [] rest s = refl
  pieces-visit (t ∷ ts) rest s = rw (skipped t s, pieces-visit ts rest s)

-- The state behind some entries, of which `Ready` holds, and what is left to do.
pub record Next {S D : Type 0} (h : Handlers S) (p : Bytes) (Ready : List D → S → Type 0)
    (ds : List D) (rest : Nodes) (o : Option S) : Type 0 where
  pub state : S
  pub is_run : o ≡ visit h p rest state
  pub ready : Ready ds state

module _ {S D : Type 0} (h : Handlers S) (p : Bytes) (Ready : List D → S → Type 0)
    (row : D → Nodes → Nodes) (after : List Bytes) (skipped : Skips h p)
    (row-visit : (d : D) (rest : Nodes) (ds : List D) (s : S)
      → Ready ds s
      → Next h p Ready (ds ++ d ∷ []) rest (visit h p (row d rest) s)) where
  pub rows-visit :
      (more ds : List D) (s : S)
      → Ready ds s
      → Next h p Ready (ds ++ more) no_node (visit h p (rows row after more) s)
  rows-visit [] ds s r = record { state = s; is_run = refl; ready = rw append-nil r }
  rows-visit (d ∷ more) ds s r =
      let next = row-visit d (pieces after (rows row after more)) ds s r in
      let last = rows-visit more (ds ++ d ∷ []) next.state next.ready in
      record {
        state = last.state;
        is_run =
            next.is_run
            ∙ pieces-visit h p skipped after (rows row after more) next.state
            ∙ last.is_run;
        ready = rw (sym (append_assoc ds (d ∷ []) more)) last.ready;
      }

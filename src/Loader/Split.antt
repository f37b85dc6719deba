-- ===== src/Loader/Split.antt =====
-- Text that expat hands to libedistruct/struct_loader.c in two pieces, as it does at an entity and at the
-- end of a buffer.
use libedi.Base.{
  ℕ, zero, suc, Bool, true, false, List, [], ◌∷◌, Option, ◌≡◌, refl, ap, sym, ◌∙◌, if◌then◌else◌,
}
use libedi.Base.Chars.{Bytes, codes, same_text}
use libedi.Loader.Memory.{◌>>=◌, >>=_assoc, set, write_at}
use libedi.Loader.Segments.{
  Entry, SegmentsHelper, set_entry, segments_text, segments_cdata, is_below, below,
  segments_handlers,
}
use libedi.Loader.Elements.{
  ElementEntry, ElementsHelper, set_element, elements_cdata, elements_handlers, is_one,
}
use libedi.Loader.Tree.{Nodes, piece, visit}

write_at-compose {ℓ} :
    {A : Type ℓ} (i : ℕ) (f g : A → A) (xs : List A)
    → (write_at i f xs >>= write_at i g) ≡ write_at i (λ a. g (f a)) xs
unfolding write_at
write_at-compose i f g [] = refl
write_at-compose zero f g (x ∷ xs) = refl
write_at-compose (suc i) f g (x ∷ xs) = simp (>>=_assoc, sym (write_at-compose i f g xs))

set_entry-compose :
    (f g : Entry → Entry) (s : SegmentsHelper)
    → (set_entry f s >>= set_entry g) ≡ set_entry (λ e. g (f e)) s
unfolding set_entry
set_entry-compose f g s = simp (>>=_assoc, sym (write_at-compose s.index f g s.segs))

set_element-compose :
    (f g : ElementEntry → ElementEntry) (s : ElementsHelper)
    → (set_element f s >>= set_element g) ≡ set_element (λ e. g (f e)) s
unfolding set_element
set_element-compose f g s = simp (>>=_assoc, sym (write_at-compose s.index f g s.elems))

-- The same branch is taken twice.
branch-twice :
    {S : Type 0} (b : Bool) (o o' : Option S) (f g : S → Option S) (s : S)
    → (o >>= f) ≡ f s
    → (o' >>= g) ≡ g s
    → ((if b then o else o') >>= λ s. if b then f s else g s) ≡ (if b then f s else g s)
branch-twice true o o' f g s e e' = e
branch-twice false o o' f g s e e' = e'

segments_text-twice :
    (p t u : Bytes) (s : SegmentsHelper)
    → same_text p (codes "/children/child") ≡ false
    → (segments_text p t s >>= segments_text p u) ≡ segments_text p u s
unfolding segments_text
segments_text-twice p t u s h =
    branch-twice (same_text p (codes "/@code")) _ _ _ _ s
      (set_entry-compose (λ e. record e { name = set t }) (λ e. record e { name = set u }) s)
      (branch-twice (same_text p (codes "/title1")) _ _ _ _ s
        (set_entry-compose (λ e. record e { title = set t }) (λ e. record e { title = set u }) s)
        (branch-twice (same_text p (codes "/title2")) _ _ _ _ s
          (set_entry-compose (λ e. record e { title2 = set t }) (λ e. record e { title2 = set u })
            s)
          (branch-twice (same_text p (codes "/function")) _ _ _ _ s
            (set_entry-compose (λ e. record e { function = set t })
              (λ e. record e { function = set u }) s)
            (rw h refl))))

segments_cdata-twice :
    (base p t u : Bytes) (s : SegmentsHelper)
    → same_text (below base p) (codes "/children/child") ≡ false
    → (segments_cdata base p t s >>= segments_cdata base p u) ≡ segments_cdata base p u s
unfolding segments_cdata
segments_cdata-twice base p t u s h =
    branch-twice (is_below base p) _ _ _ _ s (segments_text-twice (below base p) t u s h) refl

elements_cdata-twice :
    (p t u : Bytes) (s : ElementsHelper)
    → (elements_cdata p t s >>= elements_cdata p u) ≡ elements_cdata p u s
unfolding elements_cdata
elements_cdata-twice p t u s =
    branch-twice (same_text p (codes "/elements/element/@code")) _ _ _ _ s
      (set_element-compose (λ e. record e { name = set t }) (λ e. record e { name = set u }) s)
      (branch-twice (same_text p (codes "/elements/element/title1")) _ _ _ _ s
        (set_element-compose (λ e. record e { title = set t }) (λ e. record e { title = set u }) s)
        (branch-twice (same_text p (codes "/elements/element/title2")) _ _ _ _ s
          (set_element-compose (λ e. record e { title2 = set t }) (λ e. record e { title2 = set u })
            s)
          (branch-twice (same_text p (codes "/elements/element/function")) _ _ _ _ s
            (set_element-compose (λ e. record e { function = set t })
              (λ e. record e { function = set u }) s)
            (branch-twice (same_text p (codes "/elements/element/format")) _ _ _ _ s
              (set_element-compose (λ e. record e { format = set t })
                (λ e. record e { format = set u }) s)
              (branch-twice (same_text p (codes "/elements/element/is_coded")) _ _ _ _ s
                (set_element-compose (λ e. record e { is_coded = set (is_one t) })
                  (λ e. record e { is_coded = set (is_one u) }) s)
                refl)))))

-- Of a text that comes in two pieces, at any path but that of a child, the loaders of segments,
-- composites and elements keep the second piece only: the document is loaded as if the first were not
-- there.
pub split_text-visit :
    (base p t u : Bytes) (rest : Nodes)
    → same_text (below base p) (codes "/children/child") ≡ false
    → ((s : SegmentsHelper)
        → visit (segments_handlers base) p (piece t (piece u rest)) s
          ≡ visit (segments_handlers base) p (piece u rest) s)
      × ((s : ElementsHelper)
          → visit elements_handlers p (piece t (piece u rest)) s
            ≡ visit elements_handlers p (piece u rest) s)
unfolding visit
split_text-visit base p t u rest h = (
  λ s.
      sym (>>=_assoc (segments_cdata base p t s) _ _)
      ∙ ap (λ o. o >>= visit (segments_handlers base) p rest) (segments_cdata-twice base p t u s h),
  λ s.
      sym (>>=_assoc (elements_cdata p t s) _ _)
      ∙ ap (λ o. o >>= visit elements_handlers p rest) (elements_cdata-twice p t u s),
)

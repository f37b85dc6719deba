-- ===== src/Loader/Segments/Paths.antt =====
-- The handlers of libedistruct/struct_loader.c for segments and composites, at paths that are written
-- behind the base path, and in front of it.
use libedi.Base.{
  ℕ, true, false, [], ◌∷◌, ◌++◌, some, ◌≡◌, refl, arith, length, drop, drop-append, if◌then◌else◌,
}
use libedi.Base.Chars.{Bytes, codes, same_text, same_prefix}
use libedi.Loader.Memory.{◌>>=◌, >>=-some}
use libedi.Loader.Tree.{Nodes, no_node, element, piece, visit}
use libedi.Loader.Segments.{
  SegmentsHelper, segments_tstart, segments_tend, segments_cdata, segments_text, end_children,
  segments_handlers, is_below,
}

pub same_text-append : (a : Bytes) (x : ℕ) (b : Bytes) → same_text (a ++ x ∷ b) a ≡ false
unfolding same_text
same_text-append [] x b = refl
same_text-append (y ∷ a) x b = ground (arith, same_text-append a x b)

pub same_text_prefix : (a : Bytes) (x : ℕ) (b : Bytes) → same_text a (a ++ x ∷ b) ≡ false
unfolding same_text
same_text_prefix [] x b = refl
same_text_prefix (y ∷ a) x b = ground (arith, same_text_prefix a x b)

pub same_prefix-append : (a b : Bytes) → same_prefix (length a) (a ++ b) a ≡ true
unfolding same_prefix
same_prefix-append [] b = refl
same_prefix-append (y ∷ a) b = ground (arith, same_prefix-append a b)

pub same_prefix_shorter :
    (a : Bytes) (x : ℕ) (b : Bytes) → same_prefix (length (a ++ x ∷ b)) a (a ++ x ∷ b) ≡ false
unfolding same_prefix
same_prefix_shorter [] x b = refl
same_prefix_shorter (y ∷ a) x b = ground (arith, same_prefix_shorter a x b)

same_prefix_self : (a : Bytes) → same_prefix (length a) a a ≡ true
unfolding same_prefix
same_prefix_self [] = refl
same_prefix_self (y ∷ a) = ground (arith, same_prefix_self a)

-- Behind a common prefix.
pub same_prefix_behind :
    (p : Bytes) (x : ℕ) (a b : Bytes)
    → same_prefix (length b) a b ≡ false
    → same_prefix (length (p ++ x ∷ b)) (p ++ x ∷ a) (p ++ x ∷ b) ≡ false
unfolding same_prefix
same_prefix_behind [] x a b h = ground (arith, h)
same_prefix_behind (y ∷ p) x a b h = ground (arith, same_prefix_behind p x a b h)

drop_all : (a : Bytes) → drop (length a) a ≡ []
drop_all [] = refl
drop_all (x ∷ a) = drop_all a

-- Behind the base path.
module _ (base : Bytes) (x : ℕ) (suffix : Bytes) where
  pub segments_tstart_below :
      (s : SegmentsHelper) → segments_tstart base (base ++ x ∷ suffix) s ≡ some s
  unfolding segments_tstart
  segments_tstart_below s = rw (same_text-append base x suffix)

  is_below_behind : is_below base (base ++ x ∷ suffix) ≡ true
  unfolding is_below
  is_below_behind = same_prefix-append base (x ∷ suffix)

  pub segments_tend_below :
      (s : SegmentsHelper)
      → segments_tend base (base ++ x ∷ suffix) s
        ≡ (if same_text (x ∷ suffix) (codes "/children") then end_children s else some s)
  unfolding segments_tend
  segments_tend_below s =
      rw (same_text-append base x suffix, is_below_behind, drop-append base (x ∷ suffix))

  pub segments_cdata_below :
      (t : Bytes) (s : SegmentsHelper)
      → segments_cdata base (base ++ x ∷ suffix) t s ≡ segments_text (x ∷ suffix) t s
  unfolding segments_cdata
  segments_cdata_below t s = rw (is_below_behind, drop-append base (x ∷ suffix))

-- In front of it.
module _ (path : Bytes) (x : ℕ) (suffix : Bytes) where
  pub segments_tstart_above :
      (s : SegmentsHelper) → segments_tstart (path ++ x ∷ suffix) path s ≡ some s
  unfolding segments_tstart
  segments_tstart_above s = rw (same_text_prefix path x suffix)

  pub segments_tend_above :
      (s : SegmentsHelper) → segments_tend (path ++ x ∷ suffix) path s ≡ some s
  unfolding segments_tend is_below
  segments_tend_above s = rw (same_text_prefix path x suffix, same_prefix_shorter path x suffix)

  pub segments_cdata_above :
      (t : Bytes) (s : SegmentsHelper) → segments_cdata (path ++ x ∷ suffix) path t s ≡ some s
  unfolding segments_cdata is_below
  segments_cdata_above t s = rw (same_prefix_shorter path x suffix)

module _ (base : Bytes) where
  -- The text between the fields of a segment.
  pub segments_cdata_at : (t : Bytes) (s : SegmentsHelper) → segments_cdata base base t s ≡ some s
  unfolding segments_cdata is_below segments_text same_text
  segments_cdata_at t s = rw (same_prefix_self base, drop_all base)

  -- An element of a segment with one piece of text in it.
  pub leaf-visit :
      (n t : Bytes) (rest : Nodes) (s : SegmentsHelper)
      → same_text (b'/' ∷ n) (codes "/children") ≡ false
      → visit (segments_handlers base) base (element n [] (piece t no_node) rest) s
        ≡ (segments_text (b'/' ∷ n) t s >>= visit (segments_handlers base) base rest)
  unfolding visit
  leaf-visit n t rest s other = simp (
    segments_tstart_below base b'/' n,
    segments_cdata_below base b'/' n,
    segments_tend_below base b'/' n,
    other,
    >>=-some,
  )

-- ===== src/Loader/Depth.antt =====
-- Paths of libedistruct/struct_loader.c that do not fit into their array.
use libedi.Base.{
  ℕ, ◌+◌, ◌≤◌, false, List, ◌∷◌, ◌++◌, Option, none, ◌≡◌, refl, ap, ◌∙◌, ltb→lt, arith, length,
  length-append, length-take, ge→ltb, Bool-cases, inl, inr, take, min, ltb,
}
use libedi.Base.Chars.{Bytes, codes}
use libedi.Loader.Memory.{◌>>=◌}
use libedi.Loader.Driver.{xpath_max, Handlers, strncat, start_element}
use libedi.Loader.Tree.{child_path, strncat_fits}

ltb_false→ge : (a b : ℕ) → ltb a b ≡ false → b ≤ a
ltb_false→ge a b h = ground (arith, h)

strncat_overflow : (p s : Bytes) → 512 ≤ length p + length s → strncat p s ≡ none
unfolding strncat
strncat_overflow p s h =
    let len : length (p ++ take 512 s) ≡ length p + min 512 (length s) =
      length-append p (take 512 s) ∙ ap (λ k. length p + k) (length-take 512 s) in
    let over : ltb (length (p ++ take 512 s)) 512 ≡ false = ge→ltb _ _ (omega (arith, len, h)) in
    rw over refl

-- The path of an element too deep does not fit, with the slash already or with the name.
child_overflow :
    {B : Type 0} (f : Bytes → Option B) (p n : Bytes)
    → xpath_max ≤ length (child_path p n)
    → (strncat p (codes "/") >>= λ q. strncat q n >>= f) ≡ none
child_overflow f p n long =
    let parts : length (child_path p n) ≡ length p + 1 + length n =
      omega (arith, length-append p (b'/' ∷ n)) in
    let slash = length-append p (codes "/") in
    elim (Bool-cases (ltb (length (p ++ codes "/")) xpath_max)) [
      | inl e ↦ rw (strncat_fits p (codes "/") (ltb→lt _ _ e)) (
          ap (λ o. o >>= f)
            (strncat_overflow (p ++ codes "/") n (omega (arith, slash, parts, long))))
      | inr e ↦ rw (strncat_overflow p (codes "/") (omega (arith, slash, ltb_false→ge _ _ e))) refl
    ]

module _ {S : Type 0} (h : Handlers S) where
  -- The start of an element whose path, its NUL included, is longer than the array for it is
  -- undefined behaviour, whatever the handlers do: the sizes given to strncat do not keep it inside.
  pub start_element-overflow :
      (p n : Bytes) (attrs : List (Bytes × Bytes)) (s : S)
      → xpath_max ≤ length (child_path p n)
      → start_element h n attrs (record { path = p; user = s }) ≡ none
  unfolding start_element
  start_element-overflow p n attrs s long = child_overflow _ p n long

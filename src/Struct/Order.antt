-- ===== src/Struct/Order.antt =====
-- `strcmp`, as libedistruct/lookup.c uses it, orders the strings.
use Prim.Native.Nat.{Ordering}
use libedi.Base.{[], ◌∷◌, ◌≡◌, refl, arith}
use libedi.Base.Chars.{Bytes}
use libedi.Struct.Lookup.{strcmp}

pub strcmp-eq : (a b : Bytes) → strcmp a b ≡ Ordering.eq → a ≡ b
unfolding strcmp
strcmp-eq [] [] h = refl
strcmp-eq [] (y ∷ b) h = cc
strcmp-eq (x ∷ a) [] h = cc
strcmp-eq (x ∷ a) (y ∷ b) h = ground (arith, strcmp-eq a b)

pub strcmp_self : (a : Bytes) → strcmp a a ≡ Ordering.eq
unfolding strcmp
strcmp_self [] = refl
strcmp_self (x ∷ a) = ground (arith, strcmp_self a)

pub strcmp-gt : (a b : Bytes) → strcmp a b ≡ Ordering.gt → strcmp b a ≡ Ordering.lt
unfolding strcmp
strcmp-gt [] [] h = cc
strcmp-gt [] (y ∷ b) h = cc
strcmp-gt (x ∷ a) [] h = refl
strcmp-gt (x ∷ a) (y ∷ b) h = ground (arith, strcmp-gt a b)

pub strcmp_trans :
    (a b c : Bytes) → strcmp a b ≡ Ordering.lt → strcmp b c ≡ Ordering.lt → strcmp a c ≡ Ordering.lt
unfolding strcmp
strcmp_trans [] [] c h k = cc
strcmp_trans [] (y ∷ b) [] h k = cc
strcmp_trans [] (y ∷ b) (z ∷ c) h k = refl
strcmp_trans (x ∷ a) [] c h k = cc
strcmp_trans (x ∷ a) (y ∷ b) [] h k = cc
strcmp_trans (x ∷ a) (y ∷ b) (z ∷ c) h k = ground (arith, strcmp_trans a b c)

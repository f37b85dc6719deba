-- ===== src/Loader/Memory.antt =====
-- The arrays and strings that the handlers of libedistruct/struct_loader.c fill, and calls in a row
-- any of which may be undefined behaviour.
use libedi.Base.{
  ℕ, zero, suc, List, [], ◌∷◌, ◌++◌, Option, none, some, ◌≡◌, refl, ap, ◌∙◌, sym, arith, length,
  length-append, append-nil, ◌==◌, if◌then◌else◌, ==_iff, true, false,
}

-- `none` is undefined behaviour: a write outside of an array.
infixl 5 ◌>>=◌
abbrev pub ◌>>=◌ {ℓ κ} : {A : Type ℓ} {B : Type κ} → Option A → (A → Option B) → Option B
none >>= f = none
some a >>= f = f a

pub >>=_assoc {ℓ κ ι} :
    {A : Type ℓ} {B : Type κ} {C : Type ι} (o : Option A) (f : A → Option B) (g : B → Option C)
    → ((o >>= f) >>= g) ≡ (o >>= λ a. f a >>= g)
>>=_assoc none f g = refl
>>=_assoc (some a) f g = refl

pub >>=-some {ℓ} : {A : Type ℓ} (o : Option A) → (o >>= λ a. some a) ≡ o
>>=-some none = refl
>>=-some (some a) = refl

-- A field that was cleared, one of memory that was not cleared, or one that was set.
pub data Cell {ℓ} (A : Type ℓ) : Type ℓ where
  null junk : Cell A
  set : A → Cell A

-- `n` copies.
abbrev pub replicate {ℓ} : {A : Type ℓ} → ℕ → A → List A
replicate zero x = []
replicate (suc n) x = x ∷ replicate n x

-- `a[i]` changed; `none` is a write outside of the array.
unfoldable pub write_at {ℓ} : {A : Type ℓ} → ℕ → (A → A) → List A → Option (List A)
write_at i f [] = none
write_at zero f (x ∷ xs) = some (f x ∷ xs)
write_at (suc i) f (x ∷ xs) = write_at i f xs >>= λ ys. some (x ∷ ys)

-- `if(index == alloc) { alloc += …; a = realloc(a, …); }`, where `alloc` is the length of the array.
unfoldable pub grow {ℓ} : {A : Type ℓ} → ℕ → List A → List A → List A
grow index blanks xs = if index == length xs then xs ++ blanks else xs

module _ {ℓ} {A : Type ℓ} where
  -- Behind a write at the end of what is filled, one more entry is.
  pub record Filled (xs : List A) (front : List A) : Type ℓ where
    pub rest : List A
    pub is_filled : xs ≡ front ++ rest

  pub write_at-append :
      (f : A → A) (xs : List A) (y : A) (ys : List A)
      → write_at (length xs) f (xs ++ y ∷ ys) ≡ some (xs ++ f y ∷ ys)
  unfolding write_at
  write_at-append f [] y ys = refl
  write_at-append f (x ∷ xs) y ys = rw (write_at-append f xs y ys)

  -- Room for one more entry behind the filled ones.
  pub record HasRoom (xs : List A) (front : List A) : Type ℓ where
    pub first : A
    pub others : List A
    pub is_room : xs ≡ front ++ first ∷ others

  pub grow-HasRoom :
      (b : A) (bs : List A) (xs front : List A)
      → Filled xs front
      → HasRoom (grow (length front) (b ∷ bs) xs) front
  unfolding grow
  grow-HasRoom b bs xs front f = by_rest f.rest f.is_filled
    where
      by_rest :
          (rest : List A)
          → xs ≡ front ++ rest
          → HasRoom (if length front == length xs then xs ++ b ∷ bs else xs) front
      by_rest [] e =
          let q : xs ≡ front = e ∙ append-nil front in
          let same : (length front == length xs) ≡ true = (==_iff _ _).1 (sym (ap length q)) in
          rw same (record { first = b; others = bs; is_room = ap (λ t. t ++ b ∷ bs) q })
      by_rest (c ∷ cs) e =
          let longer : (length front == length xs) ≡ false =
            ground (arith, ap length e, length-append front (c ∷ cs)) in
          rw longer (record { first = c; others = cs; is_room = e })

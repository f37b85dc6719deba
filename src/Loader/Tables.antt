-- ===== src/Loader/Tables.antt =====
-- The arrays that libedistruct/struct_loader.c fills, as libedistruct/lookup.c reads them.
use libedi.Base.{
  Bool, false, take, List, [], ◌∷◌, ◌++◌, Option, none, some, ◌≡◌, refl, ap, ◌∙◌, map,
}
use libedi.Base.Chars.{Bytes}
use libedi.Struct.Tables.{SegmentInfo, ElementInfo, Coded, CodedElements}
use libedi.Loader.Memory.{◌>>=◌, >>=_assoc, Cell, null, junk, set, Filled}
use libedi.Loader.Segments.{Slot, Entry}
use libedi.Loader.Elements.{ElementEntry}
use libedi.Loader.Codes.{CodeEntry, CodedEntry}

-- A string that may be NULL; memory that was not set cannot be read.
abbrev pub string_of : Cell Bytes → Option (Option Bytes)
string_of null = some none
string_of junk = none
string_of (set s) = some (some s)

-- What a pointer leads to.
abbrev pub pointed {ℓ} : {A : Type ℓ} → Cell A → Option A
pointed null = none
pointed junk = none
pointed (set a) = some a

-- The strings of an array up to its NULL.
unfoldable pub strings_of : List Slot → Option (List Bytes)
strings_of [] = none
strings_of (null ∷ slots) = some []
strings_of (junk ∷ slots) = none
strings_of (set s ∷ slots) = strings_of slots >>= λ ss. some (s ∷ ss)

unfoldable pub entry_info : Entry → Option SegmentInfo
unfolding strings_of
entry_info e = do
  name ← pointed e.name
  title ← string_of e.title
  title2 ← string_of e.title2
  function ← string_of e.function
  slots ← pointed e.children
  children ← strings_of slots
  some (record {
    name = name;
    title = title;
    title2 = title2;
    function = function;
    children = children;
  })

-- `is_coded` as libedistruct/lookup.c's callers read it: 0 or 1.
abbrev flag_of : Cell Bool → Option Bool
flag_of null = some false
flag_of junk = none
flag_of (set b) = some b

unfoldable pub element_info : ElementEntry → Option ElementInfo
element_info e = do
  name ← pointed e.name
  title ← string_of e.title
  title2 ← string_of e.title2
  function ← string_of e.function
  format ← string_of e.format
  is_coded ← flag_of e.is_coded
  some (record {
    name = name;
    title = title;
    title2 = title2;
    function = function;
    format = format;
    is_coded = is_coded;
  })

-- `edistruct_coded_t` as it is read.
unfoldable pub code_info : CodeEntry → Option Coded
code_info e = do
  name ← pointed e.name
  title ← string_of e.title
  title2 ← string_of e.title2
  function ← string_of e.function
  some (record { name = name; title = title; title2 = title2; function = function })

-- A table of entries, each of which can be read.
unfoldable pub read_all {ℓ κ} :
    {A : Type ℓ} {B : Type κ} → (A → Option B) → List A → Option (List B)
read_all f [] = some []
read_all f (x ∷ xs) = f x >>= λ y. read_all f xs >>= λ ys. some (y ∷ ys)

-- As many values are there as the entry counts.
unfoldable pub coded_info : CodedEntry → Option CodedElements
unfolding code_info read_all
coded_info e = do
  el ← pointed e.el
  cc ← pointed e.vals
  n ← pointed e.nvals
  vals ← read_all code_info (take n cc)
  some (record { el = el; vals = vals })

read_all-append {ℓ κ} :
    {A : Type ℓ} {B : Type κ} (f : A → Option B) (xs : List A) (x : A) (y : B)
    → f x ≡ some y
    → read_all f (xs ++ x ∷ []) ≡ (read_all f xs >>= λ ys. some (ys ++ y ∷ []))
unfolding read_all
read_all-append f [] x y h = rw h
read_all-append f (z ∷ xs) x y h = simp (>>=_assoc, read_all-append f xs x y h)

pub read_all-concat {ℓ κ} :
    {A : Type ℓ} {B : Type κ} (f : A → Option B) (xs : List A) (x : A) (ys : List B) (y : B)
    → read_all f xs ≡ some ys
    → f x ≡ some y
    → read_all f (xs ++ x ∷ []) ≡ some (ys ++ y ∷ [])
read_all-concat f xs x ys y e h =
    read_all-append f xs x y h ∙ ap (λ o. o >>= λ zs. some (zs ++ y ∷ [])) e

strings_of_listed :
    (ds : List Bytes) (rest : List Slot) → strings_of ((map set ds ++ null ∷ []) ++ rest) ≡ some ds
unfolding strings_of
strings_of_listed [] rest = refl
strings_of_listed (d ∷ ds) rest = rw (strings_of_listed ds rest)

pub strings_of-Filled :
    (cs : List Bytes) (slots : List Slot)
    → Filled slots (map set cs ++ null ∷ [])
    → strings_of slots ≡ some cs
strings_of-Filled cs slots f = ap strings_of f.is_filled ∙ strings_of_listed cs f.rest

-- ===== src/Base/Chars.antt =====
-- Bytes of C strings, as `char` is compared with the `int` and `unsigned char` separators of the
-- library. `char` is signed, as on the x86 targets of the build files: a byte from 128 on is
-- promoted to a negative `int`, and so equals no separator.
use Prim.Native.Nat.{ℕ, zero, suc, ◌<◌}
use Prim.Native.Char.{code}
use Prim.Native.String.{String}
use mathlib.Core.Path.{◌≡◌, refl}
use mathlib.Core.Logic.{◌≢◌}
use mathlib.Core.Bool.{Bool, true, false, ◌&&◌}
use mathlib.Core.List.{List, [], ◌∷◌}
use native.Mathlib.Omega.{arith}
use libedi.Base.Tests.{ltb, ◌==◌}
use libedi.Base.Lists.{All}

-- The bytes of a C string before its NUL.
abbrev pub Bytes : Type 0
Bytes = List ℕ

-- The code points of a literal; every literal of the development is ASCII.
abbrev pub codes : String → Bytes
codes String.[] = []
codes (String.◌∷◌ c s) = code c ∷ codes s

-- `*p == k`, for a `char *p` and a separator `k`.
unfoldable pub char_is : ℕ → ℕ → Bool
char_is c k = ltb c 128 && c == k

pub char_is-eq : (c k : ℕ) → char_is c k ≡ true → c ≡ k
unfolding char_is
char_is-eq c k h = ground arith

pub char_is-ne : (c k : ℕ) → c ≢ k → char_is c k ≡ false
unfolding char_is
char_is-ne c k h = ground arith

pub char_is_self : (k : ℕ) → k < 128 → char_is k k ≡ true
unfolding char_is
char_is_self k h = ground arith

-- `*p`, at the start of what is left of a string: the NUL at its end.
abbrev pub peek : Bytes → ℕ
peek [] = 0
peek (c ∷ cs) = c

-- `strcmp(a, b) == 0`
unfoldable pub same_text : Bytes → Bytes → Bool
same_text [] [] = true
same_text (x ∷ xs) (y ∷ ys) = x == y && same_text xs ys
same_text _ _ = false

pub same_text-eq : (a b : Bytes) → same_text a b ≡ true → a ≡ b
unfolding same_text
same_text-eq (x ∷ xs) (y ∷ ys) h = ground (arith, same_text-eq xs ys)
same_text-eq _ _ h = ground arith

pub same_text_self : (a : Bytes) → same_text a a ≡ true
unfolding same_text
same_text_self [] = refl
same_text_self (x ∷ xs) = ground (arith, same_text_self xs)

-- `strncmp(a, b, n) == 0`
unfoldable pub same_prefix : ℕ → Bytes → Bytes → Bool
same_prefix zero a b = true
same_prefix (suc n) [] [] = true
same_prefix (suc n) (x ∷ a) (y ∷ b) = x == y && same_prefix n a b
same_prefix (suc n) _ _ = false

-- A C string holds no NUL before its end.
abbrev pub IsText : Bytes → Type 0
IsText = All (λ c. c ≢ 0)

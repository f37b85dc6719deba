-- ===== src/Xml/Tokens.antt =====
-- What libedixml/conv.c writes, as the calls of `output` in it, and `escape_xml` of
-- libedixml/output.c for text that no character set is converted for.
use libedi.Base.{
  ℕ, ◌≡◌, true, false, ◌+◌, Bool, List, [], ◌∷◌, ◌++◌, Option, none, some, ◌==◌, length,
  if◌then◌else◌,
}
use libedi.Base.Chars.{Bytes, codes}

-- `struct edi2xml_config`, and whether `size_t` is as wide as `int`, so that `%d` and `%u` print one.
pub record Config : Type 0 where
  pub comments_segment_names : Bool
  pub comments_coded_values : Bool
  pub comments_element_names : Bool
  pub comments_errors : Bool
  pub translate_coded_values : Bool
  pub translate_coded_to_elements : Bool
  pub size_is_int : Bool

-- A piece of the output: `<%s>`, `</%s>`, `<%s />`, `<X:coded code="%s">`, a comment and text, and
-- a tag with attributes; and where a call of `output` starts, with whether its format takes arguments.
pub data Token : Type 0 where
  open_tag close_tag empty_tag coded_tag comment text : Bytes → Token
  open_with : Bytes → Bytes → Token
  call : Bool → Token

abbrev pub print_token : Token → Bytes
print_token (open_tag n) = codes "<" ++ (n ++ codes ">")
print_token (close_tag n) = codes "</" ++ (n ++ codes ">")
print_token (empty_tag n) = codes "<" ++ (n ++ codes " />")
print_token (coded_tag v) = codes "<X:coded code=\"" ++ (v ++ codes "\">")
print_token (comment c) = codes "<!-- " ++ (c ++ codes " -->")
print_token (text t) = t
print_token (call args) = []
print_token (open_with n a) = codes "<" ++ (n ++ (codes " " ++ (a ++ codes ">")))

abbrev pub print : List Token → Bytes
print [] = []
print (t ∷ ts) = print_token t ++ print ts

-- What a call writes and returns; `none` stands for undefined behaviour, a NULL pointer that is
-- followed or printed, or a read outside of an array.
abbrev pub Ran {ℓ} : Type ℓ → Type ℓ
Ran A = Option (List Token × A)

abbrev pub behind {ℓ} : {A : Type ℓ} → List Token → Ran A → Ran A
behind ts none = none
behind ts (some (us, a)) = some (ts ++ us, a)

-- Two calls in a row.
unfoldable pub and_then {ℓ κ} : {A : Type ℓ} {B : Type κ} → Ran A → (A → Ran B) → Ran B
and_then none f = none
and_then (some (ts, a)) f = behind ts (f a)

abbrev pub returns {ℓ} : {A : Type ℓ} → A → Ran A
returns a = some ([], a)

-- A call of `output` whose format takes arguments, and one without. What the calls come to where they
-- lead is in Sink.
abbrev pub output : List Token → Ran (Unit {0})
output ts = some (call true ∷ ts, tt)

abbrev pub output_plain : List Token → Ran (Unit {0})
output_plain ts = some (call false ∷ ts, tt)

abbrev pub newline : Token
newline = text (codes "\n")

-- A string that is read.
abbrev pub string : Option Bytes → Ran Bytes
string none = none
string (some s) = returns s

-- `error`: nothing is written to the output unless errors are written as comments. Then the
-- arguments are read a second time from a `va_list` that is used up, which is undefined.
unfoldable pub error : Config → Ran (Unit {0})
error opts = if opts.comments_errors then none else returns tt

-- `error` with a number of elements, which is a `size_t`, for a `%d`.
unfoldable pub error_counting : Config → Ran (Unit {0})
unfolding error
error_counting opts = if opts.size_is_int then error opts else none

-- Errors are not written as comments, and numbers of elements can be printed.
pub record IsQuiet (opts : Config) : Type 0 where
  pub no_comments : opts.comments_errors ≡ false
  pub counts : opts.size_is_int ≡ true

-- The bytes that the loop of `escape_xml` writes for one byte.
unfoldable pub escape_char : ℕ → Bytes
escape_char c = if c == b'<' then codes "&lt;" else if c == b'&' then codes "&amp;" else c ∷ []

-- What the loop adds to the size of the block.
unfoldable pub extra : ℕ → ℕ
extra c = if c == b'<' then 4 else if c == b'&' then 5 else 0

-- The loop: the block's size, and what is written to it so far.
unfoldable pub escape_loop : ℕ × Bytes → Bytes → ℕ × Bytes
unfolding escape_char extra
escape_loop (len, r) [] = (len, r)
escape_loop (len, r) (c ∷ src) = escape_loop (len + extra c, r ++ escape_char c) src

-- `escape_xml`
unfoldable pub escape_xml : Bytes → Bytes
unfolding escape_loop
escape_xml src = (escape_loop (length src + 1, []) src).1

-- ===== src/Parse/Scan.antt =====
-- The innermost loop of `edi_parser_parse` in libedi/parse.c, which finds the end of one value,
-- and `memcpyescape`, which copies it without its escape characters.
use libedi.Base.{ℕ, Bool, true, false, not, ◌&&◌, ◌||◌, [], ◌∷◌, ◌==◌, if◌then◌else◌}
use libedi.Base.Chars.{Bytes, char_is}
use libedi.Interchange.{Parser}

-- `escape && *src == escape`
unfoldable pub is_escape : ℕ → ℕ → Bool
is_escape escape c = not (escape == 0) && char_is c escape

-- The test that ends a value at `c`; the flag is `seg->elements == el`.
unfoldable pub ends_value : Parser → Bool → ℕ → Bool
ends_value p first c =
    char_is c p.sep_sub
    || (not first && char_is c p.sep_data)
    || (first && char_is c p.sep_tag)
    || char_is c p.sep_seg

abbrev pub before : ℕ → Bytes × Bytes → Bytes × Bytes
before c (token, rest) = (c ∷ token, rest)

-- The loop: the bytes from `ts` up to `message`, and what is left at `message`. The second flag
-- is `e`, which is set behind an escape character.
unfoldable pub scan : Parser → Bool → Bool → Bytes → Bytes × Bytes
scan p first e [] = ([], [])
scan p first true (c ∷ m) = before c (scan p first false m)
scan p first false (c ∷ m) =
    if not (is_escape p.escape c) && ends_value p first c
    then ([], c ∷ m)
    else before c (scan p first (is_escape p.escape c) m)

-- `memcpyescape`: the bytes copied to `dest`; the flag is its `e`.
unfoldable pub memcpyescape : ℕ → Bool → Bytes → Bytes
memcpyescape escape e [] = []
memcpyescape escape true (c ∷ src) = c ∷ memcpyescape escape false src
memcpyescape escape false (c ∷ src) = elim (is_escape escape c) [
  | true ↦ memcpyescape escape true src
  | false ↦ c ∷ memcpyescape escape false src
]

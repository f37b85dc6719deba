-- ===== src/Build/Buffer.antt =====
-- The output buffer of `edi_interchange_build` in libedi/build.c, and `addescaped`.
use libedi.Base.{
  ℕ, ◌+◌, Bool, false, not, ◌&&◌, ◌||◌, [], ◌∷◌, ◌++◌, ◌==◌, leb, max, length, if◌then◌else◌,
}
use libedi.Base.Chars.{Bytes, char_is}
use libedi.Params.{Params}

-- The buffer: `text` holds the bytes before `bufpos`, so `bufpos` is its length; `high` is one
-- more than the highest index written so far, and `overread` is set by a read behind the end of a
-- format string.
pub record Out : Type 0 where
  pub text : Bytes
  pub high : ℕ
  pub overread : Bool

abbrev pub start_out : Out
start_out = record { text = []; high = 0; overread = false }

-- `bufpos >= buflen`
abbrev pub full : ℕ → Out → Bool
full buflen o = leb buflen (length o.text)

-- `*buf = c; buf++; bufpos++;`
unfoldable pub put : ℕ → Out → Out
put c o = record o { text = o.text ++ c ∷ []; high = max o.high (length o.text + 1) }

-- `*buf = 0;`
unfoldable pub put_nul : Out → Out
put_nul o = record o { high = max o.high (length o.text + 1) }

-- `if(bufpos >= buflen) break;` between two steps.
abbrev pub unless_full : ℕ → Out → (Out → Out) → Out
unless_full buflen o next = if full buflen o then o else next o

-- `*value` is one of the separators, or the escape character.
unfoldable pub is_special : Params → ℕ → Bool
is_special params c =
    char_is c params.segment_separator
    || char_is c params.element_separator
    || char_is c params.subelement_separator
    || char_is c params.tag_separator
    || char_is c params.escape

-- The test of `addescaped` for a byte that is written behind the escape character.
unfoldable pub needs_escape : Params → ℕ → Bool
unfolding is_special
needs_escape params c = is_special params c && not (params.escape == 0)

-- One round of the loop of `addescaped`.
unfoldable pub add_char : Params → ℕ → ℕ → Out → Out
unfolding put
add_char params buflen c o =
    if needs_escape params c then unless_full buflen (put params.escape o) (put c) else put c o

-- The loop of `addescaped`. The `break` at the end of a round comes before the same test.
unfoldable pub add_chars : Params → ℕ → Bytes → Out → Out
unfolding add_char
add_chars params buflen [] o = o
add_chars params buflen (c ∷ value) o =
    let rest = add_chars params buflen value (add_char params buflen c o) in
    if full buflen o then o else rest

unfoldable pub addescaped : Params → ℕ → Bytes → Out → Out
unfolding add_chars put_nul
addescaped params buflen value o = put_nul (add_chars params buflen value o)

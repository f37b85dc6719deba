-- ===== src/Build/Header.antt =====
-- `addhdrtrailer` of libedi/build.c, which expands the format of an interchange header's trailer.
use libedi.Base.{ℕ, true, [], ◌∷◌, ◌==◌, if◌then◌else◌}
use libedi.Base.Chars.{Bytes}
use libedi.Params.{Params}
use libedi.Build.Buffer.{Out, full, put, put_nul, unless_full}

abbrev pub drop_last : Bytes → Bytes
drop_last [] = []
drop_last (c ∷ []) = []
drop_last (c ∷ d ∷ cs) = c ∷ drop_last (d ∷ cs)

-- `if(bufpos > 0) { buf--; bufpos--; }`
unfoldable pub backspace : Out → Out
backspace o = record o { text = drop_last o.text }

-- The `switch` on the byte behind a `%`.
unfoldable pub directive : Params → ℕ → ℕ → Out → Out
unfolding backspace put
directive params buflen d o =
    if d == b'_'
    then backspace o
    else if d == b'S'
    then put params.segment_separator o
    else if d == b'E'
    then put params.element_separator o
    else if d == b's'
    then put params.subelement_separator o
    else if d == b'T'
    then put params.tag_separator o
    else if d == b'R'
    then put params.escape o
    else unless_full buflen (put b'%' o) (put d)

-- A `%` at the end of the format: the NUL is copied as if it were a directive, and the loop goes
-- on behind it.
unfoldable pub dangling : ℕ → Out → Out
unfolding put
dangling buflen o = unless_full buflen (put b'%' o) (λ o'. record (put 0 o') { overread = true })

-- The loop.
unfoldable pub add_format : Params → ℕ → Bytes → Out → Out
unfolding directive dangling
add_format params buflen [] o = o
add_format params buflen (c ∷ []) o =
    if full buflen o then o else if c == b'%' then dangling buflen o else put c o
add_format params buflen (c ∷ d ∷ format) o =
    let directed = add_format params buflen format (directive params buflen d o) in
    let copied = add_format params buflen (d ∷ format) (put c o) in
    if full buflen o then o else if c == b'%' then directed else copied

unfoldable pub addhdrtrailer : Params → ℕ → Bytes → Out → Out
unfolding add_format put_nul
addhdrtrailer params buflen format o = put_nul (add_format params buflen format o)

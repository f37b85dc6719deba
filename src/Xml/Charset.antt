-- ===== src/Xml/Charset.antt =====
-- `do_conv` of libedixml/output.c, and `escape_xml` for text in another character set, over a converter
-- that is not part of the program.
use libedi.Base.{ℕ, zero, suc, ◌-◌, ◌*◌, ◌≤◌, [], ◌++◌, ◌≡◌, length, drop, ltb, ◌==◌, if◌then◌else◌}
use libedi.Base.Chars.{Bytes, codes}
use libedi.Xml.Tokens.{escape_xml}
use libedi.Xml.Escape.{Reads, IsText}

-- What `iconv` returns, with `errno`: E2BIG, EILSEQ, EINVAL and others.
pub data Verdict : Type 0 where
  done too_big illegal incomplete other : Verdict

-- A call of `iconv`: the descriptor behind it, how many bytes of the source were taken, what was written,
-- and what it returns.
pub record Step (S : Type 0) : Type 0 where
  pub next : S
  pub taken : ℕ
  pub made : Bytes
  pub verdict : Verdict

-- A descriptor, and `iconv` with it, a source and the room for what is written.
pub record Iconv : Type 1 where
  pub State : Type 0
  pub iconv : State → Bytes → ℕ → Step State

-- What the documentation of `iconv` says: it returns without an error when it has taken the whole
-- source, and it writes no more than there is room for.
pub record IsDocumented (i : Iconv) : Type 0 where
  pub takes_all :
      (st : i.State) (src : Bytes) (room : ℕ)
      → (i.iconv st src room).verdict ≡ done
      → (i.iconv st src room).taken ≡ length src
  pub keeps_room :
      (st : i.State) (src : Bytes) (room : ℕ) → length (i.iconv st src room).made ≤ room

-- A text and the descriptor behind it, an exception, an assertion that fails, undefined behaviour, or
-- fuel that ran out.
pub data Text (S : Type 0) : Type 0 where
  converted : Bytes → S → Text S
  thrown : Bytes → Text S
  aborted undefined unfinished : Text S

-- 64 MB
abbrev pub sanity_limit : ℕ
sanity_limit = 64 * 1024 * 1024

module _ (i : Iconv) where
  open i use {State, iconv}

  -- The body of the loop behind the call; `again` is the loop. When the block is too small, the pointer
  -- into it is advanced from where the block was before `realloc`.
  abbrev pub by_verdict : Bytes → Bytes → (Step State → Text State) → Step State → Text State
  by_verdict src dst again s =
      let rest = again s in
      elim s.verdict [
        | done ↦ if length src - s.taken == 0 then converted (dst ++ s.made) s.next else rest
        | too_big ↦ undefined
        | illegal ↦
            thrown (codes "An invalid multibyte sequence: \"" ++ drop s.taken src ++ codes "\"")
        | incomplete ↦
            thrown (codes "An incomplete multibyte sequence has been encountered in the input")
        | other ↦ aborted
      ]

  -- The loop; `dstlen` is the size of the block, which changes in no round that is defined.
  unfoldable pub conv_loop : ℕ → ℕ → State → Bytes → Bytes → ℕ → Text State
  conv_loop zero dstlen st src dst dstleft = unfinished
  conv_loop (suc fuel) dstlen st src dst dstleft =
      let rest =
        by_verdict src dst
          (λ s.
            conv_loop fuel dstlen s.next (drop s.taken src) (dst ++ s.made)
              (dstleft - length s.made))
          (iconv st src dstleft) in
      if ltb dstlen sanity_limit then rest else aborted

  -- `do_conv`
  unfoldable pub do_conv : State → Bytes → Text State
  unfolding conv_loop
  do_conv st src = conv_loop (suc (length src)) (2 * length src) st src [] (2 * length src)

  -- The rest of `escape_xml`.
  abbrev pub escape_text : Text State → Text State
  escape_text (converted t st) = converted (escape_xml t) st
  escape_text (thrown m) = thrown m
  escape_text aborted = aborted
  escape_text undefined = undefined
  escape_text unfinished = unfinished

  -- `escape_xml` where `conv` is open.
  unfoldable pub escape_xml_from : State → Bytes → Text State
  unfolding do_conv escape_xml
  escape_xml_from st src = escape_text (do_conv st src)

  -- What it returns, by a call of `iconv` with the whole source.
  abbrev pub EscapesStep : Bytes → Text State → Step State → Type 0
  EscapesStep src o s = elim s.verdict [
    | done ↦
        (x : Bytes) × (o ≡ converted x s.next)
        × (IsText s.made → Reads x s.made)
        × (length s.made ≤ 2 * length src)
    | too_big ↦ o ≡ undefined
    | illegal ↦
        o ≡ thrown (codes "An invalid multibyte sequence: \"" ++ drop s.taken src ++ codes "\"")
    | incomplete ↦
        o ≡ thrown (codes "An incomplete multibyte sequence has been encountered in the input")
    | other ↦ o ≡ aborted
  ]

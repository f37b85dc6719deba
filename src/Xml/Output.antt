-- ===== src/Xml/Output.antt =====
-- The buffer of libedixml/output.c: `output_init` and `output`.
use libedi.Base.{
  ℕ, zero, suc, ◌+◌, ◌-◌, Bool, true, false, List, [], ◌∷◌, ◌++◌, Option, none, some, length, take,
  ltb, ◌&&◌, if◌then◌else◌,
}
use libedi.Base.Chars.{Bytes, codes}

-- `*outbufptr`, of which the bytes in front of `outbufpos` are kept, `outbufsize` and `outbufpos`.
pub record OutputBuffer : Type 0 where
  pub text : Option Bytes
  pub outbufsize : ℕ
  pub outbufpos : ℕ

-- `output_init(&r)`, where `r` is NULL.
abbrev pub output_init : OutputBuffer
output_init = record { text = none; outbufsize = 0; outbufpos = 0 }

-- What a call comes to: `undefined` is a `va_list` read a second time; `unfinished` is fuel that ran
-- out.
pub data Written : Type 0 where
  written : OutputBuffer → Written
  undefined unfinished : Written

-- A call: the text that the format and its arguments make, and whether the format takes arguments.
pub record Call : Type 0 where
  pub formatted : Bytes
  pub takes_arguments : Bool

-- `outbufsize += 1024; *outbufptr = realloc(*outbufptr, outbufsize);`
abbrev pub grow_output : OutputBuffer → Bytes → OutputBuffer
grow_output o b = record o { text = some b; outbufsize = o.outbufsize + 1024 }

-- The loop; `again` says that the arguments were read before.
unfoldable pub output_loop : ℕ → Bool → Call → OutputBuffer → Written
output_loop zero again c o = unfinished
output_loop (suc fuel) again c o = elim o.text [
  | none ↦ output_loop fuel again c (grow_output o [])
  | some b ↦
      let rest = output_loop fuel true c (grow_output o b) in
      if again && c.takes_arguments
      then undefined
      else if ltb (length c.formatted) (o.outbufsize - o.outbufpos)
      then written (record o {
        text = some (take o.outbufpos b ++ c.formatted);
        outbufpos = o.outbufpos + length c.formatted;
      })
      else rest
]

-- `output`
unfoldable pub output : Call → OutputBuffer → Written
unfolding output_loop
output c o = output_loop (suc (suc (length c.formatted))) false c o

abbrev pub then_output : (OutputBuffer → Written) → Written → Written
then_output f (written o) = f o
then_output f undefined = undefined
then_output f unfinished = unfinished

-- `output_set_enc`: what `conv` becomes, open for a character set or -1, and the calls of `output`;
-- `can_open` is whether `iconv_open` finds the character set.
abbrev pub output_set_enc : (Bytes → Bool) → Bytes → Option Bytes × List Call
output_set_enc can_open e =
    if can_open e
    then (
      some e,
      record {
        formatted = codes "<?xml version=\"1.0\" encoding=\"UTF-8\"?>\n";
        takes_arguments = false;
      }
          ∷ [],
    )
    else (none, [])

-- Calls in a row.
unfoldable pub outputs : List Call → OutputBuffer → Written
unfolding output
outputs [] o = written o
outputs (c ∷ cs) o = then_output (outputs cs) (output c o)

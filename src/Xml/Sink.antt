-- ===== src/Xml/Sink.antt =====
-- Where `output` of libedixml/output.c writes: stdout, or the buffer that `output_init` sets.
use libedi.Base.{List, [], ◌∷◌, ◌++◌, Option, none, some}
use libedi.Base.Chars.{Bytes}
use libedi.Xml.Tokens.{Token, call, print_token, print, Ran}
use libedi.Xml.Output.{OutputBuffer, Written, written, undefined, unfinished, Call, outputs}

-- What was written to stdout so far, where `outbufptr` is NULL, and the buffer where it is not.
pub data Sink : Type 0 where
  stdout : Bytes → Sink
  block : OutputBuffer → Sink

-- The text in front of the first call, and the calls.
abbrev pub in_call : Token → Bytes × List Call → Bytes × List Call
in_call (call args) (t, cs) = ([], record { formatted = t; takes_arguments = args } ∷ cs)
in_call x (t, cs) = (print_token x ++ t, cs)

abbrev pub split : List Token → Bytes × List Call
split [] = ([], [])
split (x ∷ ts) = in_call x (split ts)

abbrev pub calls : List Token → List Call
calls ts = (split ts).1

abbrev pub buffered {ℓ} : {A : Type ℓ} → A → Written → Option (Sink × A)
buffered a (written o) = some (block o, a)
buffered a undefined = none
buffered a unfinished = none

-- The calls of `output` that a run makes, one after the other, and its result.
unfoldable pub deliver {ℓ} : {A : Type ℓ} → Ran A → Sink → Option (Sink × A)
unfolding outputs
deliver none sink = none
deliver (some (ts, a)) (stdout b) = some (stdout (b ++ print ts), a)
deliver (some (ts, a)) (block o) = buffered a (outputs (calls ts) o)

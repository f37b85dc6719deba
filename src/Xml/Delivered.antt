-- ===== src/Xml/Delivered.antt =====
-- What the converter of libedixml/conv.c leaves where `output` of libedixml/output.c writes.
use libedi.Base.{
  ℕ, ◌<◌, List, [], ◌∷◌, ◌++◌, some, ◌≡◌, ◌≢◌, refl, ap, ◌∙◌, arith, inr, length, append_assoc,
}
use libedi.Base.Chars.{Bytes}
use libedi.Xml.Tokens.{
  Token, open_tag, close_tag, empty_tag, coded_tag, open_with, comment, text, call, print_token,
  print, Ran,
}
use libedi.Xml.Nested.{Moves, Started, first_call, no_call, Goes}
use libedi.Xml.Output.{output_init, Call, outputs}
use libedi.Xml.Written.{texts, buffer_of, outputs_init-Appends}
use libedi.Xml.Sink.{stdout, block, split, in_call, calls, buffered, deliver}

-- A run whose pieces lead from the tags of the first list to those of the second, and whose result
-- has the property, wherever it writes: to stdout, behind what is there, or, if it writes fewer than
-- 1024 bytes in all, into the buffer of `output_init`, which holds them then.
pub record Delivers {ℓ} {A : Type ℓ} (st st' : List Bytes) (Q : A → Type 0) (o : Ran A)
    : Type ℓ where
  pub pieces : List Token
  pub value : A
  pub moves : Moves st pieces st'
  pub holds : Q value
  pub to_stdout : (b : Bytes) → deliver o (stdout b) ≡ some (stdout (b ++ print pieces), value)
  pub to_block :
      pieces ≢ []
      → length (print pieces) < 1024
      → (size : ℕ) × (deliver o (block output_init)
          ≡ some (block (buffer_of (print pieces) size), value))

in_call-print :
    (x : Token) (t : Bytes) (cs : List Call)
    → (in_call x (t, cs)).0 ++ texts (in_call x (t, cs)).1 ≡ print_token x ++ (t ++ texts cs)
in_call-print (call args) t cs = refl
in_call-print (open_tag n) t cs = append_assoc (print_token (open_tag n)) t (texts cs)
in_call-print (close_tag n) t cs = append_assoc (print_token (close_tag n)) t (texts cs)
in_call-print (empty_tag n) t cs = append_assoc (print_token (empty_tag n)) t (texts cs)
in_call-print (coded_tag n) t cs = append_assoc (print_token (coded_tag n)) t (texts cs)
in_call-print (comment n) t cs = append_assoc (print_token (comment n)) t (texts cs)
in_call-print (text n) t cs = append_assoc (print_token (text n)) t (texts cs)
in_call-print (open_with n a) t cs = append_assoc (print_token (open_with n a)) t (texts cs)

split-print : (ts : List Token) → (split ts).0 ++ texts (split ts).1 ≡ print ts
split-print [] = refl
split-print (x ∷ ts) =
    in_call-print x ((split ts).0) ((split ts).1) ∙ ap (λ t. print_token x ++ t) (split-print ts)

block-Delivers {ℓ} :
    {A : Type ℓ} (a : A) {ts : List Token}
    → Started ts
    → ts ≢ []
    → length (print ts) < 1024
    → (size : ℕ) × (buffered a (outputs (calls ts) output_init)
        ≡ some (block (buffer_of (print ts) size), a))
block-Delivers a no_call ne short = absurd (ne refl)
block-Delivers a (first_call {args} {ts}) ne short =
    let c : Call = record { formatted = (split ts).0; takes_arguments = args } in
    let whole : texts (c ∷ (split ts).1) ≡ print ts = split-print ts in
    let w = outputs_init-Appends c ((split ts).1) (inr (rw whole (omega arith))) in
    (
      w.new_size,
      ap (buffered a) w.is_written ∙ ap (λ t. some (block (buffer_of t w.new_size), a)) whole,
    )

pub Goes-Delivers {ℓ} :
    {A : Type ℓ} {st st' : List Bytes} {Q : A → Type 0} {o : Ran A}
    → Goes st st' Q o
    → Delivers st st' Q o
unfolding deliver
Goes-Delivers g = record {
  pieces = g.written;
  value = g.value;
  moves = g.moves;
  holds = g.holds;
  to_stdout = λ b. ap (λ o. deliver o (stdout b)) g.is_run;
  to_block = λ ne short.
      let (size, e) = block-Delivers g.value g.started ne short in
      (size, ap (λ o. deliver o (block output_init)) g.is_run ∙ e);
}

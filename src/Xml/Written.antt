-- ===== src/Xml/Written.antt =====
-- What the calls of `output` in libedixml/output.c leave in the buffer.
use libedi.Base.{
  ℕ, zero, suc, ◌+◌, ◌-◌, ◌≤◌, ◌<◌, Bool, true, false, List, [], ◌∷◌, ◌++◌, some, ◌≡◌, refl, ap,
  ◌∙◌, sym, arith, length, length-append, take_all, lt→ltb, ge→ltb, append_assoc, append-nil, ◌⊎◌,
  inl, inr,
}
use mathlib.Core.Bool.{◌&&◌}
use native.Mathlib.Decide.{dec_lt}
use libedi.Base.Chars.{Bytes}
use libedi.Xml.Output.{
  OutputBuffer, output_init, Written, written, undefined, Call, output_loop, output, outputs,
}

-- A buffer with its text, between its calls or while it grows.
abbrev pub buffer_of : Bytes → ℕ → OutputBuffer
buffer_of b size = record { text = some b; outbufsize = size; outbufpos = length b }

-- A text is appended, and there is room for a NUL behind it.
pub record Appends (b t : Bytes) (size : ℕ) (w : Written) : Type 0 where
  pub new_size : ℕ
  pub is_written : w ≡ written (buffer_of (b ++ t) new_size)
  pub has_nul : length (b ++ t) < new_size
  pub no_smaller : size ≤ new_size

-- A call that can be run again, or whose text fits.
abbrev pub Runs : Call → Bytes → ℕ → Type 0
Runs c b size = (c.takes_arguments ≡ false) ⊎ (length b + length c.formatted < size)

module _ (again : Bool) (c : Call) (b : Bytes) (size : ℕ)
    (first : (again && c.takes_arguments) ≡ false) where
  -- A round in which the text fits.
  last_round :
      (fuel : ℕ)
      → length c.formatted < size - length b
      → Appends b c.formatted size (output_loop (suc fuel) again c (buffer_of b size))
  unfolding output_loop
  last_round fuel fits =
      let short = lt→ltb (length c.formatted) (size - length b) fits in
      let len = length-append b c.formatted in
      rw (first, short, take_all (length b) b (omega arith), sym len)
        (record {
          new_size = size;
          is_written = refl;
          has_nul = omega (arith, len, fits);
          no_smaller = omega arith;
        })

  -- A round in which the buffer grows.
  other_round :
      (fuel : ℕ)
      → size - length b ≤ length c.formatted
      → output_loop (suc fuel) again c (buffer_of b size)
        ≡ output_loop fuel true c (buffer_of b (size + 1024))
  unfolding output_loop
  other_round fuel full = rw (first, ge→ltb (length c.formatted) (size - length b) full) refl

-- A call whose arguments are not needed twice appends its text, with enough fuel.
output_loop-Appends :
    (fuel : ℕ) (again : Bool) (c : Call) (b : Bytes) (size : ℕ)
    → length b + length c.formatted < size + fuel
    → (again && c.takes_arguments) ≡ false
    → Runs c b size
    → Appends b c.formatted size (output_loop (suc fuel) again c (buffer_of b size))
output_loop-Appends zero again c b size enough first ok =
    last_round again c b size first zero (omega arith)
output_loop-Appends (suc fuel) again c b size enough first ok =
    let next = λ (e : c.takes_arguments ≡ false).
      output_loop-Appends fuel true c b (size + 1024) (omega arith) e (inl e) in
    elim (dec_lt (length c.formatted) (size - length b)) [
      | yes fits ↦ last_round again c b size first (suc fuel) fits
      | no full ↦ elim ok [
        | inl e ↦
            let n = next e in
            rw (other_round again c b size first (suc fuel) (omega arith)) (record {
              new_size = n.new_size;
              is_written = n.is_written;
              has_nul = n.has_nul;
              no_smaller = omega (arith, n.no_smaller);
            })
        | inr lt ↦ absurd (omega arith)
      ]
    ]

output-Appends :
    (c : Call) (b : Bytes) (size : ℕ)
    → length b ≤ size
    → Runs c b size
    → Appends b c.formatted size (output c (buffer_of b size))
unfolding output
output-Appends c b size le ok =
    output_loop-Appends (suc (length c.formatted)) false c b size (omega arith) refl ok

-- The first call makes the buffer.
output-first : (c : Call) → Runs c [] 1024 → Appends [] c.formatted 1024 (output c output_init)
unfolding output output_loop
output-first c ok = output_loop-Appends (length c.formatted) false c [] 1024 (omega arith) refl ok

-- A call that takes arguments and whose text does not fit into the block as it is reads its arguments
-- twice, which is undefined behaviour, whatever the block holds.
pub output-undefined :
    (c : Call) (b : Bytes) (size : ℕ)
    → c.takes_arguments ≡ true
    → size ≤ length b + length c.formatted
    → output c (buffer_of b size) ≡ undefined
unfolding output output_loop
output-undefined c b size e full =
    other_round false c b size refl (suc (length c.formatted)) (omega arith) ∙ rw e refl

abbrev pub texts : List Call → Bytes
texts [] = []
texts (c ∷ cs) = c.formatted ++ texts cs

abbrev pub NoArguments : List Call → Type 0
NoArguments [] = Unit
NoArguments (c ∷ cs) = (c.takes_arguments ≡ false) × NoArguments cs

-- None of the calls takes arguments, or all that they write fits into the first block.
abbrev pub Plain : Bytes → List Call → Type 0
Plain b cs = NoArguments cs ⊎ (length b + length (texts cs) < 1024)

outputs-Appends :
    (cs : List Call) (b : Bytes) (size : ℕ)
    → 1024 ≤ size
    → length b < size
    → Plain b cs
    → Appends b (texts cs) size (outputs cs (buffer_of b size))
unfolding outputs
outputs-Appends [] b size large nul ok = record {
  new_size = size;
  is_written = ap (λ t. written (buffer_of t size)) (sym (append-nil b));
  has_nul = rw append-nil nul;
  no_smaller = omega arith;
}
outputs-Appends (c ∷ cs) b size large nul ok =
    let first : Runs c b size = elim ok [
      | inl k ↦ inl k.0
      | inr h ↦ inr (omega (arith, length-append c.formatted (texts cs)))
    ] in
    let later : Plain (b ++ c.formatted) cs = elim ok [
      | inl k ↦ inl k.1
      | inr h ↦
          inr (omega (arith, length-append c.formatted (texts cs), length-append b c.formatted))
    ] in
    let n = output-Appends c b size (omega arith) first in
    let m =
      outputs-Appends cs (b ++ c.formatted) n.new_size (omega (arith, n.no_smaller)) n.has_nul
        later in
    let whole : (b ++ c.formatted) ++ texts cs ≡ b ++ texts (c ∷ cs) =
      append_assoc b c.formatted (texts cs) in
    record {
      new_size = m.new_size;
      is_written = rw n.is_written m.is_written ∙ ap (λ t. written (buffer_of t m.new_size)) whole;
      has_nul = rw (sym whole) m.has_nul;
      no_smaller = omega (arith, m.no_smaller, n.no_smaller);
    }

-- The first calls make the buffer. Where no call takes arguments, or all that the calls write is
-- shorter than 1024 bytes, the buffer comes to hold what they write, one behind the other, and has room
-- for a NUL behind it.
pub outputs_init-Appends :
    (c : Call) (cs : List Call)
    → Plain [] (c ∷ cs)
    → Appends [] (texts (c ∷ cs)) 1024 (outputs (c ∷ cs) output_init)
unfolding outputs
outputs_init-Appends c cs ok =
    let first : Runs c [] 1024 = elim ok [
      | inl k ↦ inl k.0
      | inr h ↦ inr (omega (arith, length-append c.formatted (texts cs)))
    ] in
    let later : Plain c.formatted cs = elim ok [
      | inl k ↦ inl k.1
      | inr h ↦ inr (omega (arith, length-append c.formatted (texts cs)))
    ] in
    let n = output-first c first in
    let m = outputs-Appends cs c.formatted n.new_size n.no_smaller n.has_nul later in
    record {
      new_size = m.new_size;
      is_written = rw n.is_written m.is_written;
      has_nul = m.has_nul;
      no_smaller = omega (arith, m.no_smaller, n.no_smaller);
    }

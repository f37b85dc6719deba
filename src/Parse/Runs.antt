-- ===== src/Parse/Runs.antt =====
-- The loop of `edi_parser_parse` in libedi/parse.c over the elements of a segment: its runs as a
-- relation, and the fuel that is enough for it.
use libedi.Base.{
  ℕ, zero, suc, ◌+◌, ◌≤◌, ◌<◌, Bool, true, false, [], ◌∷◌, ◌++◌, some, ◌≡◌, refl, ap, arith, length,
  inl, inr, Bool-cases, is_nil,
}
use libedi.Base.Chars.{Bytes}
use libedi.Interchange.{Parser}
use libedi.Parse.Scan.{scan, is_escape}
use libedi.Parse.Elements.{
  SegState, open_element, read_value, more_elements, skip_from, skip_separator, read_elements,
}

-- The value loop loses no byte.
pub scan-append :
    (p : Parser) (first e : Bool) (m : Bytes) → (scan p first e m).0 ++ (scan p first e m).1 ≡ m
unfolding scan
scan-append p first e [] = refl
scan-append p first true (c ∷ m) = ap (◌∷◌ c) (scan-append p first false m)
scan-append p first false (c ∷ m) = ground (arith, scan-append p first (is_escape p.escape c) m)

pub length-scan :
    (p : Parser) (first e : Bool) (m : Bytes)
    → length (scan p first e m).0 + length (scan p first e m).1 ≡ length m
unfolding scan
length-scan p first e [] = omega arith
length-scan p first true (c ∷ m) = omega (arith, length-scan p first false m)
length-scan p first false (c ∷ m) = ground (arith, length-scan p first (is_escape p.escape c) m)

pub message-open_element : (s : SegState) → (open_element s).message ≡ s.message
unfolding open_element
message-open_element s = ground arith

pub read_value-length :
    (p : Parser) (s : SegState) → length (read_value p s).message ≤ length s.message
unfolding read_value
read_value-length p s = omega (
  arith,
  length-scan p (is_nil (open_element s).done) false (open_element s).message,
  ap length (message-open_element s),
)

pub skip_separator-length :
    (p : Parser) (s : SegState)
    → more_elements p s.message ≡ true
    → length (skip_separator p s).message < length s.message
unfolding skip_separator more_elements
skip_separator-length p s h = skip s.message h
  where
    skip : (m : Bytes) → more_elements p m ≡ true → length (skip_from p s m).message < length m
    skip [] h = cc
    skip (c ∷ m) h = omega arith

-- The element loop started in the first state ends in the second.
pub data Runs (p : Parser) : SegState → SegState → Type 0 where
  stop : {s : SegState} → more_elements p s.message ≡ false → Runs p s s
  leave :
      {s r : SegState}
      → more_elements p s.message ≡ true
      → more_elements p (read_value p s).message ≡ false
      → r ≡ read_value p s
      → Runs p s r
  again :
      {s r : SegState}
      → more_elements p s.message ≡ true
      → more_elements p (read_value p s).message ≡ true
      → Runs p (skip_separator p (read_value p s)) r
      → Runs p s r

next-length :
    (p : Parser) (s : SegState)
    → more_elements p (read_value p s).message ≡ true
    → length (skip_separator p (read_value p s)).message < length s.message
next-length p s h = omega (arith, skip_separator-length p (read_value p s) h, read_value-length p s)

-- With fuel above the length of the message, `read_elements` makes the run.
pub Runs-read_elements :
    {p : Parser} (fuel : ℕ) {s r : SegState}
    → length s.message < fuel
    → Runs p s r
    → read_elements fuel p s ≡ some r
unfolding read_elements
Runs-read_elements zero h d = absurd (omega arith)
Runs-read_elements (suc fuel) h (stop a) = rw a
Runs-read_elements (suc fuel) h (leave a b e) = rw (a, b, e)
Runs-read_elements {p} (suc fuel) {s} h (again a b d) =
    rw (a, b) (Runs-read_elements fuel (omega (arith, next-length p s b)) d)

-- Every start of the element loop has a run.
pub Runs-total :
    (p : Parser) (fuel : ℕ) (s : SegState) → length s.message < fuel → (r : SegState) × Runs p s r
Runs-total p zero s h = absurd (omega arith)
Runs-total p (suc fuel) s h = elim (Bool-cases (more_elements p s.message)) [
  | inr a ↦ (s, stop a)
  | inl a ↦ elim (Bool-cases (more_elements p (read_value p s).message)) [
    | inr b ↦ (read_value p s, leave a b refl)
    | inl b ↦
        let (r, d) =
          Runs-total p fuel (skip_separator p (read_value p s))
            (omega (arith, next-length p s b)) in
        (r, again a b d)
  ]
]

-- A run leaves no more of the message than it found.
pub Runs-length : {p : Parser} {s r : SegState} → Runs p s r → length r.message ≤ length s.message
Runs-length (stop a) = omega arith
Runs-length {p} {s} (leave a b e) = rw e (read_value-length p s)
Runs-length {p} {s} (again a b d) = omega (arith, next-length p s b, Runs-length d)

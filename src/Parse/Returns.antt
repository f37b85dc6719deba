-- ===== src/Parse/Returns.antt =====
-- What `edi_parser_parse` of libedi/parse.c comes to for its callers.
use libedi.Base.{none, some, ◌≡◌, refl, length, drop, ◌==◌, Bool-cases, ◌⊎◌, inl, inr, ==_iff}
use libedi.Base.Chars.{Bytes}
use libedi.Interchange.{Parser, Interchange}
use libedi.Detect.Registry.{Registry}
use libedi.Detect.Match.{Detected, found, no_match, out_of_bounds, detect}
use libedi.Parse.Parser.{parser_init}
use libedi.Parse.Loop.{parse_message_total}
use libedi.Parse.Entry.{Outcome, returned, faulted, parse_detected, parser_parse}

-- An interchange is returned.
abbrev pub Interchanges : Outcome → Type 0
Interchanges o = (p : Parser) × (i : Interchange) × (o ≡ returned p (some i))

detected-outcome :
    (p : Parser) (m : Bytes) (d : Detected)
    → Interchanges (parse_detected p m d)
      ⊎ ((d ≡ no_match) × (parse_detected p m d ≡ returned p none))
      ⊎ ((d ≡ out_of_bounds) × (parse_detected p m d ≡ faulted))
detected-outcome p m (found params skip) =
    let ((e, i), q) = parse_message_total (length m) (parser_init (some params)) (drop skip m) in
    inl (p, i, rw q refl)
detected-outcome p m no_match = inr (inl (refl, refl))
detected-outcome p m out_of_bounds = inr (inr (refl, refl))

-- `edi_parser_parse` always ends. It returns an interchange; or the parser is to detect the
-- dialect and none matches, then it returns NULL and leaves the parser as it was; or the parser is
-- to detect the dialect and detection reads behind the end of the message, and nothing is
-- returned.
pub parser_parse-Interchanges :
    (reg : Registry) (p : Parser) (m : Bytes)
    → Interchanges (parser_parse reg p m)
      ⊎ ((p.detect ≡ 1) × (detect reg m ≡ no_match) × (parser_parse reg p m ≡ returned p none))
      ⊎ ((p.detect ≡ 1) × (detect reg m ≡ out_of_bounds) × (parser_parse reg p m ≡ faulted))
unfolding parser_parse
parser_parse-Interchanges reg p m = elim (Bool-cases (p.detect == 1)) [
  | inl e ↦
      let one = (==_iff p.detect 1).0 e in
      elim (detected-outcome p m (detect reg m)) [
        | inl h ↦ rw e (inl h)
        | inr (inl (d, h)) ↦ rw e (inr (inl (one, d, h)))
        | inr (inr (d, h)) ↦ rw e (inr (inr (one, d, h)))
      ]
  | inr n ↦
      let ((e, i), q) = parse_message_total (length m) p m in
      inl (record p { error = e }, i, rw (n, q) refl)
]

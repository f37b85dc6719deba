-- ===== src/Xml/Errors.antt =====
-- The exceptions of libedixml/excep.c, what `edi2xml_conv` of libedixml/conv.c does with one, and
-- `edi2xml_error`.
use libedi.Base.{
  ℕ, zero, suc, ◌+◌, ◌≤◌, ◌/◌, ◌%◌, ◌^◌, [], ◌∷◌, ◌++◌, Option, none, some, ◌≡◌, length, take, drop,
  ltb, if◌then◌else◌,
}
use libedi.Base.Chars.{Bytes, codes}
use libedi.Xml.Tokens.{Config, Ran, and_then, returns, error}

-- `edixml_excp_text`, `err_offset` and `err_segment`.
pub record ErrorState : Type 0 where
  pub excp_text : Option Bytes
  pub err_offset : ℕ
  pub err_segment : Bytes

-- `throw_exception`, up to its jump: an exception that was not fetched makes the assertion fail, which
-- is `none`.
unfoldable pub throw_exception : Bytes → ErrorState → Option ErrorState
throw_exception msg s = elim s.excp_text [
  | none ↦ some (record s { excp_text = some msg })
  | some old ↦ none
]

-- What `edi2xml_conv` does when it catches one: it keeps 100 bytes of the message from the segment on,
-- and reports the exception with `error`.
unfoldable pub catch_exception : Config → Bytes → ErrorState → Ran ErrorState
unfolding and_then error
catch_exception opts edi_text s =
    and_then (error opts)
      λ _. returns (record s { err_segment = take 100 (drop s.err_offset edi_text) })

-- The digits of a number, with as many rounds as it has at most.
unfoldable pub digits : ℕ → ℕ → Bytes
digits zero n = []
digits (suc k) n =
    let rest = digits k (n / 10) in
    if ltb n 10 then (b'0' + n) ∷ [] else rest ++ (b'0' + n % 10) ∷ []

-- `%u`, which prints 32 bits.
abbrev pub print_unsigned : ℕ → Bytes
print_unsigned n = digits 10 (n % 2 ^ 32)

-- The size of the block, and the text.
abbrev pub error_size : Bytes → Bytes → ℕ
error_size msg segment = length msg + length segment + 50

abbrev pub error_text : Bytes → ErrorState → Bytes
error_text msg s =
    msg
    ++ (codes ", segment offset "
        ++ (print_unsigned s.err_offset ++ (codes ": " ++ (s.err_segment ++ codes "..."))))

-- What it comes to: the size of the block and what is written to it, and the state behind. The length of
-- a NULL text is undefined, whatever was stored before.
unfoldable pub edi2xml_error : ErrorState → Option ((ℕ × Bytes) × ErrorState)
unfolding digits
edi2xml_error s = elim s.excp_text [
  | none ↦ none
  | some msg ↦
      some ((error_size msg s.err_segment, error_text msg s), record s { excp_text = none })
]

-- What is written for an error, and the state behind it.
pub record Reports (msg : Bytes) (offset : ℕ) (segment : Bytes)
    (o : Option ((ℕ × Bytes) × ErrorState)) : Type 0 where
  pub size : ℕ
  pub text : Bytes
  pub behind : ErrorState
  pub is_result : o ≡ some ((size, text), behind)
  pub is_text :
      text
      ≡ msg
        ++ (codes ", segment offset "
            ++ (print_unsigned offset ++ (codes ": " ++ (segment ++ codes "..."))))
  pub fits : length text + 1 ≤ size
  pub is_fetched : behind.excp_text ≡ none

-- What `edi2xml_error` makes of the state behind a call; `none` is undefined behaviour.
abbrev pub then_error : Ran ErrorState → Option ((ℕ × Bytes) × ErrorState)
then_error none = none
then_error (some (ts, s)) = edi2xml_error s

-- ===== src/RoundTrip/Dialect.antt =====
-- Separators that can be told apart, and bytes that can be written with them, for
-- libedi/parse.c and libedi/build.c.
use libedi.Base.{ℕ, ◌≤◌, ◌<◌, Bool, true, false, ◌≡◌, ◌≢◌, arith, some}
use libedi.Base.Chars.{char_is_self}
use libedi.Params.{Params, default_params, edi_edifact_params, tradacoms_params, x12_params}
use libedi.Interchange.{Parser, err_none}
use libedi.Parse.Scan.{is_escape, ends_value}
use libedi.Parse.Parser.{parser_init}
use libedi.Build.Buffer.{is_special, needs_escape}

-- A separator: an ASCII byte that is no NUL and no newline.
pub record IsSeparator (c : ℕ) : Type 0 where
  pub pos : 0 < c
  pub small : c < 128
  pub not_cr : c ≢ 0x0D
  pub not_lf : c ≢ 0x0A

-- The separators of `params` can be told apart, except that the tag separator may be the element
-- separator; the escape character may be 0, for none.
pub record IsDialect (params : Params) : Type 0 where
  pub version : 0x0100 ≤ params.version
  pub seg : IsSeparator params.segment_separator
  pub elem : IsSeparator params.element_separator
  pub sub : IsSeparator params.subelement_separator
  pub tag : IsSeparator params.tag_separator
  pub esc_small : params.escape < 128
  pub esc_not_cr : params.escape ≢ 0x0D
  pub esc_not_lf : params.escape ≢ 0x0A
  pub esc_seg : params.escape ≢ params.segment_separator
  pub esc_elem : params.escape ≢ params.element_separator
  pub esc_sub : params.escape ≢ params.subelement_separator
  pub esc_tag : params.escape ≢ params.tag_separator
  pub seg_elem : params.segment_separator ≢ params.element_separator
  pub seg_sub : params.segment_separator ≢ params.subelement_separator
  pub seg_tag : params.segment_separator ≢ params.tag_separator
  pub sub_elem : params.subelement_separator ≢ params.element_separator
  pub sub_tag : params.subelement_separator ≢ params.tag_separator

-- The parser that `edi__parser_init` makes of them.
abbrev pub parser_of : Params → Parser
parser_of params = record {
  error = err_none;
  sep_seg = params.segment_separator;
  sep_data = params.element_separator;
  sep_sub = params.subelement_separator;
  sep_tag = params.tag_separator;
  escape = params.escape;
  detect = 1;
}

pub parser_init-parser_of :
    (params : Params) → 0x0100 ≤ params.version → parser_init (some params) ≡ parser_of params
unfolding parser_init
parser_init-parser_of params h = ground arith

-- A byte of a value that can be written: no NUL, and, where there is no escape character, none of
-- the separators.
abbrev pub IsWritable : Params → ℕ → Type 0
IsWritable params c = (c ≢ 0) × (params.escape ≡ 0 → is_special params c ≡ false)

-- A byte that is written as it stands ends no value and is no escape character.
pub plain_byte :
    (params : Params) (first : Bool) (c : ℕ)
    → IsWritable params c
    → needs_escape params c ≡ false
    → (is_escape params.escape c ≡ false) × (ends_value (parser_of params) first c ≡ false)
unfolding needs_escape is_escape ends_value
plain_byte params true c w h = ground arith
plain_byte params false c w h = ground arith

module _ {params : Params} (d : IsDialect params) where
  pub is_escape_self :
      (c : ℕ) → needs_escape params c ≡ true → is_escape params.escape params.escape ≡ true
  unfolding needs_escape is_escape
  is_escape_self c h = ground (arith, char_is_self params.escape d.esc_small)

-- The presets are dialects.
pub default_params-IsDialect : IsDialect default_params
default_params-IsDialect = omega arith

pub edi_edifact_params-IsDialect : IsDialect edi_edifact_params
edi_edifact_params-IsDialect = omega arith

pub tradacoms_params-IsDialect : IsDialect tradacoms_params
tradacoms_params-IsDialect = omega arith

pub x12_params-IsDialect : IsDialect x12_params
x12_params-IsDialect = omega arith

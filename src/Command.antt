-- ===== src/Command.antt =====
-- The command xml/edi2xml.c: its options, and what it hands to the libraries.
pub mod Flags
pub mod Options
pub mod Run
use libedi.Base.{ℕ, Bool, true, false, List, [], ◌∷◌, ◌++◌, Option, none, some, ◌==◌, if◌then◌else◌}
use libedi.Base.Chars.{Bytes, codes}
use libedi.Detect.Registry.{init, start_library}
use libedi.Loader.File.{Expat}
use libedi.Loader.Structures.{LoadedStructs, Loading, edistruct_load_xml_files, structs_of}
use libedi.Struct.Lookup.{set_struct}
use libedi.Xml.Tokens.{Config, Ran}
use libedi.Xml.Output.{Call, output_set_enc}
use libedi.Xml.Conv.{edi2xml_conv}

-- An option that `getopt` returns, with `optarg`.
pub record Opt : Type 0 where
  pub ch : ℕ
  pub optarg : Bytes

-- What the options set: `edi2xml_opts`, `schema_dir`, the character set that `conv` is open for, the
-- calls of `output`, and the comment options that an error is printed for.
pub record Settings : Type 0 where
  pub opts : Config
  pub schema_dir : Bytes
  pub conv : Option Bytes
  pub calls : List Call
  pub unknown : List ℕ

-- The settings in front of the options, on a machine whose `size_t` is as wide as `int` or not.
abbrev pub start_settings : Bool → Bytes → Settings
start_settings size_is_int datadir = record {
  opts = record {
    comments_segment_names = false;
    comments_coded_values = false;
    comments_element_names = false;
    comments_errors = true;
    translate_coded_values = false;
    translate_coded_to_elements = false;
    size_is_int = size_is_int;
  };
  schema_dir = datadir;
  conv = none;
  calls = [];
  unknown = [];
}

abbrev pub set_opts : (Config → Config) → Settings → Settings
set_opts f s = record s { opts = f s.opts }

-- The `switch` on a character of a comment option.
unfoldable pub comment_option : ℕ → Settings → Settings
comment_option c s =
    if c == b's'
    then set_opts (λ o. record o { comments_segment_names = true }) s
    else if c == b'e'
    then set_opts (λ o. record o { comments_element_names = true }) s
    else if c == b'c'
    then set_opts (λ o. record o { comments_coded_values = true }) s
    else record s { unknown = s.unknown ++ c ∷ [] }

unfoldable pub comment_options : Bytes → Settings → Settings
unfolding comment_option
comment_options [] s = s
comment_options (c ∷ optarg) s = comment_options optarg (comment_option c s)

-- `can_open` is whether `iconv_open` finds the character set.
module _ (can_open : Bytes → Bool) where
  -- `case 'x'`
  abbrev pub encode_from : Bytes → Settings → Settings
  encode_from e s =
      let (conv, calls) = output_set_enc can_open e in
      record s { conv = conv; calls = s.calls ++ calls }

  -- The `switch` on an option; `none` is the help.
  unfoldable pub option : Opt → Settings → Option Settings
  unfolding comment_options
  option p s =
      if p.ch == b'c'
      then some (comment_options p.optarg s)
      else if p.ch == b'e'
      then some (
          set_opts
            (λ o. record o { translate_coded_to_elements = true; translate_coded_values = true }) s)
      else if p.ch == b'd'
      then some (set_opts (λ o. record o { translate_coded_values = true }) s)
      else if p.ch == b'x'
      then some (encode_from p.optarg s)
      else if p.ch == b'S'
      then some (record s { schema_dir = p.optarg })
      else none

  -- The loop over the options.
  unfoldable pub options : List Opt → Settings → Option Settings
  unfolding option
  options [] s = some s
  options (p ∷ ps) s = elim (option p s) [ none ↦ none | some s' ↦ options ps s' ]

-- A C string: the bytes in front of the first NUL.
abbrev pub c_string : Bytes → Bytes
c_string [] = []
c_string (c ∷ t) = if c == 0 then [] else c ∷ c_string t

-- `load_whole_file`, as the text is read.
abbrev pub load_whole_file : Option Bytes → Option Bytes
load_whole_file none = none
load_whole_file (some t) = some (c_string t)

-- What the command comes to in front of the conversion: the help, which returns 0, no text, which
-- returns 1, or a text to be converted.
pub data Prepared : Type 0 where
  helped unread undefined : Prepared
  ready : Settings → Loading → Bytes → Prepared

module _ (can_open : Bytes → Bool) (expat : Expat) (files : Bytes → Option Bytes)
    (size_is_int : Bool) (datadir : Bytes) where
  abbrev pub with_text : Settings → Loading → Option Bytes → Prepared
  with_text s l none = unread
  with_text s l (some edi) = ready s l edi

  abbrev pub with_structs : Settings → Bytes → Option Loading → Prepared
  with_structs s file none = undefined
  with_structs s file (some l) = with_text s l (load_whole_file (files file))

  -- The operands behind the options.
  unfoldable pub with_operands : List Bytes → LoadedStructs → Option Settings → Prepared
  unfolding edistruct_load_xml_files
  with_operands operands old none = helped
  with_operands (file ∷ []) old (some s) =
      with_structs s file (edistruct_load_xml_files expat files s.schema_dir old)
  with_operands operands old (some s) = helped

  -- `main` up to the conversion, with `loaded_structs` before it.
  unfoldable pub prepare : List Opt → List Bytes → LoadedStructs → Prepared
  unfolding options with_operands
  prepare ps operands old =
      with_operands operands old (options can_open ps (start_settings size_is_int datadir))

-- The calls of `output` by the options, and the conversion behind them; `none` is a conversion through
-- a character set that was opened, which is not modelled.
unfoldable pub convert : Settings → Loading → Bytes → Option (List Call × Ran Bool)
unfolding edi2xml_conv init structs_of
convert s l edi = elim s.conv [
  | none ↦ some (
    s.calls,
    edi2xml_conv s.opts (set_struct (structs_of l.structs)) ((init start_library).registry) edi,
  )
  | some e ↦ none
]

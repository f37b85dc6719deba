-- ===== src/Tests/Command.antt =====
-- Runs of xml/edi2xml.c and of libedixml/output.c.
use libedi.Base.{
  ℕ, ◌+◌, ◌/◌, ◌%◌, Bool, true, false, List, [], ◌∷◌, ◌++◌, none, some, ◌≡◌, refl, arith, length,
  ltb, leb, if◌then◌else◌, inr,
}
use libedi.Base.Chars.{Bytes, codes, same_text}
use libedi.Xml.Output.{Call, output_init, outputs, output, undefined}
use libedi.Xml.Written.{Appends, texts, outputs_init-Appends, buffer_of, output-undefined}
use libedi.Xml.Errors.{ErrorState}
use libedi.Xml.Charset.{Iconv, Step, done, too_big}
use libedi.Xml.Tokens.{Config}
use libedi.Command.{Opt, Settings, start_settings, options, c_string}
use libedi.Command.Options.{Means, options_start-Means}
use libedi.Command.Run.{Hands, prepare-Hands}
use libedi.Tests.Loader.{toy, files, segs, comps, elems, coded, no_structs, whole-IsDirectory}

abbrev no_charset : Bytes → Bool
no_charset e = false

-- `edi2xml -e -c sx -S d d/segs.xml`
abbrev given : List Opt
given =
    record { ch = b'e'; optarg = [] }
    ∷ record { ch = b'c'; optarg = codes "sx" }
    ∷ record { ch = b'S'; optarg = codes "d" }
    ∷ []

abbrev settings : Settings
settings = record {
  opts = record {
    comments_segment_names = true;
    comments_coded_values = false;
    comments_element_names = false;
    comments_errors = true;
    translate_coded_values = true;
    translate_coded_to_elements = true;
    size_is_int = true;
  };
  schema_dir = codes "d";
  conv = none;
  calls = [];
  unknown = b'x' ∷ [];
}

given-settings : options no_charset given (start_settings true (codes "/usr/share")) ≡ some settings
unfolding options
given-settings = refl

options_start-Means_example :
    Means no_charset given
      (start_settings true (codes "/usr/share"))
      (options no_charset given (start_settings true (codes "/usr/share")))
options_start-Means_example = options_start-Means no_charset true (codes "/usr/share") given

segs_file : files (codes "d/segs.xml") ≡ some (codes "s")
unfolding same_text
segs_file = refl

prepare-Hands_example :
    Hands settings
      (c_string (codes "s"))
      segs
      comps
      elems
      coded
      no_charset
      toy
      files
      true
      (codes "/usr/share")
      given
      (codes "d/segs.xml" ∷ [])
      no_structs
prepare-Hands_example =
    prepare-Hands no_charset toy files true (codes "/usr/share") no_structs segs comps elems coded
      given settings (codes "d/segs.xml") (codes "s") given-settings refl segs_file
      whole-IsDirectory

abbrev call : Bool → Bytes → Call
call args t = record { formatted = t; takes_arguments = args }

outputs_init-Appends_example :
    Appends []
      (texts (call false (codes "<X:message>") ∷ call true (codes "<S:bgm>") ∷ []))
      1024
      (outputs (call false (codes "<X:message>") ∷ call true (codes "<S:bgm>") ∷ []) output_init)
outputs_init-Appends_example =
    outputs_init-Appends (call false (codes "<X:message>")) (call true (codes "<S:bgm>") ∷ [])
      (inr (omega arith))

-- The same call at the end of a block that is full.
output_full : output (call true (codes "<S:bgm>")) (buffer_of (codes "<X:message>") 12) ≡ undefined
output_full =
    output-undefined (call true (codes "<S:bgm>")) (codes "<X:message>") 12 refl (omega arith)

-- Latin-1, whose characters take one or two bytes of UTF-8.
abbrev utf8_char : ℕ → Bytes
utf8_char c = if ltb c 128 then c ∷ [] else (192 + c / 64) ∷ (128 + c % 64) ∷ []

abbrev utf8 : Bytes → Bytes
utf8 [] = []
utf8 (c ∷ src) = utf8_char c ++ utf8 src

abbrev latin1_step : Bytes → Bool → Step (Unit {0})
latin1_step src fits =
    if fits
    then record { next = tt; taken = length src; made = utf8 src; verdict = done }
    else record { next = tt; taken = 0; made = []; verdict = too_big }

abbrev latin1 : Iconv
latin1 = record {
  State = Unit;
  iconv = λ st src room. latin1_step src (leb (length (utf8 src)) room);
}

abbrev incomplete_text : Bytes
incomplete_text = codes "An incomplete multibyte sequence has been encountered in the input"

abbrev quiet : Config
quiet = record (settings.opts) { comments_errors = false }

abbrev third_segment : ErrorState
third_segment = record { excp_text = none; err_offset = 12; err_segment = [] }

-- ===== src/Command/Run.antt =====
-- What xml/edi2xml.c hands to the converter.
use libedi.Base.{Bool, List, [], ◌∷◌, Option, none, some, ◌≡◌, refl}
use libedi.Base.Chars.{Bytes}
use libedi.Detect.Registry.{detect_init, init}
use libedi.Loader.Document.{Described}
use libedi.Loader.Elements.Document.{DescribedElement}
use libedi.Loader.Codes.Document.{DescribedCoded}
use libedi.Loader.File.{Expat}
use libedi.Loader.Structures.{LoadedStructs, Loading}
use libedi.Loader.Directory.{Sheet, IsDirectory}
use libedi.Loader.Load.{described, whole, edistruct_load_xml_files-Loads, structs_of-described}
use libedi.Xml.Conv.{edi2xml_conv}
use libedi.Command.{Opt, Settings, ready, start_settings, options, prepare, convert, c_string}

-- The tables are loaded, and the text is converted with the settings, the tables and the presets.
pub record Hands (s : Settings) (edi : Bytes) (segs comps : Sheet Described)
    (elems : Sheet DescribedElement) (coded : Sheet DescribedCoded) (can_open : Bytes → Bool)
    (expat : Expat) (files : Bytes → Option Bytes) (size_is_int : Bool) (datadir : Bytes)
    (ps : List Opt) (operands : List Bytes) (old : LoadedStructs) : Type 0 where
  pub loading : Loading
  pub is_ready :
      prepare can_open expat files size_is_int datadir ps operands old ≡ ready s loading edi
  pub no_errors : loading.errors ≡ []
  pub converts :
      convert s loading edi
      ≡ some
          (s.calls, edi2xml_conv s.opts (some (described segs comps elems coded)) detect_init edi)

module _ (can_open : Bytes → Bool) (expat : Expat) (files : Bytes → Option Bytes)
    (size_is_int : Bool) (datadir : Bytes) (old : LoadedStructs) (segs comps : Sheet Described)
    (elems : Sheet DescribedElement) (coded : Sheet DescribedCoded) where
  -- Where the options make settings and leave no character set open, the one operand is a file
  -- that can be opened, and the directory of the settings has the four documents, the command
  -- loads the tables that these describe, without an error, and what it converts, behind what the
  -- options wrote, is the file's text up to its first NUL, with these settings, these tables and
  -- the preset dialects.
  pub prepare-Hands :
      (ps : List Opt) (s : Settings) (file text : Bytes)
      → options can_open ps (start_settings size_is_int datadir) ≡ some s
      → s.conv ≡ none
      → files file ≡ some text
      → IsDirectory expat files s.schema_dir (whole segs comps elems coded)
      → Hands s
          (c_string text)
          segs
          comps
          elems
          coded
          can_open
          expat
          files
          size_is_int
          datadir
          ps
          (file ∷ [])
          old
  unfolding prepare convert init
  prepare-Hands ps s file text e closed f d =
      let l =
        edistruct_load_xml_files-Loads expat files s.schema_dir old (whole segs comps elems coded)
          d in
      record {
        loading = l.loading;
        is_ready = rw (e, l.is_loading, f) refl;
        no_errors = l.errors;
        converts = rw (closed, structs_of-described segs comps elems coded s.schema_dir old l) refl;
      }

-- ===== src/Detect/Registry.antt =====
-- `detectparams` of libedi/detect.c, and `edi__init` of libedi/init.c. The mutexes are not
-- modelled: each of the functions takes them for its whole body.
use libedi.Base.{
  ℕ, ◌+◌, Bool, true, false, not, ◌&&◌, List, [], ◌∷◌, ◌++◌, Option, none, some, length, take, ltb,
  leb, is_nil, if◌then◌else◌,
}
use mathlib.Core.Option
use libedi.Base.Chars.{Bytes, codes, same_text}
use libedi.Params.{
  Params, Detector, edi_version, edi_edifact_params, tradacoms_params, x12_params,
  edifact_detectors, tradacoms_detectors, x12_detectors,
}

-- `edi_regparams_t`; a set without a name has the empty name, and `ndetectors` is the length of
-- `detectors`.
pub record RegParams : Type 0 where
  pub name : Bytes
  pub params : Params
  pub nalloc : ℕ
  pub detectors : List Detector

abbrev pub Registry : Type 0
Registry = List RegParams

-- A copied string, or NULL where the version of the source has no such field.
abbrev pub copied : Bool → Option Bytes → Option Bytes
copied has o = if has then o else none

-- `edi__detect_params_copy` into cleared parameters
unfoldable pub params_copy : Params → Params
params_copy src =
    let separators = leb 0x0100 src.version in
    record {
      version = edi_version;
      segment_separator = (if separators then src.segment_separator else b'\'');
      element_separator = (if separators then src.element_separator else b'+');
      subelement_separator = (if separators then src.subelement_separator else b':');
      tag_separator = (if separators then src.tag_separator else b'+');
      escape = (if separators then src.escape else b'?');
      xml_root_node = copied (leb 0x0102 src.version) src.xml_root_node;
      containers = copied (leb 0x0102 src.version) src.containers;
      ss_name = copied (leb 0x0103 src.version) src.ss_name;
      ss_trailer = copied (leb 0x0103 src.version) src.ss_trailer;
    }

-- `edi__detect_rp_init`, which first clears all of `dest`, its name too.
unfoldable pub rp_init : Params → RegParams
unfolding params_copy
rp_init params = record { name = []; params = params_copy params; nalloc = 2; detectors = [] }

-- `sizeof(tbuf) - 1`
abbrev pub name_max : ℕ
name_max = 31

-- `name[0] && 0 == strcmp(name, …)`
unfoldable pub has_name : Bytes → RegParams → Bool
has_name name rp = not (is_nil rp.name) && same_text name rp.name

-- The entry that the loop over `detectparams` stops at is replaced; `none` if it stops at none.
unfoldable pub replace_named : Bytes → RegParams → Registry → Option Registry
unfolding has_name
replace_named name new [] = none
replace_named name new (rp ∷ reg) =
    let later = Option.map (◌∷◌ rp) (replace_named name new reg) in
    if has_name name rp then some (new ∷ reg) else later

abbrev pub or_append : Registry → RegParams → Option Registry → Registry
or_append reg new none = reg ++ new ∷ []
or_append reg new (some reg') = reg'

-- `edi__detect_register_params`, with what the caller does to the entry that it returns. In an
-- entry that is replaced `edi__detect_rp_init` clears the name, which is not set again.
unfoldable pub register_entry :
    Registry → Option Bytes → Params → (RegParams → RegParams) → Registry
unfolding replace_named rp_init
register_entry reg none params use_entry = reg ++ use_entry (rp_init params) ∷ []
register_entry reg (some name) params use_entry =
    let tbuf = take name_max name in
    or_append reg (use_entry (record (rp_init params) { name = tbuf }))
      (replace_named tbuf (use_entry (rp_init params)) reg)

abbrev pub untouched : RegParams → RegParams
untouched rp = rp

unfoldable pub register_params : Registry → Option Bytes → Params → Registry
unfolding register_entry
register_params reg name params = register_entry reg name params untouched

-- `edi__detect_register`
unfoldable pub register_detector : RegParams → Detector → RegParams
register_detector rp d = record rp {
  nalloc = (if ltb rp.nalloc (length rp.detectors + 1) then length rp.detectors + 1 else rp.nalloc);
  detectors = rp.detectors ++ d ∷ [];
}

unfoldable pub register_detectors : RegParams → List Detector → RegParams
unfolding register_detector
register_detectors rp [] = rp
register_detectors rp (d ∷ ds) = register_detectors (register_detector rp d) ds

-- `edi__detect_regset`
unfoldable pub regset : Registry → Bytes → Params → List Detector → Registry
unfolding register_entry register_detectors
regset reg name params ds = register_entry reg (some name) params (λ rp. register_detectors rp ds)

-- `edi__detect_init`
unfoldable pub detect_init : Registry
unfolding regset
detect_init =
    let edifact = regset [] (codes "UN/EDIFACT") edi_edifact_params edifact_detectors in
    let tradacoms = regset edifact (codes "TRADACOMS") tradacoms_params tradacoms_detectors in
    regset tradacoms (codes "ANSI X12") x12_params x12_detectors

-- The library's state: `edi__init_complete` and the registry.
pub record Library : Type 0 where
  pub init_complete : Bool
  pub registry : Registry

abbrev pub start_library : Library
start_library = record { init_complete = false; registry = [] }

-- `edi__init`; it always returns 0.
unfoldable pub init : Library → Library
unfolding detect_init
init l = if l.init_complete then l else record { init_complete = true; registry = detect_init }

-- `edi_params_register`
unfoldable pub params_register : Library → Option Bytes → Params → Library
unfolding init register_params
params_register l name params =
    let l' = init l in record l' { registry = register_params l'.registry name params }

-- The loop of `edi_detect_get`.
unfoldable pub find_named : Bytes → Registry → Option RegParams
unfolding has_name
find_named name [] = none
find_named name (rp ∷ reg) = if has_name name rp then some rp else find_named name reg

-- `edi_detect_get`
unfoldable pub detect_get : Library → Bytes → Option RegParams
unfolding init find_named
detect_get l name = find_named name (init l).registry

abbrev pub params_of : RegParams → Params
params_of rp = rp.params

-- `edi_detect_get_params`
unfoldable pub detect_get_params : Library → Bytes → Option Params
unfolding detect_get
detect_get_params l name = Option.map params_of (detect_get l name)

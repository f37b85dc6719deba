-- ===== src/Params.antt =====
-- `edi_params_t` and `edi_detector_t` of include/libedi.h, and the presets of libedi/edifact.h,
-- libedi/tradacoms.h and libedi/x12.h.
use libedi.Base.{ℕ, List, [], ◌∷◌, Option, none, some}
use libedi.Base.Chars.{Bytes, codes}

-- `edi_params_t`; a NULL string is `none`.
pub record Params : Type 0 where
  pub version : ℕ
  pub segment_separator : ℕ
  pub element_separator : ℕ
  pub subelement_separator : ℕ
  pub tag_separator : ℕ
  pub escape : ℕ
  pub xml_root_node : Option Bytes
  pub containers : Option Bytes
  pub ss_name : Option Bytes
  pub ss_trailer : Option Bytes

-- `edi_detector_t`; a separator position of 0 asks for the default separator.
pub record Detector : Type 0 where
  pub detectstr : Bytes
  pub position : ℕ
  pub skipbytes : ℕ
  pub segment_separator_pos : ℕ
  pub element_separator_pos : ℕ
  pub subelement_separator_pos : ℕ
  pub tag_separator_pos : ℕ
  pub escape_pos : ℕ

-- `EDI_VERSION`
abbrev pub edi_version : ℕ
edi_version = 0x0103

abbrev pub edi_edifact_params : Params
edi_edifact_params = record {
  version = edi_version;
  segment_separator = b'\'';
  element_separator = b'+';
  subelement_separator = b':';
  tag_separator = b'+';
  escape = b'?';
  xml_root_node = some (codes "EDIFACT");
  containers = some (codes "UNB/UNZ,UNG/UNE,UNH/UNT");
  ss_name = some (codes "UNA");
  ss_trailer = some (codes "%s%E.%R %S");
}

-- `edi__default_params`: as for EDIFACT, with no interchange header.
abbrev pub default_params : Params
default_params = record {
  version = edi_version;
  segment_separator = b'\'';
  element_separator = b'+';
  subelement_separator = b':';
  tag_separator = b'+';
  escape = b'?';
  xml_root_node = some (codes "EDIFACT");
  containers = some (codes "UNB/UNZ,UNG/UNE,UNH/UNT");
  ss_name = none;
  ss_trailer = none;
}

-- `if(NULL == params) params = &edi__default_params;`
abbrev pub or_default : Option Params → Params
or_default none = default_params
or_default (some params) = params

abbrev pub tradacoms_params : Params
tradacoms_params = record {
  version = edi_version;
  segment_separator = b'\'';
  element_separator = b'+';
  subelement_separator = b':';
  tag_separator = b'=';
  escape = b'?';
  xml_root_node = some (codes "TRADACOMS");
  containers = some (codes "STX/END,MHD/MTR");
  ss_name = none;
  ss_trailer = none;
}

abbrev pub x12_params : Params
x12_params = record {
  version = edi_version;
  segment_separator = b'~';
  element_separator = b':';
  subelement_separator = b'*';
  tag_separator = b':';
  escape = 0;
  xml_root_node = some (codes "X12");
  containers = some (codes "ISA/IEA,GS/GE,ST/SE");
  ss_name = some (codes "ISA");
  ss_trailer = some (codes "%_%E%s%S");
}

-- A detector that takes all separators from the parameters.
abbrev default_detector : Bytes → Detector
default_detector s = record {
  detectstr = s;
  position = 0;
  skipbytes = 0;
  segment_separator_pos = 0;
  element_separator_pos = 0;
  subelement_separator_pos = 0;
  tag_separator_pos = 0;
  escape_pos = 0;
}

abbrev pub una_detector : Detector
una_detector = record {
  detectstr = codes "UNA";
  position = 0;
  skipbytes = 9;
  segment_separator_pos = 8;
  element_separator_pos = 4;
  subelement_separator_pos = 3;
  tag_separator_pos = 4;
  escape_pos = 6;
}

abbrev pub isa_detector : Detector
isa_detector = record {
  detectstr = codes "ISA";
  position = 0;
  skipbytes = 0;
  segment_separator_pos = 105;
  element_separator_pos = 6;
  subelement_separator_pos = 104;
  tag_separator_pos = 3;
  escape_pos = 0;
}

-- The tables, without the NULL entry that ends each.
abbrev pub edifact_detectors : List Detector
edifact_detectors = una_detector ∷ default_detector (codes "UNB") ∷ []

abbrev pub tradacoms_detectors : List Detector
tradacoms_detectors = default_detector (codes "STX") ∷ []

abbrev pub x12_detectors : List Detector
x12_detectors = isa_detector ∷ []

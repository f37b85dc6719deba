-- ===== src/Command/Flags.antt =====
-- What the options of xml/edi2xml.c turn on, each by itself and all together.
use mathlib.Core.Bool.{◌||◌, ◌&&◌}
use libedi.Base.{ℕ, Bool, true, false, List, [], ◌∷◌, ◌==◌, if◌then◌else◌}
use libedi.Base.Chars.{Bytes}
use libedi.Command.{Opt, Settings}

-- The settings that options can turn on.
pub record Flags : Type 0 where
  pub segment_names : Bool
  pub element_names : Bool
  pub coded_values : Bool
  pub translated : Bool
  pub elements : Bool

abbrev pub either : Flags → Flags → Flags
either a b = record {
  segment_names = a.segment_names || b.segment_names;
  element_names = a.element_names || b.element_names;
  coded_values = a.coded_values || b.coded_values;
  translated = a.translated || b.translated;
  elements = a.elements || b.elements;
}

abbrev pub no_flag : Flags
no_flag = record {
  segment_names = false;
  element_names = false;
  coded_values = false;
  translated = false;
  elements = false;
}

abbrev pub flags_of : Settings → Flags
flags_of s = record {
  segment_names = s.opts.comments_segment_names;
  element_names = s.opts.comments_element_names;
  coded_values = s.opts.comments_coded_values;
  translated = s.opts.translate_coded_values;
  elements = s.opts.translate_coded_to_elements;
}

-- Whether a letter is among those of a comment option, and whether an option asks for it.
abbrev pub letter_in : ℕ → Bytes → Bool
letter_in k [] = false
letter_in k (c ∷ optarg) = (c == k) || letter_in k optarg

abbrev pub asks : ℕ → Opt → Bool
asks k p = (p.ch == b'c') && letter_in k p.optarg

-- What an option turns on: -e implies -d.
abbrev pub effect : Opt → Flags
effect p = record {
  segment_names = asks b's' p;
  element_names = asks b'e' p;
  coded_values = asks b'c' p;
  translated = (p.ch == b'd') || (p.ch == b'e');
  elements = p.ch == b'e';
}

-- What some of them do together.
abbrev pub effects : List Opt → Flags
effects [] = no_flag
effects (p ∷ ps) = either (effect p) (effects ps)

abbrev pub is_known : Opt → Bool
is_known p =
    (p.ch == b'c') || ((p.ch == b'e') || ((p.ch == b'd') || ((p.ch == b'x') || (p.ch == b'S'))))

abbrev pub all_known : List Opt → Bool
all_known [] = true
all_known (p ∷ ps) = is_known p && all_known ps

-- The last directory, or the one before the options.
abbrev pub last_dir : List Opt → Bytes → Bytes
last_dir [] dir = dir
last_dir (p ∷ ps) dir = last_dir ps (if p.ch == b'S' then p.optarg else dir)

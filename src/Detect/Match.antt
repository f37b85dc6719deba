-- ===== src/Detect/Match.antt =====
-- `edi__detect` of libedi/detect.c.
use libedi.Base.{
  ℕ, ◌+◌, Bool, not, ◌&&◌, ◌||◌, List, [], ◌∷◌, Option, none, some, length, get_or, ltb, leb, ◌==◌,
  if◌then◌else◌,
}
use libedi.Base.Chars.{Bytes, same_prefix}
use libedi.Params.{Params, Detector, edi_version}
use libedi.Detect.Registry.{Registry}

-- The outcome: the parameters filled in and the bytes to skip, no match, or a read behind the NUL
-- of the message.
pub data Detected : Type 0 where
  found : Params → ℕ → Detected
  no_match out_of_bounds : Detected

-- `message[i]`; `none` behind the NUL.
unfoldable pub fetch : Bytes → ℕ → Option ℕ
fetch message i = if leb i (length message) then some (get_or message i 0) else none

-- A separator: the default, or the byte of the message at the detector's position.
unfoldable pub pick : Bytes → ℕ → ℕ → ℕ → Option ℕ
unfolding fetch
pick message position separator_pos default =
    if separator_pos == 0 then some default else fetch message (position + separator_pos)

-- The parameters that `edi__detect` fills in; the strings are left alone.
abbrev pub detected_params : ℕ → ℕ → ℕ → ℕ → ℕ → Params
detected_params seg elem sub tag esc = record {
  version = edi_version;
  segment_separator = seg;
  element_separator = elem;
  subelement_separator = sub;
  tag_separator = tag;
  escape = esc;
  xml_root_node = none;
  containers = none;
  ss_name = none;
  ss_trailer = none;
}

abbrev with_read : Option ℕ → (ℕ → Detected) → Detected
with_read none k = out_of_bounds
with_read (some c) k = k c

-- The body behind a match.
unfoldable pub fill_params : Params → Detector → Bytes → Detected
unfolding pick
fill_params p d message =
    with_read (pick message d.position d.segment_separator_pos p.segment_separator) λ seg.
      with_read (pick message d.position d.element_separator_pos p.element_separator) λ elem.
        with_read (pick message d.position d.subelement_separator_pos p.subelement_separator) λ sub.
          with_read (pick message d.position d.tag_separator_pos p.tag_separator) λ tag.
            with_read (pick message d.position d.escape_pos p.escape)
              λ esc. found (detected_params seg elem sub tag esc) d.skipbytes

-- The tests on the length, and the comparison, which is with the start of the message.
unfoldable pub matches : Detector → Bytes → Bool
matches d message =
    let len = length message in
    let size = length d.detectstr in
    not (ltb len d.position || ltb len (d.position + size) || ltb len d.skipbytes)
    && same_prefix size d.detectstr message

-- The two loops.
unfoldable pub try_detectors : Params → List Detector → Bytes → Detected → Detected
unfolding fill_params matches
try_detectors p [] message otherwise = otherwise
try_detectors p (d ∷ ds) message otherwise =
    if matches d message then fill_params p d message else try_detectors p ds message otherwise

unfoldable pub detect : Registry → Bytes → Detected
unfolding try_detectors
detect [] message = no_match
detect (rp ∷ reg) message = try_detectors rp.params rp.detectors message (detect reg message)

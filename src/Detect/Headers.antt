-- ===== src/Detect/Headers.antt =====
-- What `edi__detect` of libedi/detect.c finds with the dialects that `edi__detect_init` registers.
use libedi.Base.{ℕ, ◌≤◌, ◌<◌, List, [], ◌∷◌, ◌++◌, ◌≡◌, ◌↔◌, refl, arith, length, get_or}
use libedi.Base.Chars.{Bytes, codes, same_prefix, same_text}
use libedi.Params.{
  Params, Detector, edi_edifact_params, tradacoms_params, x12_params, edifact_detectors,
  tradacoms_detectors, x12_detectors,
}
use libedi.Detect.Registry.{detect_init, RegParams, Registry, register_params}
use libedi.Detect.Match.{found, out_of_bounds, detected_params, fetch, detect}

abbrev entry : Bytes → Params → List Detector → RegParams
entry name params ds = record { name = name; params = params; nalloc = 2; detectors = ds }

-- The registry that `edi__detect_init` makes.
abbrev pub dialects : Registry
dialects =
    entry (codes "UN/EDIFACT") edi_edifact_params edifact_detectors
    ∷ entry (codes "TRADACOMS") tradacoms_params tradacoms_detectors
    ∷ entry (codes "ANSI X12") x12_params x12_detectors
    ∷ []

pub detect_init-dialects : detect_init ≡ dialects
unfolding detect_init same_text register_params
detect_init-dialects = refl

-- A message that starts with UNA is read with the separators that stand behind it, and its first
-- nine bytes are skipped.
detect_una :
    (sub data_sep decimal esc reserved seg : ℕ) (rest : Bytes)
    → detect detect_init (codes "UNA" ++ sub ∷ data_sep ∷ decimal ∷ esc ∷ reserved ∷ seg ∷ rest)
      ≡ found (detected_params seg data_sep sub data_sep esc) 9
unfolding detect same_prefix
detect_una sub data_sep decimal esc reserved seg rest = rw detect_init-dialects (ground arith)

-- A message that starts with UNB is read with the default separators of EDIFACT, and nothing of it
-- is skipped.
pub detect_unb :
    (rest : Bytes)
    → detect detect_init (codes "UNB" ++ rest) ≡ found (detected_params b'\'' b'+' b':' b'+' b'?') 0
unfolding detect same_prefix
detect_unb rest = rw detect_init-dialects (ground arith)

-- A message that starts with STX is read with the separators of TRADACOMS, whose tag separator is
-- not its element separator.
detect_stx :
    (rest : Bytes)
    → detect detect_init (codes "STX" ++ rest) ≡ found (detected_params b'\'' b'+' b':' b'=' b'?') 0
unfolding detect same_prefix
detect_stx rest = rw detect_init-dialects (ground arith)

-- A message that starts with ISA and holds the whole header takes its separators from there.
detect_isa :
    (rest : Bytes)
    → 102 ≤ length rest
    → detect detect_init (codes "ISA" ++ rest)
      ≡ found
          (detected_params
            (get_or rest 102 0)
            (get_or rest 3 0)
            (get_or rest 101 0)
            (get_or rest 0 0)
            0)
          0
unfolding detect same_prefix fetch
detect_isa rest h = rw detect_init-dialects (ground arith)

-- A message that starts with UNA is read with the separators that stand behind it, and its first nine
-- bytes are skipped; of one that starts with UNB or STX nothing is skipped, and it is read with the
-- default separators of EDIFACT or with those of TRADACOMS, whose tag separator is not its element
-- separator; one that starts with ISA and holds the whole header takes its separators from there.
pub detect_presets :
    (sub data_sep decimal esc reserved seg : ℕ) (rest isa : Bytes)
    → 102 ≤ length isa
    → (detect detect_init (codes "UNA" ++ sub ∷ data_sep ∷ decimal ∷ esc ∷ reserved ∷ seg ∷ rest)
        ≡ found (detected_params seg data_sep sub data_sep esc) 9)
      × (detect detect_init (codes "UNB" ++ rest)
          ≡ found (detected_params b'\'' b'+' b':' b'+' b'?') 0)
      × (detect detect_init (codes "STX" ++ rest)
          ≡ found (detected_params b'\'' b'+' b':' b'=' b'?') 0)
      × (detect detect_init (codes "ISA" ++ isa)
          ≡ found
              (detected_params
                (get_or isa 102 0)
                (get_or isa 3 0)
                (get_or isa 101 0)
                (get_or isa 0 0)
                0)
              0)
detect_presets sub data_sep decimal esc reserved seg rest isa h = (
  detect_una sub data_sep decimal esc reserved seg rest,
  detect_unb rest,
  detect_stx rest,
  detect_isa isa h,
)

isa_short :
    (rest : Bytes) → length rest < 102 → detect detect_init (codes "ISA" ++ rest) ≡ out_of_bounds
unfolding detect same_prefix fetch
isa_short rest h = rw detect_init-dialects (ground arith)

isa_bytes :
    (a b c : ℕ) (rest : Bytes)
    → detect dialects (a ∷ b ∷ c ∷ rest) ≡ out_of_bounds
    → (a ≡ b'I') × (b ≡ b'S') × (c ≡ b'A') × (length rest < 102)
unfolding detect same_prefix fetch
isa_bytes a b c rest h = ground arith

-- The message is ISA and fewer than 102 bytes.
abbrev pub IsShortIsa : Bytes → Type 0
IsShortIsa m = (rest : Bytes) × (m ≡ codes "ISA" ++ rest) × (length rest < 102)

isa_only : (m : Bytes) → detect dialects m ≡ out_of_bounds → IsShortIsa m
unfolding detect same_prefix fetch
isa_only [] h = cc
isa_only (a ∷ []) h = absurd (ground arith)
isa_only (a ∷ b ∷ []) h = absurd (ground arith)
isa_only (a ∷ b ∷ c ∷ rest) h = let k = isa_bytes a b c rest h in (rest, rw (k.0, k.1, k.2), k.3)

-- Detection reads behind the end of the message for a message that starts with ISA and ends
-- before the header's last separator, and for no other one.
pub detect_out_of_bounds : (m : Bytes) → (detect detect_init m ≡ out_of_bounds) ↔ IsShortIsa m
detect_out_of_bounds m =
    (λ h. isa_only m (rw detect_init-dialects at h), λ k. rw k.1 (isa_short k.0 k.2))

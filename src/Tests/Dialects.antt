-- ===== src/Tests/Dialects.antt =====
-- Runs of the registry and of the detection of libedi/detect.c, and of the string pools of
-- libedi/stringpool.c.
use libedi.Base.{◌+◌, ◌≤◌, [], ◌∷◌, ◌++◌, ◌≡◌, ◌↔◌, refl, arith, none, some}
use libedi.Base.Chars.{Bytes, codes, same_text}
use libedi.Params.{default_params, edi_edifact_params, una_detector, isa_detector}
use libedi.Detect.Registry.{
  start_library, has_name, init, params_register, detect_init, detect_get_params, register_params,
}
use libedi.Detect.Heap.{
  Registration, empty_store, register_all, register_named, replace_entry, make_entry, entry_init,
  entry_detectors, rp_cleanup, live_blocks, blocks_of, uncleaned,
}
use libedi.Detect.Fair.{count}
use libedi.Detect.Once.{register_all_once, register_named-loses}
use libedi.Detect.Match.{found, out_of_bounds, detected_params, detect}
use libedi.Detect.Headers.{detect_presets, detect_out_of_bounds, IsShortIsa}
use libedi.Detect.Names.{register_get_again}

-- A header of the right length, with `*` and `~`.
abbrev isa_header : Bytes
isa_header =
    codes
      "*00*          *00*          *ZZ*SENDERID       *ZZ*RECEIVERID     *030101*1253*U*00401*000000905*0*T*:~"

detect_presets_example :
    (detect detect_init (codes "UNA:+.? 'UNB+1'")
      ≡ found (detected_params b'\'' b'+' b':' b'+' b'?') 9)
    × (detect detect_init (codes "UNBUNB+1'") ≡ found (detected_params b'\'' b'+' b':' b'+' b'?') 0)
    × (detect detect_init (codes "STXUNB+1'") ≡ found (detected_params b'\'' b'+' b':' b'=' b'?') 0)
    × (detect detect_init (codes "ISA" ++ isa_header)
        ≡ found (detected_params b'~' b'*' b':' b'*' 0) 0)
detect_presets_example =
    detect_presets b':' b'+' b'.' b'?' b' ' b'\'' (codes "UNB+1'") isa_header (omega arith)

detect_out_of_bounds_example :
    (detect detect_init (codes "ISA*00") ≡ out_of_bounds) ↔ IsShortIsa (codes "ISA*00")
detect_out_of_bounds_example = detect_out_of_bounds (codes "ISA*00")

program : Unit {0}
unfolding init detect_init register_params same_text has_name
program = tt

-- A second registration under a preset's name.
register_get_again_example :
    detect_get_params
      (params_register start_library (some (codes "TRADACOMS")) default_params)
      (codes "TRADACOMS")
    ≡ none
unfolding program
register_get_again_example =
    register_get_again start_library (codes "TRADACOMS") default_params (omega arith) (record {
      before_entry = _ ∷ [];
      entry = _;
      after_entry = _ ∷ [];
      split = refl;
      before_fresh = (refl, tt);
      has = refl;
      after_fresh = (refl, tt);
    })

-- A dialect with three detectors, registered twice under one name.
abbrev odette : Registration
odette = record {
  name = some (codes "ODETTE");
  params = edi_edifact_params;
  detectors = una_detector ∷ isa_detector ∷ una_detector ∷ [];
}

heap_program : Unit {0}
unfolding register_all register_named replace_entry make_entry entry_init entry_detectors rp_cleanup
    live_blocks blocks_of uncleaned count has_name same_text
heap_program = tt

-- The blocks of two registrations: the array is moved at the third detector.
twice_freed :
    (register_all empty_store (odette ∷ odette ∷ [])).0.freed ≡ 4 ∷ 5 ∷ 6 ∷ 8 ∷ 0 ∷ 1 ∷ 13 ∷ []
unfolding heap_program
twice_freed = refl

register_all_once_example :
    count 0 ((register_all empty_store (odette ∷ odette ∷ [])).0.freed)
      + count 0 (live_blocks (register_all empty_store (odette ∷ odette ∷ [])).1)
    ≤ 1
register_all_once_example = register_all_once (odette ∷ odette ∷ []) 0

-- Block 2 is the copy of `ss_name`.
register_named-loses_example :
    let s =
      register_all
        (register_named (register_all empty_store (odette ∷ [])) (some (codes "ODETTE")) odette)
        (odette ∷ []) in
    count 2 (s.0.freed) + count 2 (live_blocks (s.1)) ≡ 0
unfolding heap_program
register_named-loses_example =
    register_named-loses (odette ∷ []) (odette ∷ []) (codes "ODETTE") odette [] _ [] 2 refl tt refl
      (omega arith)

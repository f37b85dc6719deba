-- ===== src/Detect/Heap.antt =====
-- The blocks of the heap that the entries of `detectparams` point to, in libedi/detect.c: what
-- registering parameters and detectors allocates and frees. The entries themselves and the array of
-- them are never freed, and are left out.
use libedi.Base.{
  ℕ, ◌+◌, List, [], ◌∷◌, ◌++◌, Option, none, some, length, take, ltb, leb, if◌then◌else◌,
}
use mathlib.Core.Option
use libedi.Base.Chars.{Bytes}
use libedi.Params.{Params, Detector}
use libedi.Detect.Registry.{
  RegParams, Registry, rp_init, copied, name_max, has_name, register_detector,
}

-- Blocks are numbered in the order they are allocated in, `next` being the number of the next one;
-- `freed` lists what was handed to `free`, in order.
pub record Heap : Type 0 where
  pub next : ℕ
  pub freed : List ℕ

-- The pointers of an entry; a NULL string is `none`, and `table` is `detectors`, an array with the
-- strings `detectstrs`.
pub record Pointers : Type 0 where
  pub xml_root_node : Option ℕ
  pub containers : Option ℕ
  pub ss_name : Option ℕ
  pub ss_trailer : Option ℕ
  pub table : ℕ
  pub detectstrs : List ℕ

pub record OwnedEntry : Type 0 where
  pub rp : RegParams
  pub pointers : Pointers

abbrev pub Store : Type 0
Store = Heap × List OwnedEntry

abbrev pub empty_store : Store
empty_store = (record { next = 0; freed = [] }, [])

abbrev pub alloc : Heap → Heap
alloc h = record { next = h.next + 1; freed = h.freed }

abbrev pub free_blocks : Heap → List ℕ → Heap
free_blocks h bs = record { next = h.next; freed = h.freed ++ bs }

-- What `free` does with a pointer that may be NULL.
abbrev pub unless_null : Option ℕ → List ℕ
unless_null none = []
unless_null (some b) = b ∷ []

-- `if(NULL != s) p = strdup(s)`, with the pointer that it leaves.
abbrev pub strdup : Heap → Option Bytes → Heap × Option ℕ
strdup h none = (h, none)
strdup h (some s) = (alloc h, some h.next)

-- The allocations of `edi__detect_rp_init` and of `edi__detect_params_copy`.
unfoldable pub entry_init : Heap → Params → Heap × OwnedEntry
unfolding rp_init
entry_init h src =
    let root = strdup h (copied (leb 0x0102 src.version) src.xml_root_node) in
    let containers = strdup root.0 (copied (leb 0x0102 src.version) src.containers) in
    let name = strdup containers.0 (copied (leb 0x0103 src.version) src.ss_name) in
    let trailer = strdup name.0 (copied (leb 0x0103 src.version) src.ss_trailer) in
    (
      alloc trailer.0,
      record {
        rp = rp_init src;
        pointers = record {
          xml_root_node = root.1;
          containers = containers.1;
          ss_name = name.1;
          ss_trailer = trailer.1;
          table = trailer.0.next;
          detectstrs = [];
        };
      },
    )

-- `edi__detect_rp_cleanup`: the blocks that it hands to `free`.
unfoldable pub rp_cleanup : Pointers → List ℕ
rp_cleanup p = p.detectstrs ++ unless_null p.xml_root_node ++ unless_null p.containers

-- `edi__detect_register`: an array that is full is moved to a new block.
unfoldable pub entry_detector : Heap → OwnedEntry → Detector → Heap × OwnedEntry
unfolding register_detector
entry_detector h e d =
    let full = ltb e.rp.nalloc (length e.rp.detectors + 1) in
    let h' = if full then free_blocks (alloc h) (e.pointers.table ∷ []) else h in
    let table' = if full then h.next else e.pointers.table in
    (
      alloc h',
      record {
        rp = register_detector e.rp d;
        pointers = record (e.pointers) {
          table = table';
          detectstrs = e.pointers.detectstrs ++ h'.next ∷ [];
        };
      },
    )

unfoldable pub entry_detectors : Heap × OwnedEntry → List Detector → Heap × OwnedEntry
unfolding entry_detector
entry_detectors he [] = he
entry_detectors he (d ∷ ds) = entry_detectors (entry_detector (he.0) (he.1) d) ds

-- The parameters that one call registers, and the detectors that follow.
pub record Registration : Type 0 where
  pub name : Option Bytes
  pub params : Params
  pub detectors : List Detector

abbrev named : Bytes → Heap × OwnedEntry → Heap × OwnedEntry
named name (h, e) = (h, record { rp = record (e.rp) { name = name }; pointers = e.pointers })

-- The entry that the call makes, with the name that is set.
unfoldable pub make_entry : Heap → Bytes → Registration → Heap × OwnedEntry
unfolding entry_init entry_detectors
make_entry h name r = entry_detectors (named name (entry_init h r.params)) r.detectors

abbrev pub put_first : Heap × OwnedEntry → List OwnedEntry → Store
put_first he es = (he.0, he.1 ∷ es)

abbrev pub put_behind : OwnedEntry → Store → Store
put_behind e hes = (hes.0, e ∷ hes.1)

-- The loop over `detectparams`: the entry that it stops at is cleaned up and made again, without
-- a name; `none` if it stops at none.
unfoldable pub replace_entry : Heap → Bytes → Registration → List OwnedEntry → Option Store
unfolding has_name rp_cleanup make_entry
replace_entry h name r [] = none
replace_entry h name r (e ∷ es) =
    let later = Option.map (put_behind e) (replace_entry h name r es) in
    if has_name name e.rp
    then some (put_first (make_entry (free_blocks h (rp_cleanup e.pointers)) [] r) es)
    else later

abbrev pub append_entry : List OwnedEntry → Heap × OwnedEntry → Store
append_entry es he = (he.0, es ++ he.1 ∷ [])

abbrev pub or_appended : List OwnedEntry → Heap × OwnedEntry → Option Store → Store
or_appended es he none = append_entry es he
or_appended es he (some hes) = hes

-- `edi__detect_register_params`, by whether the name is NULL, with the detectors that follow.
unfoldable pub register_named : Store → Option Bytes → Registration → Store
unfolding replace_entry make_entry
register_named (h, es) none r = append_entry es (make_entry h [] r)
register_named (h, es) (some name) r =
    let tbuf = take name_max name in
    or_appended es (make_entry h tbuf r) (replace_entry h tbuf r es)

unfoldable pub register_all : Store → List Registration → Store
unfolding register_named
register_all s [] = s
register_all s (r ∷ rs) = register_all (register_named s r.name r) rs

-- The blocks that an entry points to, and those that all entries do.
unfoldable pub blocks_of : Pointers → List ℕ
blocks_of p =
    p.detectstrs
    ++ unless_null p.xml_root_node
    ++ unless_null p.containers
    ++ unless_null p.ss_name
    ++ unless_null p.ss_trailer
    ++ p.table ∷ []

-- The blocks that `edi__detect_rp_cleanup` leaves alone.
unfoldable pub uncleaned : Pointers → List ℕ
uncleaned p = unless_null p.ss_name ++ unless_null p.ss_trailer ++ p.table ∷ []

unfoldable pub live_blocks : List OwnedEntry → List ℕ
unfolding blocks_of
live_blocks [] = []
live_blocks (e ∷ es) = blocks_of e.pointers ++ live_blocks es

unfoldable pub registry_of : List OwnedEntry → Registry
registry_of [] = []
registry_of (e ∷ es) = e.rp ∷ registry_of es

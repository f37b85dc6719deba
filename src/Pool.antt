-- ===== src/Pool.antt =====
-- The string pools of libedi/stringpool.c: blocks of bytes out of which the values of one
-- interchange are cut.
pub mod Bounds
use libedi.Base.{
  ℕ, ◌+◌, Bool, true, false, List, [], ◌∷◌, Option, none, some, ltb, leb, ◌==◌, ◌&&◌, ◌||◌, length,
  if◌then◌else◌,
}

-- One pool: `poolsize[c]`, and `sp[c] - stringpool[c]`.
pub record Pool : Type 0 where
  pub poolsize : ℕ
  pub used : ℕ

-- A `char *` into a pool: the pool's index and the offset from its start.
pub record Ref : Type 0 where
  pub pool : ℕ
  pub offset : ℕ

-- `STRINGPOOL_BLOCKSIZE`
abbrev pub stringpool_blocksize : ℕ
stringpool_blocksize = 512

-- The pools of an interchange, the most recently created one first; the index of a pool is the
-- number of pools that stand behind it, and `npools` is the length of the list.
abbrev pub Pools : Type 0
Pools = List Pool

-- A new pool at the next index.
abbrev pub create_pool : Pools → ℕ → Pool × Pools
create_pool ps minsize =
    let n = if ltb stringpool_blocksize minsize then minsize else stringpool_blocksize in
    (record { poolsize = n; used = 0 }, ps)

-- `edi__stringpool_get`: the pool that it returns the index of, in front of the older ones.
unfoldable pub stringpool_get : Pools → ℕ → Pool × Pools
stringpool_get [] minsize = create_pool [] minsize
stringpool_get (p ∷ ps) minsize =
    if ltb (p.used + minsize) p.poolsize then (p, ps) else create_pool (p ∷ ps) minsize

-- `edi__stringpool_alloc`: the pools after it, and the pointer to the buffer.
unfoldable pub stringpool_alloc : Pools → ℕ → Pools × Ref
stringpool_alloc ps len =
    let (p, older) = stringpool_get ps len in
    (record p { used = p.used + len } ∷ older, record { pool = length older; offset = p.used })

-- The test of `edi__stringpool_free`: the pointer lies in the used part of a pool. Otherwise the
-- function hands it to `free`.
unfoldable pub in_stringpool : Pools → Ref → Bool
in_stringpool [] r = false
in_stringpool (p ∷ ps) r = (r.pool == length ps && ltb r.offset p.used) || in_stringpool ps r

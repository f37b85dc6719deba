-- ===== src/Pool/Bounds.antt =====
-- Buffers of the pools of libedi/stringpool.c lie inside their pool and apart from one another.
use libedi.Base.{ℕ, ◌+◌, ◌≤◌, ◌<◌, true, [], ◌∷◌, ◌≡◌, ◌⊎◌, inl, inr, arith, length, All}
use libedi.Pool.{Ref, Pools, stringpool_get, stringpool_alloc, in_stringpool}

-- No pool is used beyond its size.
abbrev pub IsBounded : Pools → Type 0
IsBounded = All (λ p. p.used ≤ p.poolsize)

-- `n` bytes at `r` are in the used part of its pool.
abbrev pub Holds : Pools → Ref → ℕ → Type 0
Holds [] r n = ⊥
Holds (p ∷ ps) r n = ((r.pool ≡ length ps) × (r.offset + n ≤ p.used)) ⊎ Holds ps r n

pub Holds-lt : (ps : Pools) (r : Ref) (n : ℕ) → Holds ps r n → r.pool < length ps
Holds-lt [] r n h = absurd h
Holds-lt (p ∷ ps) r n (inl h) = omega arith
Holds-lt (p ∷ ps) r n (inr h) = omega (arith, Holds-lt ps r n h)

-- After `edi__stringpool_get` the pool has room for the size asked for.
pub stringpool_get_room :
    (ps : Pools) (n : ℕ) → (stringpool_get ps n).0.used + n ≤ (stringpool_get ps n).0.poolsize
unfolding stringpool_get
stringpool_get_room [] n = ground arith
stringpool_get_room (p ∷ ps) n = ground arith

-- Allocating keeps every pool within its size.
pub stringpool_alloc-IsBounded :
    (ps : Pools) (n : ℕ) → IsBounded ps → IsBounded (stringpool_alloc ps n).0
unfolding stringpool_get stringpool_alloc
stringpool_alloc-IsBounded [] n h = ground arith
stringpool_alloc-IsBounded (p ∷ ps) n h = ground arith

-- The new buffer is in the used part of its pool.
pub stringpool_alloc-Holds :
    (ps : Pools) (n : ℕ) → Holds (stringpool_alloc ps n).0 (stringpool_alloc ps n).1 n
unfolding stringpool_get stringpool_alloc
stringpool_alloc-Holds [] n = ground arith
stringpool_alloc-Holds (p ∷ ps) n = ground arith

-- A buffer handed out before stays in the used part.
pub stringpool_alloc-Holds_old :
    (ps : Pools) (n : ℕ) (r : Ref) (m : ℕ) → Holds ps r m → Holds (stringpool_alloc ps n).0 r m
unfolding stringpool_get stringpool_alloc
stringpool_alloc-Holds_old [] n r m h = absurd h
stringpool_alloc-Holds_old (p ∷ ps) n r m h = ground arith

-- `n` bytes at `r` and `k` bytes at `s` share no byte.
abbrev pub Apart : Ref → ℕ → Ref → ℕ → Type 0
Apart r n s k = r.pool ≡ s.pool → (r.offset + n ≤ s.offset) ⊎ (s.offset + k ≤ r.offset)

-- The new buffer shares no byte with one handed out before.
pub stringpool_alloc-Apart :
    (ps : Pools) (n : ℕ) (r : Ref) (m : ℕ) → Holds ps r m → Apart r m (stringpool_alloc ps n).1 n
unfolding stringpool_get stringpool_alloc
stringpool_alloc-Apart [] n r m h e = absurd h
stringpool_alloc-Apart (p ∷ ps) n r m (inl h) e = ground arith
stringpool_alloc-Apart (p ∷ ps) n r m (inr h) e = ground (arith, Holds-lt ps r m h)

-- A buffer of at least one byte is recognised by `edi__stringpool_free`, which then frees nothing.
pub Holds-in_stringpool :
    (ps : Pools) (r : Ref) (n : ℕ) → 0 < n → Holds ps r n → in_stringpool ps r ≡ true
unfolding in_stringpool
Holds-in_stringpool [] r n pos h = absurd h
Holds-in_stringpool (p ∷ ps) r n pos (inl h) = ground arith
Holds-in_stringpool (p ∷ ps) r n pos (inr h) = ground (arith, Holds-in_stringpool ps r n pos h)

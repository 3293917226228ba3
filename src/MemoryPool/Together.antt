-- ===== src/MemoryPool/Together.antt =====
-- What a new pool of src/MemoryPoolBase.cpp keeps to whatever its threads do.
use reiser_rt_core.Prelude.{
  ℕ, ◌+◌, ◌*◌, ◌%◌, ◌^◌, ◌≤◌, ◌<◌, ◌≡◌, refl, ap, subst, List, ◌∷◌, ◌++◌, arith, length, some,
}
use reiser_rt_core.Prelude.Families.{total, total-zero_below}
use reiser_rt_core.Prelude.Occurrences.{occurrences}
use reiser_rt_core.Prelude.Words.{u32}
use reiser_rt_core.Outcome.{Exception, returns, throws}
use reiser_rt_core.RingBufferSimple.Contents.{elements_bounds}
use reiser_rt_core.MemoryPool.{MemoryPool, pointer_size, construct, memset}
use reiser_rt_core.MemoryPool.Ownership.{IsBlock}
use reiser_rt_core.MemoryPool.Construction.{construct-Owns}
use reiser_rt_core.MemoryPool.Threads.{ring_get, ring_put, outside, has_counted, Shared, Reach}
use reiser_rt_core.MemoryPool.Sharing.{in_hand, holding, taking, putting, Inv}
use reiser_rt_core.MemoryPool.Interleaving.{Reach-Inv}
use reiser_rt_core.MemoryPool.Concurrent.{
  start, start-Inv, held_one, held-IsBlock, clear_inside, put_has_room, throws_when_all_held,
}
use reiser_rt_core.MemoryPool.Leaving.{Leaves, call-Leaves}

constructed-Inv :
    (garbage bytes : ℕ → ℕ) (requested size n : ℕ) {p : MemoryPool}
    → size * 2 ^ 20 < 2 ^ 64
    → 0 < size
    → size % pointer_size ≡ 0
    → construct garbage bytes requested size ≡ returns p
    → Inv n (start p)
constructed-Inv garbage bytes requested size n {p} fits pos aligned c =
    let (p', c', owns, e, k) = construct-Owns garbage bytes requested size fits in
    let same_pool : p' ≡ p = cc in
    subst (λ z. Inv n (start z)) same_pool (start-Inv n p' (rw e pos) (rw e aligned) owns)

-- Threads that call a new pool, of blocks of a whole number of pointers, not empty and small enough
-- that 2 ^ 20 of them have an address, each from one access to the next in any interleaving.
module _ (garbage bytes : ℕ → ℕ) (requested size : ℕ) {p : MemoryPool}
    (fits : size * 2 ^ 20 < 2 ^ 64) (pos : 0 < size) (aligned : size % pointer_size ≡ 0)
    (made : construct garbage bytes requested size ≡ returns p) {n : ℕ} {s : Shared}
    (r : Reach n (start p) s) where
  now : Inv n s
  now = Reach-Inv (constructed-Inv garbage bytes requested size n fits pos aligned made) r

  -- A new pool, of blocks of a whole number of pointers, not empty and small enough that 2 ^ 20 of
  -- them have an address, with any number of threads in any interleaving: no address is at once in
  -- the hands of two, be they threads within getRawBlock or clients, or twice of one; and what is
  -- in a hand is the address of a block of the arena.
  pub blocks_apart :
      (a : ℕ)
      → let held = total (in_hand a) n s.pc + occurrences a s.clients in
        (held ≤ 1) × (0 < held → IsBlock s.pool a)
  blocks_apart a = (held_one now a, held-IsBlock now a)

  -- For such a pool and such threads, a thread that is to clear its block never leaves the arena, a
  -- client that returns a block finds room in the ring, and a get is refused only while all blocks
  -- of the pool are with threads and clients.
  pub calls_succeed :
      ((i raw : ℕ)
        → i < n
        → s.pc i ≡ has_counted raw
        → (cleared_bytes : List ℕ) × (memset s.pool.arena raw 0 s.pool.padded_element_size
            ≡ some cleared_bytes))
      × ((raw : ℕ) (before after : List ℕ)
          → s.clients ≡ before ++ raw ∷ after
          → (ring_put raw s.pool).0 ≡ returns tt)
      × ((x : Exception)
          → (ring_get s.pool).0 ≡ throws x
          → total holding n s.pc + length s.clients ≡ s.pool.pool_size)
  calls_succeed = (clear_inside now, put_has_room now, throws_when_all_held now)

  -- For such a pool and such threads, the running count differs from the number of blocks that are
  -- with no thread and no client by what is under way: modulo 2 ^ 32, the count, the puts not yet
  -- counted and the blocks held are together the size of the pool and the gets not yet counted.
  -- With every thread outside, the count is exact.
  pub running_count_exact :
      (u32 (s.pool.running_count + total putting n s.pc + (total holding n s.pc + length s.clients))
        ≡ u32 (s.pool.pool_size + total taking n s.pc))
      × (((i : ℕ) → i < n → s.pc i ≡ outside)
          → s.pool.running_count + length s.clients ≡ s.pool.pool_size)
  running_count_exact = (
    omega (arith, now.running, now.all_there),
    λ out. omega (
      arith,
      now.running,
      now.all_there,
      now.range,
      total-zero_below putting n s.pc (λ i l. ap putting (out i l)),
      total-zero_below taking n s.pc (λ i l. ap taking (out i l)),
      total-zero_below holding n s.pc (λ i l. ap holding (out i l)),
      now.size,
      elements_bounds s.pool.ring_buffer now.ring.sized,
    ),
  )

  -- For such a pool and such threads, a thread within a call can leave it, wherever the others
  -- stand: there is a run of at most three steps, in which no other thread moves, at whose end it
  -- is outside.
  pub calls_end : (i : ℕ) → i < n → Leaves n 3 i s
  calls_end i l = call-Leaves now l (s.pc i) refl

-- ===== src/MemoryPool/ThreadTests.antt =====
-- Two threads on a pool of two blocks of src/MemoryPoolBase.cpp.
use reiser_rt_core.Prelude.{
  ℕ, ◌+◌, ◌≤◌, ◌<◌, ◌≡◌, refl, List, [], ◌∷◌, ◌++◌, arith, length, some, ℕ_discrete,
}
use reiser_rt_core.Prelude.Families.{total}
use reiser_rt_core.Prelude.Occurrences.{occurrences}
use reiser_rt_core.Prelude.Words.{u32}
use reiser_rt_core.Outcome.{Exception, returns, throws}
use reiser_rt_core.RingBufferSimple as Ring
use reiser_rt_core.MemoryPool.{memset, fill, get_padded_type_alloc_size}
use reiser_rt_core.MemoryPool.Ownership.{IsBlock}
use reiser_rt_core.MemoryPool.Threads.{
  load, exchange, ring_get, ring_put, outside, has_counted, Shared, gets, get_loads, get_exchanges,
  get_fails, clears, puts, Reach, here, next,
}
use reiser_rt_core.MemoryPool.Sharing.{in_hand, holding, taking, putting}
use reiser_rt_core.MemoryPool.Concurrent.{start}
use reiser_rt_core.MemoryPool.Leaving.{Leaves}
use reiser_rt_core.MemoryPool.Together.{blocks_apart, calls_succeed, running_count_exact, calls_end}
use reiser_rt_core.MemoryPool.Tests.{pool, fresh, fresh_constructed}

-- Both threads take a block; the exchange of the second one fails once, and the first one is done.
abbrev crossed : (s : Shared) × Reach 2 (start (fresh 8)) s
unfolding ring_get exchange memset fill Ring.get Ring.allocate get_padded_type_alloc_size ℕ_discrete
crossed = (
  _,
  next
      (next
        (next
          (next
            (next
              (next
                (next (next here (gets 0 0 (omega arith) refl refl))
                  (gets 1 8 (omega arith) refl refl))
                (get_loads 0 0 (omega arith) refl))
              (get_loads 1 8 (omega arith) refl))
            (get_exchanges 0 0 (load (fresh 8)) (omega arith) refl refl))
          (get_fails 1 8 (load (fresh 8)) (omega arith) refl))
        (get_exchanges 1 8 (record { running_count = 1; low_watermark = 1 }) (omega arith) refl
          refl))
      (clears 0 0 _ (omega arith) refl refl),
)

blocks_apart_example :
    let s = crossed.0 in
    let held = total (in_hand 8) 2 s.pc + occurrences 8 s.clients in
    (held ≤ 1) × (0 < held → IsBlock s.pool 8)
blocks_apart_example =
    blocks_apart (λ _. 9) (λ _. 170) 2 8 (omega arith) (omega arith) refl fresh_constructed
      crossed.1 8

calls_succeed_example :
    let s = crossed.0 in
    ((i raw : ℕ)
      → i < 2
      → s.pc i ≡ has_counted raw
      → (cleared_bytes : List ℕ) × (memset s.pool.arena raw 0 s.pool.padded_element_size
          ≡ some cleared_bytes))
    × ((raw : ℕ) (before after : List ℕ)
        → s.clients ≡ before ++ raw ∷ after
        → (ring_put raw s.pool).0 ≡ returns tt)
    × ((x : Exception)
        → (ring_get s.pool).0 ≡ throws x
        → total holding 2 s.pc + length s.clients ≡ s.pool.pool_size)
calls_succeed_example =
    calls_succeed (λ _. 9) (λ _. 170) 2 8 (omega arith) (omega arith) refl fresh_constructed
      crossed.1

running_count_exact_example :
    let s = crossed.0 in
    (u32 (s.pool.running_count + total putting 2 s.pc + (total holding 2 s.pc + length s.clients))
      ≡ u32 (s.pool.pool_size + total taking 2 s.pc))
    × (((i : ℕ) → i < 2 → s.pc i ≡ outside)
        → s.pool.running_count + length s.clients ≡ s.pool.pool_size)
running_count_exact_example =
    running_count_exact (λ _. 9) (λ _. 170) 2 8 (omega arith) (omega arith) refl fresh_constructed
      crossed.1

calls_end_example : Leaves 2 3 1 crossed.0
calls_end_example =
    calls_end (λ _. 9) (λ _. 170) 2 8 (omega arith) (omega arith) refl fresh_constructed crossed.1 1
      (omega arith)

-- Both blocks are out. One thread puts a block back and has not counted it when the other one takes
-- and counts it: the running count of no blocks goes below zero.
count_wraps :
    (s : Shared) × Reach 2 (record { pool = pool 8 1 0; clients = 0 ∷ 8 ∷ []; pc = λ _. outside }) s
    × (s.pool.running_count ≡ 4294967295)
unfolding ring_get ring_put exchange Ring.get Ring.put Ring.allocate get_padded_type_alloc_size
    ℕ_discrete
count_wraps = (
  _,
  next
      (next
        (next (next here (puts 0 0 [] (8 ∷ []) (omega arith) refl refl))
          (gets 1 0 (omega arith) refl refl))
        (get_loads 1 0 (omega arith) refl))
      (get_exchanges 1 0 (record { running_count = 0; low_watermark = 0 }) (omega arith) refl refl),
  refl,
)

-- One block is out. The same order of the two calls takes the low watermark to zero, though one
-- block at least was free at every moment.
watermark_too_low :
    (s : Shared) × Reach 2 (record { pool = pool 8 0 1; clients = 0 ∷ []; pc = λ _. outside }) s
    × (s.pool.low_watermark ≡ 0)
unfolding ring_get ring_put exchange Ring.get Ring.put Ring.allocate get_padded_type_alloc_size
    ℕ_discrete
watermark_too_low = (
  _,
  next
      (next
        (next (next here (puts 0 0 [] [] (omega arith) refl refl))
          (gets 1 8 (omega arith) refl refl))
        (get_loads 1 8 (omega arith) refl))
      (get_exchanges 1 8 (record { running_count = 1; low_watermark = 1 }) (omega arith) refl refl),
  refl,
)

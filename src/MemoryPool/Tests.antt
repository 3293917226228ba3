-- ===== src/MemoryPool/Tests.antt =====
-- Small pools of src/MemoryPoolBase.cpp.
use mathlib.Core.List.{Perm, Nodup}
use mathlib.Core.List.Perm
use mathlib.Core.Logic.{◌↔◌}
use reiser_rt_core.Prelude.{
  ℕ, ◌+◌, ◌*◌, ◌^◌, ◌<◌, ◌≡◌, refl, List, [], ◌∷◌, ◌++◌, arith, length, All,
}
use reiser_rt_core.Prelude.Words.{sub32}
use reiser_rt_core.Outcome.{returns, throws, fault, ring_buffer_underflow}
use reiser_rt_core.RingBufferSimple as Ring
use reiser_rt_core.RingBufferSimple.{num_bits_for_ne, raw_num_bits_for_ne}
use reiser_rt_core.RingBufferSimple.Contents.{Holds}
use reiser_rt_core.RingBufferSimple.Steps.{length-allocate}
use reiser_rt_core.MemoryPool.{
  MemoryPool, get_padded_type_alloc_size, construct, stuff, memset, fill, get_raw_block,
  return_raw_block,
}
use reiser_rt_core.MemoryPool.Ownership.{IsBlock, blocks, Owns}
use reiser_rt_core.MemoryPool.Lifetime.{lends, regains, Reach, here, next, lent_blocks_distinct}
use reiser_rt_core.MemoryPool.Overrun.{last_block_overruns}

-- Two blocks of `size` bytes, with `free` of them in the ring.
abbrev pub pool : ℕ → ℕ → ℕ → MemoryPool
pool size get_count free = record {
  ring_buffer = record {
    get_count = get_count;
    put_count = 1;
    num_bits = 1;
    num_elements_mask = 1;
    num_elements = 2;
    element_buf = 0 ∷ size ∷ [];
  };
  element_size = size;
  padded_element_size = get_padded_type_alloc_size size;
  pool_size = 2;
  running_count = free;
  low_watermark = free;
  arena = Ring.allocate (size * 2) (λ _. 170);
}

pool-Owns :
    (size get_count : ℕ) (free lent : List ℕ)
    → get_count < 2 ^ 32
    → sub32 1 get_count ≡ length free
    → length free + length lent ≡ 2
    → let p = pool size get_count (length free) in
      Holds (0 ∷ size ∷ []) 2 get_count free
      → All (IsBlock p) free
      → All (IsBlock p) lent
      → Perm (free ++ lent) (blocks p)
      → Owns p free lent
pool-Owns size get_count free lent range count all held frees lents shares = record {
  ring = record {
    sized = record { bits = omega arith; elements = refl; mask = refl; storage = refl };
    get_range = range;
    put_range = omega arith;
    count = count;
    fits = omega arith;
    held = held;
  };
  size = refl;
  padded = refl;
  storage = length-allocate (size * 2) (λ _. 170);
  running = refl;
  low = omega arith;
  all_there = all;
  free_blocks = frees;
  lent_blocks = lents;
  shares = shares;
}

abbrev pub fresh : ℕ → MemoryPool
fresh size = pool size 4294967295 2

abbrev used : ℕ → MemoryPool
used size = pool size 0 1

pub fresh-Owns : Owns (fresh 8) (0 ∷ 8 ∷ []) []
fresh-Owns =
    pool-Owns 8 4294967295 (0 ∷ 8 ∷ []) [] (omega arith) refl refl (refl, (refl, tt))
      ((0, omega arith, refl), ((1, omega arith, refl), tt)) tt (Perm.refl (0 ∷ 8 ∷ []))

fresh_odd-Owns : Owns (fresh 5) (0 ∷ 5 ∷ []) []
fresh_odd-Owns =
    pool-Owns 5 4294967295 (0 ∷ 5 ∷ []) [] (omega arith) refl refl (refl, (refl, tt))
      ((0, omega arith, refl), ((1, omega arith, refl), tt)) tt (Perm.refl (0 ∷ 5 ∷ []))

used_odd-Owns : Owns (used 5) (5 ∷ []) (0 ∷ [])
used_odd-Owns =
    pool-Owns 5 0 (5 ∷ []) (0 ∷ []) (omega arith) refl refl (refl, tt) ((1, omega arith, refl), tt)
      ((0, omega arith, refl), tt) (Perm.swap 0 5 [])

drained-Owns : Owns (pool 8 1 0) [] (0 ∷ 8 ∷ [])
drained-Owns =
    pool-Owns 8 1 [] (0 ∷ 8 ∷ []) (omega arith) refl refl tt tt
      ((0, omega arith, refl), ((1, omega arith, refl), tt)) (Perm.refl (0 ∷ 8 ∷ []))

last_block_overruns_example : (get_raw_block (used 5)).0 ≡ fault
last_block_overruns_example =
    last_block_overruns (used 5) 5 [] (0 ∷ []) (omega arith) (omega arith) used_odd-Owns refl

pub fresh_constructed : construct (λ _. 9) (λ _. 170) 2 8 ≡ returns (fresh 8)
unfolding construct stuff Ring.construct Ring.put num_bits_for_ne raw_num_bits_for_ne Ring.clamp
    Ring.mask_for_nb Ring.allocate
fresh_constructed = refl

-- Both blocks are taken, and the first is returned.
one_lent :
    Reach (fresh 8) (return_raw_block (get_raw_block (get_raw_block (fresh 8)).1).1 0).1 (8 ∷ [])
unfolding get_raw_block memset fill Ring.get Ring.allocate get_padded_type_alloc_size
one_lent =
    next (next (next here (lends 0 refl refl refl)) (lends 8 refl refl refl))
      (regains (8 ∷ []) 0 [] refl refl refl)

lent_blocks_distinct_example :
    let q = (return_raw_block (get_raw_block (get_raw_block (fresh 8)).1).1 0).1 in
    Nodup {A = ℕ} (8 ∷ [])
    × All (IsBlock q) (8 ∷ [])
    × (q.running_count + length {A = ℕ} (8 ∷ []) ≡ q.pool_size)
    × (((get_raw_block q).0 ≡ throws ring_buffer_underflow)
        ↔ (length {A = ℕ} (8 ∷ []) ≡ q.pool_size))
lent_blocks_distinct_example =
    lent_blocks_distinct (λ _. 9) (λ _. 170) 2 8 (omega arith) (omega arith) refl fresh_constructed
      one_lent

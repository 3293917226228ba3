-- ===== src/MemoryPool/Overrun.antt =====
-- What `getRawBlock` does where an element is not a whole number of pointers long: it clears the
-- padded size, and the blocks lie at the distance of the size that was asked for.
use reiser_rt_core.Prelude.{
  ℕ, ◌+◌, ◌-◌, ◌*◌, ◌%◌, ◌^◌, ◌≤◌, ◌<◌, ◌≡◌, ◌≢◌, some, List, ◌∷◌, arith, get_elem?,
}
use reiser_rt_core.Outcome.{returns, fault}
use reiser_rt_core.RingBufferSimple.Steps.{get_takes}
use reiser_rt_core.MemoryPool.{
  MemoryPool, pointer_size, get_padded_type_alloc_size, memset, get_raw_block,
}
use reiser_rt_core.MemoryPool.Memory.{fill_inside}
use reiser_rt_core.MemoryPool.Ownership.{Owns}

padded_exceeds :
    (size : ℕ)
    → size < 2 ^ 64 - pointer_size
    → size % pointer_size ≢ 0
    → size < get_padded_type_alloc_size size
unfolding get_padded_type_alloc_size
padded_exceeds size h odd = ground arith

module _ (p : MemoryPool) (a : ℕ) (free lent : List ℕ)
    (small : p.element_size < 2 ^ 64 - pointer_size) (odd : p.element_size % pointer_size ≢ 0)
    (h : Owns p (a ∷ free) lent) where
  -- For elements that are not a whole number of pointers long, to hand out the last block of the
  -- arena is undefined: the clearing writes behind the end of the arena.
  pub last_block_overruns :
      a + p.element_size ≡ p.element_size * p.pool_size → (get_raw_block p).0 ≡ fault
  unfolding get_raw_block memset
  last_block_overruns last =
      let (e, h') = get_takes free a h.ring in
      let over = padded_exceeds p.element_size small odd in ground arith

  -- For elements that are not a whole number of pointers long, to hand out a block with room for
  -- its padded size clears the first byte behind the block, which is the next one's and may be
  -- lent.
  pub next_block_cleared :
      a + p.padded_element_size ≤ p.element_size * p.pool_size
      → ((get_raw_block p).0 ≡ returns a)
        × (get_elem? (get_raw_block p).1.arena (a + p.element_size) ≡ some 0)
  unfolding get_raw_block memset
  next_block_cleared room =
      let (e, h') = get_takes free a h.ring in
      let over = padded_exceeds p.element_size small odd in
      let wiped =
        fill_inside p.arena a p.padded_element_size 0 (a + p.element_size) (omega arith)
          (omega (arith, h.padded)) (omega (arith, h.storage, h.padded)) in
      (ground arith, ground arith)

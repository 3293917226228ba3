-- ===== src/MemoryPool/Lending.antt =====
-- `getRawBlock` lends a free block.
use mathlib.Core.List.{perm_middle}
use mathlib.Core.List.Perm
use reiser_rt_core.Prelude.{
  ltb, leb, ◌&&◌, if◌then◌else◌, ℕ, ◌+◌, ◌%◌, ◌≤◌, ◌≡◌, ap, ◌∙◌, some, List, [], ◌∷◌, arith, length,
  get_elem?,
}
use reiser_rt_core.Outcome.{Outcome, returns, throws, ring_buffer_underflow}
use reiser_rt_core.RingBufferSimple as Ring
use reiser_rt_core.RingBufferSimple.{RingBufferSimple}
use reiser_rt_core.RingBufferSimple.Contents.{elements_bounds}
use reiser_rt_core.RingBufferSimple.Steps.{get_takes, get_none, num_elements-get}
use reiser_rt_core.MemoryPool.{MemoryPool, pointer_size, fill, memset, get_raw_block}
use reiser_rt_core.MemoryPool.Memory.{fill_lem, padded_of_multiple, length-fill}
use reiser_rt_core.MemoryPool.Ownership.{Owns, block_inside, IsBlock-same}

-- What a hand-out of the block `a` does to the pool `p`.
record HandsOut (p : MemoryPool) (a : ℕ) (free : List ℕ) (o : Outcome ℕ) (q : MemoryPool)
    : Type 0 where
  result : o ≡ returns a
  same_ring : q.ring_buffer ≡ (Ring.get p.ring_buffer).1
  same_size : q.pool_size ≡ p.pool_size
  same_element : q.element_size ≡ p.element_size
  same_padded : q.padded_element_size ≡ p.padded_element_size
  fewer : q.running_count ≡ length free
  lower : q.low_watermark ≤ length free
  cleared_block : q.arena ≡ fill p.arena a p.element_size 0

get_raw_block-HandsOut :
    (p : MemoryPool) (a : ℕ) (free lent : List ℕ)
    → p.element_size % pointer_size ≡ 0
    → Owns p (a ∷ free) lent
    → HandsOut p a free (get_raw_block p).0 (get_raw_block p).1
unfolding get_raw_block memset
get_raw_block-HandsOut p a free lent aligned h =
    let (e, h') = get_takes free a h.ring in
    let e' = padded_of_multiple p.element_size aligned in
    let inside = block_inside p a h.free_blocks.0 in
    let few = elements_bounds p.ring_buffer h.ring.sized in
    record {
      result = ground arith;
      same_ring = ground arith;
      same_size = ground arith;
      same_element = ground arith;
      same_padded = ground arith;
      fewer = ground arith;
      lower = ground arith;
      cleared_block = ground arith;
    }

-- Blocks of a whole number of pointers: with a free block, `getRawBlock` returns the oldest one,
-- which is then lent; of all bytes `j` of the arena it clears exactly those of that block.
pub get_raw_block_lends :
    (p : MemoryPool) (a : ℕ) (free lent : List ℕ) (j : ℕ)
    → p.element_size % pointer_size ≡ 0
    → Owns p (a ∷ free) lent
    → let (o, q) = get_raw_block p in
      (o ≡ returns a)
      × Owns q free (a ∷ lent)
      × (get_elem? q.arena j
          ≡ (if leb a j && ltb j (a + p.element_size) then some 0 else get_elem? p.arena j))
get_raw_block_lends p a free lent j aligned h = (
  out.result,
  owns,
  rw out.cleared_block (
      fill_lem p.arena a p.element_size 0 j
        (omega (arith, h.storage, block_inside p a h.free_blocks.0))),
)
  where
    out : HandsOut p a free (get_raw_block p).0 (get_raw_block p).1
    out = get_raw_block-HandsOut p a free lent aligned h

    q : MemoryPool
    q = (get_raw_block p).1

    owns : Owns q free (a ∷ lent)
    owns = record {
      ring = rw out.same_ring (get_takes free a h.ring).1;
      size = omega (
        arith,
        out.same_size,
        h.size,
        ap (λ r. r.num_elements) out.same_ring,
        num_elements-get p.ring_buffer,
      );
      padded = rw (out.same_padded, out.same_element) h.padded;
      storage =
          rw (out.cleared_block, out.same_element, out.same_size)
            (length-fill p.arena a p.element_size 0 ∙ h.storage);
      running = out.fewer;
      low = out.lower;
      all_there = omega (arith, h.all_there, out.same_size);
      free_blocks = IsBlock-same p q out.same_size out.same_element free h.free_blocks.1;
      lent_blocks =
          IsBlock-same p q out.same_size out.same_element (a ∷ lent)
            (h.free_blocks.0, h.lent_blocks);
      shares = rw (out.same_element, out.same_size) (Perm.trans (perm_middle free lent) h.shares);
    }

-- With no free block, `getRawBlock` throws and changes nothing.
pub get_raw_block_exhausted :
    (p : MemoryPool) (lent : List ℕ)
    → Owns p [] lent
    → get_raw_block p ≡ (throws ring_buffer_underflow, p)
unfolding get_raw_block
get_raw_block_exhausted p lent h = ground (arith, get_none h.ring)

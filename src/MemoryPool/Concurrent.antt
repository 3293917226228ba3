-- ===== src/MemoryPool/Concurrent.antt =====
-- Any number of threads that call one pool of src/MemoryPoolBase.cpp, from its construction on.
use reiser_rt_core.Prelude.{
  ℕ, ◌+◌, ◌*◌, ◌%◌, ◌≤◌, ◌<◌, ◌≡◌, refl, ap, List, [], ◌∷◌, ◌++◌, arith, length, length_split, some,
}
use reiser_rt_core.Prelude.Families.{total, total-zero}
use reiser_rt_core.Prelude.Occurrences.{occurrences}
use reiser_rt_core.Outcome.{Exception, returns, throws}
use reiser_rt_core.RingBufferSimple.Contents.{elements_bounds}
use reiser_rt_core.RingBufferSimple.Steps.{put_appends}
use reiser_rt_core.MemoryPool.{MemoryPool, pointer_size, memset}
use reiser_rt_core.MemoryPool.Memory.{padded_of_multiple, memset_inside}
use reiser_rt_core.MemoryPool.Ownership.{IsBlock, blocks, Owns, block_inside}
use reiser_rt_core.MemoryPool.Places.{same_self, occurrences-le_one, occurrences-built}
use reiser_rt_core.MemoryPool.Threads.{ring_get, ring_put, outside, has_counted, Shared}
use reiser_rt_core.MemoryPool.Sharing.{in_hand, holding, taking, putting, Inv, total-goes}
use reiser_rt_core.MemoryPool.Interleaving.{ring_get_throws}

-- A pool that nobody has called.
abbrev pub start : MemoryPool → Shared
start p = record { pool = p; clients = []; pc = λ _. outside }

pub start-Inv :
    (n : ℕ) (p : MemoryPool)
    → 0 < p.element_size
    → p.element_size % pointer_size ≡ 0
    → Owns p (blocks p) []
    → Inv n (start p)
start-Inv n p pos al h = record {
  free = blocks p;
  ring = h.ring;
  size = h.size;
  padded = h.padded;
  positive = pos;
  aligned = al;
  storage = h.storage;
  all_there = omega (arith, h.all_there, total-zero holding n outside refl);
  shares = λ a. omega (arith, total-zero (in_hand a) n outside refl);
  range = omega (arith, h.running, h.all_there, h.size, elements_bounds p.ring_buffer h.ring.sized);
  running =
      rw (total-zero putting n outside refl, total-zero taking n outside refl, h.running) refl;
}

module _ {n : ℕ} {s : Shared} (v : Inv n s) where
  pub held_one : (a : ℕ) → total (in_hand a) n s.pc + occurrences a s.clients ≤ 1
  held_one a =
      omega
        (arith, v.shares a, occurrences-le_one a s.pool.element_size s.pool.pool_size 0 v.positive)

  pub held-IsBlock :
      (a : ℕ) → 0 < total (in_hand a) n s.pc + occurrences a s.clients → IsBlock s.pool a
  held-IsBlock a h =
      let some_there : 0 < occurrences a (blocks s.pool) = omega (arith, v.shares a, h) in
      let (i, l, e) =
        occurrences-built a (λ i. i * s.pool.element_size) s.pool.pool_size 0 some_there in
      (i, omega (arith, l), e)

  pub clear_inside :
      (i raw : ℕ)
      → i < n
      → s.pc i ≡ has_counted raw
      → (bytes : List ℕ) × (memset s.pool.arena raw 0 s.pool.padded_element_size ≡ some bytes)
  clear_inside i raw l e =
      let e' = padded_of_multiple s.pool.element_size v.aligned in
      let inside = block_inside s.pool raw block in
      (
        _,
        memset_inside s.pool.arena raw 0 s.pool.padded_element_size
            (omega (arith, v.storage, inside, e', v.padded)),
      )
    where
      block : IsBlock s.pool raw
      block =
          held-IsBlock raw (omega (arith, same_self raw, total-goes (in_hand raw) s outside l e))

  pub put_has_room :
      (raw : ℕ) (before after : List ℕ)
      → s.clients ≡ before ++ raw ∷ after
      → (ring_put raw s.pool).0 ≡ returns tt
  unfolding ring_put
  put_has_room raw before after c =
      (put_appends v.free raw v.ring
        (omega (arith, v.size, v.all_there, ap length c, length_split before raw after))).0

  pub throws_when_all_held :
      (x : Exception)
      → (ring_get s.pool).0 ≡ throws x
      → total holding n s.pc + length s.clients ≡ s.pool.pool_size
  throws_when_all_held x o =
      omega (arith, v.all_there, ap length (ring_get_throws s.pool v.free x v.ring o).0)

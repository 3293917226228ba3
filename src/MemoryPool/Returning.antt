-- ===== src/MemoryPool/Returning.antt =====
-- `returnRawBlock` takes a lent block back.
use mathlib.Core.List.{Perm, perm_middle, append_assoc}
use mathlib.Core.List.Perm
use reiser_rt_core.Prelude.{
  ℕ, ◌+◌, ◌<◌, ◌≡◌, refl, sym, ap, ◌∙◌, List, [], ◌∷◌, ◌++◌, arith, length, length-append,
  length_split, All, All-append, All-split,
}
use reiser_rt_core.Outcome.{Outcome, returns}
use reiser_rt_core.RingBufferSimple as Ring
use reiser_rt_core.RingBufferSimple.{RingBufferSimple}
use reiser_rt_core.RingBufferSimple.Contents.{elements_bounds}
use reiser_rt_core.RingBufferSimple.Steps.{put_appends, num_elements-put}
use reiser_rt_core.MemoryPool.{MemoryPool, return_raw_block}
use reiser_rt_core.MemoryPool.Ownership.{IsBlock, Owns, IsBlock-same}

record TakesBack (p : MemoryPool) (a : ℕ) (free : List ℕ) (o : Outcome (Unit {0})) (q : MemoryPool)
    : Type 0 where
  result : o ≡ returns tt
  same_ring : q.ring_buffer ≡ (Ring.put p.ring_buffer a).1
  same_size : q.pool_size ≡ p.pool_size
  same_element : q.element_size ≡ p.element_size
  same_padded : q.padded_element_size ≡ p.padded_element_size
  more : q.running_count ≡ length free + 1
  same_low : q.low_watermark ≡ p.low_watermark
  same_bytes : q.arena ≡ p.arena

return_raw_block-TakesBack :
    (p : MemoryPool) (a : ℕ) (free lent : List ℕ)
    → length free < p.pool_size
    → Owns p free lent
    → TakesBack p a free (return_raw_block p a).0 (return_raw_block p a).1
unfolding return_raw_block
return_raw_block-TakesBack p a free lent room h =
    let (e, h') = put_appends free a h.ring (omega (arith, h.size)) in
    let few = elements_bounds p.ring_buffer h.ring.sized in
    record {
      result = ground arith;
      same_ring = ground arith;
      same_size = ground arith;
      same_element = ground arith;
      same_padded = ground arith;
      more = ground arith;
      same_low = ground arith;
      same_bytes = ground arith;
    }

-- On a well-formed pool, returning a lent block always succeeds, makes it the last free one and
-- writes no byte.
pub return_raw_block_regains :
    (p : MemoryPool) (a : ℕ) (free before after : List ℕ)
    → Owns p free (before ++ a ∷ after)
    → let (o, q) = return_raw_block p a in
      (o ≡ returns tt) × Owns q (free ++ a ∷ []) (before ++ after) × (q.arena ≡ p.arena)
return_raw_block_regains p a free before after h = (out.result, owns, out.same_bytes)
  where
    room : length free < p.pool_size
    room = omega (arith, h.all_there, length_split before a after)

    out : TakesBack p a free (return_raw_block p a).0 (return_raw_block p a).1
    out = return_raw_block-TakesBack p a free (before ++ a ∷ after) room h

    q : MemoryPool
    q = (return_raw_block p a).1

    parts : IsBlock p a × All (IsBlock p) (before ++ after)
    parts = All-split (IsBlock p) before a after h.lent_blocks

    moved : Perm ((free ++ a ∷ []) ++ (before ++ after)) (free ++ (before ++ a ∷ after))
    moved =
        rw (append_assoc free (a ∷ []) (before ++ after))
          (Perm.append (Perm.refl free) (Perm.symm (perm_middle before after)))

    owns : Owns q (free ++ a ∷ []) (before ++ after)
    owns = record {
      ring = rw out.same_ring (put_appends free a h.ring (omega (arith, room, h.size))).1;
      size = omega (
        arith,
        out.same_size,
        h.size,
        ap (λ r. r.num_elements) out.same_ring,
        num_elements-put p.ring_buffer a,
      );
      padded = rw (out.same_padded, out.same_element) h.padded;
      storage = rw (out.same_bytes, out.same_element, out.same_size) h.storage;
      running = out.more ∙ sym (length-append free (a ∷ []) ∙ refl);
      low = omega (arith, out.same_low, h.low, length-append free (a ∷ []));
      all_there = omega (
        arith,
        h.all_there,
        out.same_size,
        length-append free (a ∷ []),
        length_split before a after,
      );
      free_blocks =
          IsBlock-same p q out.same_size out.same_element (free ++ a ∷ [])
            (All-append (IsBlock p) free (a ∷ []) h.free_blocks (parts.0, tt));
      lent_blocks = IsBlock-same p q out.same_size out.same_element (before ++ after) parts.1;
      shares = rw (out.same_element, out.same_size) (Perm.trans moved h.shares);
    }

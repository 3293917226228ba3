-- ===== src/MessageQueue/BaseOffset.antt =====
-- Messages whose base class `MessageBase` does not lie at their start, as with several base
-- classes.
use reiser_rt_core.Prelude.{ℕ, ◌+◌, ◌<◌, ◌≡◌, refl, inl, inr, List, [], ◌∷◌, ◌++◌, arith}
use reiser_rt_core.Outcome.{Outcome}
use reiser_rt_core.RingBufferGuarded.{done}
use reiser_rt_core.RingBufferGuarded.Contents.{Represents}
use reiser_rt_core.RingBufferGuarded.Calls.{put_stores}
use reiser_rt_core.MessageQueue.{MessageQueue, raw_put_and_notify}
use reiser_rt_core.MessageQueue.Messages.{give_back_cooked}
use reiser_rt_core.MessageQueue.Contents.{Placed, IsBlock, Owns}
use reiser_rt_core.MessageQueue.Blocks.{later}

module _ {M : Type 0} (q : MessageQueue M) (a base : ℕ) where
  inside_no-IsBlock : 0 < base → base < q.element_size → IsBlock q a → ¬ IsBlock q (a + base)
  inside_no-IsBlock pos small (i, hi, ea) (j, hj, eb) =
      grind (arith, later i j q.element_size, later j i q.element_size)

  -- A queue in use, a caller that holds a block, and in it a message whose base class lies inside,
  -- but not at its start: the manager of the message puts the address of the base class into the
  -- raw ring as the last free block, and it is the address of no block.
  pub base_address_returned :
      (free : List ℕ) (waiting : List (Placed M)) (held : List ℕ) {B : Type 0} (o : Outcome B)
      → 0 < base
      → base < q.element_size
      → Owns q free waiting (a ∷ held)
      → let c = give_back_cooked (a + base) o [] q in
        (c.progress ≡ done o)
        × Represents c.queue.raw_ring_buffer (free ++ (a + base) ∷ [])
        × (¬ IsBlock q (a + base))
  unfolding give_back_cooked raw_put_and_notify
  base_address_returned free waiting held o pos small h =
      elim (put_stores q.raw_ring_buffer h.raw_ready.in_state h.raw_ready.no_abort free (a + base)
        h.raw h.raw_ready.fits h.raw_ready.range) [
          | inl (full, _, _) ↦ absurd (omega (arith, h.all_there, h.raw_room))
          | inr (_, p, n, r) ↦ (rw p refl, rw p r, inside_no-IsBlock pos small h.held_blocks.0)
        ]

-- ===== src/MessageQueue/RawBlocks.antt =====
-- `rawWaitAndGet` and `rawPutAndNotify` move blocks between the raw ring and the callers.
use mathlib.Core.List.{Perm, perm_middle, append_assoc}
use mathlib.Core.List.Perm
use reiser_rt_core.Prelude.{
  ℕ, ◌+◌, ◌-◌, ◌^◌, ◌≤◌, ◌≡◌, refl, ◌∙◌, inl, inr, List, [], ◌∷◌, ◌++◌, map, arith, length,
  length-append, All-append, ltb, if◌then◌else◌,
}
use reiser_rt_core.Prelude.Words.{u32}
use reiser_rt_core.Outcome.{returns}
use reiser_rt_core.Semaphore.{signal_take}
use reiser_rt_core.RingBufferGuarded as Guarded
use reiser_rt_core.RingBufferGuarded.{Progress, done, blocked}
use reiser_rt_core.RingBufferGuarded.Contents.{Represents}
use reiser_rt_core.RingBufferGuarded.Calls.{get-Fetches, put_stores}
use reiser_rt_core.RingBufferGuarded.Kept.{IsReady, get-IsReady, put-IsReady}
use reiser_rt_core.MemoryPool.{memset, fill}
use reiser_rt_core.MemoryPool.Memory.{length-fill}
use reiser_rt_core.MessageQueue.{MessageQueue, at_raw, raw_wait_and_get, raw_put_and_notify}
use reiser_rt_core.MemoryPool.{wiped}
use reiser_rt_core.MessageQueue.Blocks.{apart, block_inside, alive-wiped}
use reiser_rt_core.MessageQueue.Contents.{IsBlock, blocks, Placed, addresses, Owns}

module _ {M : Type 0} (q : MessageQueue M) where
  -- The queue after a raw block has been handed out.
  abbrev pub after_raw_get : ℕ → MessageQueue M
  after_raw_get a = record q {
    raw_ring_buffer = (Guarded.get q.raw_ring_buffer).buffer;
    running_count = u32 (q.running_count + 1);
    high_watermark =
        if ltb q.high_watermark (u32 (q.running_count + 1))
        then u32 (q.running_count + 1)
        else q.high_watermark;
    arena = fill q.arena a q.element_size 0;
    objects = wiped q.objects a q.element_size;
  }

  pub raw_wait_and_get_some :
      (a : ℕ)
      → (Guarded.get q.raw_ring_buffer).progress ≡ done (returns a)
      → a + q.element_size ≤ length q.arena
      → raw_wait_and_get q ≡ record {
        progress = done (returns a);
        queue = after_raw_get a;
        notices = map at_raw (Guarded.get q.raw_ring_buffer).notices;
      }
  unfolding raw_wait_and_get memset
  raw_wait_and_get_some a e inside = ground arith

  -- With a free block, `rawWaitAndGet` hands the oldest one out.
  pub raw_wait_and_get_takes :
      (a : ℕ) (free : List ℕ) (waiting : List (Placed M)) (held : List ℕ)
      → Owns q (a ∷ free) waiting held
      → let c = raw_wait_and_get q in
        (c.progress ≡ done (returns a)) × Owns c.queue free waiting (a ∷ held)
  raw_wait_and_get_takes a free waiting held h =
      let inside = block_inside q a h.free_blocks.0 in
      rw (raw_wait_and_get_some a got.0 (omega (arith, h.storage, inside))) (refl, owns)
    where
      got :
          ((Guarded.get q.raw_ring_buffer).progress ≡ done (returns a))
          × Represents (Guarded.get q.raw_ring_buffer).buffer free
      got = get-Fetches q.raw_ring_buffer h.raw_ready.in_state h.raw_ready.no_abort (a ∷ free) h.raw

      kept :
          IsReady (Guarded.get q.raw_ring_buffer).buffer
          × ((Guarded.get q.raw_ring_buffer).buffer.semaphore.max_available_count
              ≡ q.raw_ring_buffer.semaphore.max_available_count)
      kept = get-IsReady q.raw_ring_buffer h.raw_ready

      share : Perm ((free ++ addresses waiting) ++ a ∷ held) (blocks q)
      share = Perm.trans (perm_middle (free ++ addresses waiting) held) h.shares

      grown : u32 (q.running_count + 1) ≡ length waiting + (length held + 1)
      grown = omega (arith, h.running, h.all_there, h.raw_room, h.raw_ready.range)

      owns : Owns (after_raw_get a) free waiting (a ∷ held)
      owns = record {
        raw = got.1;
        raw_ready = kept.0;
        raw_room = kept.1 ∙ h.raw_room;
        cooked = h.cooked;
        cooked_ready = h.cooked_ready;
        cooked_room = h.cooked_room;
        storage = length-fill q.arena a q.element_size 0 ∙ h.storage;
        positive = h.positive;
        running = omega (arith, grown);
        high = ground arith;
        high_range = ground (arith, grown, h.high_range, h.all_there);
        all_there = omega (arith, h.all_there);
        alive =
            alive-wiped q a waiting h.free_blocks.0 (apart q a free waiting held h.positive share)
              h.waiting_blocks h.alive;
        free_blocks = h.free_blocks.1;
        waiting_blocks = h.waiting_blocks;
        held_blocks = (h.free_blocks.0, h.held_blocks);
        shares = share;
      }

  raw_wait_and_get_none :
      (Guarded.get q.raw_ring_buffer).progress ≡ blocked
      → raw_wait_and_get q ≡ record {
        progress = blocked;
        queue = record q { raw_ring_buffer = (Guarded.get q.raw_ring_buffer).buffer };
        notices = map at_raw (Guarded.get q.raw_ring_buffer).notices;
      }
  unfolding raw_wait_and_get
  raw_wait_and_get_none e = ground arith

  -- With no free block `rawWaitAndGet` waits, and moves no block.
  pub raw_wait_and_get_waits :
      (waiting : List (Placed M)) (held : List ℕ)
      → Owns q [] waiting held
      → let c = raw_wait_and_get q in (c.progress ≡ blocked) × Owns c.queue [] waiting held
  raw_wait_and_get_waits waiting held h =
      let got = get-Fetches q.raw_ring_buffer h.raw_ready.in_state h.raw_ready.no_abort [] h.raw in
      let kept = get-IsReady q.raw_ring_buffer h.raw_ready in
      rw (raw_wait_and_get_none got.0) (
        refl,
        record {
          raw = got.1;
          raw_ready = kept.0;
          raw_room = kept.1 ∙ h.raw_room;
          cooked = h.cooked;
          cooked_ready = h.cooked_ready;
          cooked_room = h.cooked_room;
          storage = h.storage;
          positive = h.positive;
          running = h.running;
          high = h.high;
          high_range = h.high_range;
          all_there = h.all_there;
          alive = h.alive;
          free_blocks = h.free_blocks;
          waiting_blocks = h.waiting_blocks;
          held_blocks = h.held_blocks;
          shares = h.shares;
        },
      )

  -- The queue after a block has been returned.
  abbrev after_raw_put : ℕ → MessageQueue M
  after_raw_put a = record q {
    raw_ring_buffer = (Guarded.put q.raw_ring_buffer a).buffer;
    running_count = u32 (q.running_count + 2 ^ 32 - 1);
  }

  raw_put_and_notify_done :
      (a : ℕ)
      → (Guarded.put q.raw_ring_buffer a).progress ≡ done (returns tt)
      → (Guarded.put q.raw_ring_buffer a).notices ≡ signal_take ∷ []
      → raw_put_and_notify a q ≡ record {
        progress = done (returns tt);
        queue = after_raw_put a;
        notices = at_raw signal_take ∷ [];
      }
  unfolding raw_put_and_notify
  raw_put_and_notify_done a e n = ground arith

  raw_put_stored :
      (a : ℕ) (free : List ℕ) (waiting : List (Placed M)) (held : List ℕ)
      → Owns q free waiting (a ∷ held)
      → let g = Guarded.put q.raw_ring_buffer a in
        (g.progress ≡ done (returns tt))
        × (g.notices ≡ signal_take ∷ [])
        × Represents g.buffer (free ++ a ∷ [])
  raw_put_stored a free waiting held h =
      elim (put_stores q.raw_ring_buffer h.raw_ready.in_state h.raw_ready.no_abort free a h.raw
        h.raw_ready.fits h.raw_ready.range) [
          | inl (full, _, _) ↦ absurd (omega (arith, h.all_there, h.raw_room))
          | inr (_, p, n, r) ↦ (p, n, r)
        ]

  -- `rawPutAndNotify` never waits for a block that a caller holds: it makes it the last free one,
  -- and signals a thread that waits for one.
  pub raw_put_and_notify_returns :
      (a : ℕ) (free : List ℕ) (waiting : List (Placed M)) (held : List ℕ)
      → Owns q free waiting (a ∷ held)
      → let c = raw_put_and_notify a q in
        (c.progress ≡ done (returns tt))
        × (c.notices ≡ at_raw signal_take ∷ [])
        × Owns c.queue (free ++ a ∷ []) waiting held
        × (c.queue.objects ≡ q.objects)
        × (c.queue.name_of_last_message_dispatched ≡ q.name_of_last_message_dispatched)
  raw_put_and_notify_returns a free waiting held h =
      rw (raw_put_and_notify_done a put.0 put.1) (refl, refl, owns, refl, refl)
    where
      put :
          let g = Guarded.put q.raw_ring_buffer a in
          (g.progress ≡ done (returns tt))
          × (g.notices ≡ signal_take ∷ [])
          × Represents g.buffer (free ++ a ∷ [])
      put = raw_put_stored a free waiting held h

      moved :
          Perm
            (((free ++ a ∷ []) ++ addresses waiting) ++ held)
            ((free ++ addresses waiting) ++ a ∷ held)
      moved = rw (append_assoc free (a ∷ []) (addresses waiting)) (
          Perm.trans (Perm.append (perm_middle free (addresses waiting)) (Perm.refl held))
            (Perm.symm (perm_middle (free ++ addresses waiting) held)))

      owns : Owns (after_raw_put a) (free ++ a ∷ []) waiting held
      owns = record {
        raw = put.2;
        raw_ready = (put-IsReady q.raw_ring_buffer h.raw_ready a).0;
        raw_room = (put-IsReady q.raw_ring_buffer h.raw_ready a).1 ∙ h.raw_room;
        cooked = h.cooked;
        cooked_ready = h.cooked_ready;
        cooked_room = h.cooked_room;
        storage = h.storage;
        positive = h.positive;
        running = omega (arith, h.running, h.all_there, h.raw_room, h.raw_ready.range);
        high = omega (arith, h.running, h.high, h.high_range, h.raw_room, h.raw_ready.range);
        high_range = h.high_range;
        all_there = omega (arith, h.all_there, length-append free (a ∷ []));
        alive = h.alive;
        free_blocks = All-append (IsBlock q) free (a ∷ []) h.free_blocks (h.held_blocks.0, tt);
        waiting_blocks = h.waiting_blocks;
        held_blocks = h.held_blocks.1;
        shares = Perm.trans moved h.shares;
      }

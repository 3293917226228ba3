-- ===== src/MessageQueue/Waiting.antt =====
-- `cookedPutAndNotify` and `cookedWaitAndGet` move messages between the callers and the ring.
use mathlib.Core.List.{perm_middle, append_assoc}
use mathlib.Core.List.Perm
use reiser_rt_core.Prelude.{
  ℕ, suc, ◌≡◌, refl, ap, ◌∙◌, inl, inr, some, List, [], ◌∷◌, ◌++◌, map, arith, length,
  length-append, All-append,
}
use reiser_rt_core.Outcome.{returns}
use reiser_rt_core.Semaphore.{signal_take}
use reiser_rt_core.RingBufferGuarded as Guarded
use reiser_rt_core.RingBufferGuarded.{Progress, done, blocked}
use reiser_rt_core.RingBufferGuarded.Contents.{Represents}
use reiser_rt_core.RingBufferGuarded.Calls.{get-Fetches, put_stores}
use reiser_rt_core.RingBufferGuarded.Kept.{get-IsReady, put-IsReady}
use reiser_rt_core.MessageQueue.{
  MessageQueue, at_cooked, cooked_put_and_notify, cooked_wait_and_get,
}
use reiser_rt_core.MessageQueue.Contents.{IsBlock, Placed, addresses, Owns}

module _ {M : Type 0} where
  length-addresses : (xs : List (Placed M)) → length (addresses xs) ≡ length xs
  length-addresses [] = refl
  length-addresses (x ∷ xs) = ap suc (length-addresses xs)

  addresses-append : (xs ys : List (Placed M)) → addresses (xs ++ ys) ≡ addresses xs ++ addresses ys
  addresses-append [] ys = refl
  addresses-append (x ∷ xs) ys = ap (λ zs. x.0 ∷ zs) (addresses-append xs ys)

module _ {M : Type 0} (q : MessageQueue M) where
  abbrev after_cooked_put : ℕ → MessageQueue M
  after_cooked_put a = record q { cooked_ring_buffer = (Guarded.put q.cooked_ring_buffer a).buffer }

  cooked_put_stored :
      (a : ℕ) (free : List ℕ) (waiting : List (Placed M)) (held : List ℕ)
      → Owns q free waiting (a ∷ held)
      → let g = Guarded.put q.cooked_ring_buffer a in
        (g.progress ≡ done (returns tt))
        × (g.notices ≡ signal_take ∷ [])
        × Represents g.buffer (addresses waiting ++ a ∷ [])
  cooked_put_stored a free waiting held h =
      elim (put_stores q.cooked_ring_buffer h.cooked_ready.in_state h.cooked_ready.no_abort
        (addresses waiting) a h.cooked h.cooked_ready.fits h.cooked_ready.range) [
          | inl (full, _, _) ↦
              absurd (omega (arith, h.all_there, h.cooked_room, length-addresses waiting))
          | inr (_, p, n, r) ↦ (p, n, r)
        ]

  -- `cookedPutAndNotify` never waits for a message in a block that a caller holds: the message is
  -- the last to wait, and a thread that waits for one is signalled.
  pub cooked_put_and_notify_sends :
      (a : ℕ) (m : M) (free : List ℕ) (waiting : List (Placed M)) (held : List ℕ)
      → Owns q free waiting (a ∷ held)
      → q.objects a ≡ some m
      → let c = cooked_put_and_notify a q in
        (c.progress ≡ done (returns tt))
        × (c.notices ≡ at_cooked signal_take ∷ [])
        × Owns c.queue free (waiting ++ (a, m) ∷ []) held
  unfolding cooked_put_and_notify
  cooked_put_and_notify_sends a m free waiting held h there =
      (put.0, ap (map at_cooked) put.1, owns)
    where
      put :
          let g = Guarded.put q.cooked_ring_buffer a in
          (g.progress ≡ done (returns tt))
          × (g.notices ≡ signal_take ∷ [])
          × Represents g.buffer (addresses waiting ++ a ∷ [])
      put = cooked_put_stored a free waiting held h

      appended : addresses (waiting ++ (a, m) ∷ []) ≡ addresses waiting ++ a ∷ []
      appended = addresses-append waiting ((a, m) ∷ [])

      owns : Owns (after_cooked_put a) free (waiting ++ (a, m) ∷ []) held
      owns = record {
        raw = h.raw;
        raw_ready = h.raw_ready;
        raw_room = h.raw_room;
        cooked = rw appended put.2;
        cooked_ready = (put-IsReady q.cooked_ring_buffer h.cooked_ready a).0;
        cooked_room = (put-IsReady q.cooked_ring_buffer h.cooked_ready a).1 ∙ h.cooked_room;
        storage = h.storage;
        positive = h.positive;
        running = omega (arith, h.running, length-append waiting ((a, m) ∷ []));
        high = h.high;
        high_range = h.high_range;
        all_there = omega (arith, h.all_there, length-append waiting ((a, m) ∷ []));
        alive = All-append _ waiting ((a, m) ∷ []) h.alive (there, tt);
        free_blocks = h.free_blocks;
        waiting_blocks = rw appended (
            All-append (IsBlock q) (addresses waiting) (a ∷ []) h.waiting_blocks
              (h.held_blocks.0, tt));
        held_blocks = h.held_blocks.1;
        shares =
            rw
              (
                appended,
                ← append_assoc free (addresses waiting) (a ∷ []),
                append_assoc (free ++ addresses waiting) (a ∷ []) held,
              )
              h.shares;
      }

  -- `cookedWaitAndGet` hands the oldest message to its caller.
  pub cooked_wait_and_get_takes :
      (a : ℕ) (m : M) (free : List ℕ) (waiting : List (Placed M)) (held : List ℕ)
      → Owns q free ((a, m) ∷ waiting) held
      → let c = cooked_wait_and_get q in
        (c.progress ≡ done (returns a))
        × Owns c.queue free waiting (a ∷ held)
        × (c.queue.objects a ≡ some m)
  unfolding cooked_wait_and_get
  cooked_wait_and_get_takes a m free waiting held h =
      let got =
        get-Fetches q.cooked_ring_buffer h.cooked_ready.in_state h.cooked_ready.no_abort
          (a ∷ addresses waiting) h.cooked in
      let kept = get-IsReady q.cooked_ring_buffer h.cooked_ready in
      (
        got.0,
        record {
          raw = h.raw;
          raw_ready = h.raw_ready;
          raw_room = h.raw_room;
          cooked = got.1;
          cooked_ready = kept.0;
          cooked_room = kept.1 ∙ h.cooked_room;
          storage = h.storage;
          positive = h.positive;
          running = omega (arith, h.running);
          high = h.high;
          high_range = h.high_range;
          all_there = omega (arith, h.all_there);
          alive = h.alive.1;
          free_blocks = h.free_blocks;
          waiting_blocks = h.waiting_blocks.1;
          held_blocks = (h.waiting_blocks.0, h.held_blocks);
          shares = Perm.trans (perm_middle (free ++ addresses waiting) held) (
              Perm.trans
                (Perm.symm (Perm.append (perm_middle free (addresses waiting)) (Perm.refl held)))
                h.shares);
        },
        h.alive.0,
      )

  -- With no message it waits, and moves none.
  pub cooked_wait_and_get_waits :
      (free held : List ℕ)
      → Owns q free [] held
      → let c = cooked_wait_and_get q in (c.progress ≡ blocked) × Owns c.queue free [] held
  unfolding cooked_wait_and_get
  cooked_wait_and_get_waits free held h =
      let got =
        get-Fetches q.cooked_ring_buffer h.cooked_ready.in_state h.cooked_ready.no_abort []
          h.cooked in
      let kept = get-IsReady q.cooked_ring_buffer h.cooked_ready in
      (
        got.0,
        record {
          raw = h.raw;
          raw_ready = h.raw_ready;
          raw_room = h.raw_room;
          cooked = got.1;
          cooked_ready = kept.0;
          cooked_room = kept.1 ∙ h.cooked_room;
          storage = h.storage;
          positive = h.positive;
          running = h.running;
          high = h.high;
          high_range = h.high_range;
          all_there = h.all_there;
          alive = h.alive;
          free_blocks = h.free_blocks;
          waiting_blocks = h.waiting_blocks;
          held_blocks = h.held_blocks;
          shares = h.shares;
        },
      )

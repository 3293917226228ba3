-- ===== src/MessageQueue/Sending.antt =====
-- What `put` and `emplace` of a message queue do, on every way out.
use reiser_rt_core.Prelude.{ℕ, ◌+◌, ◌≤◌, ◌≡◌, refl, ◌∙◌, Option, some, List, [], ◌∷◌, ◌++◌, arith}
use reiser_rt_core.Prelude.Families.{update}
use reiser_rt_core.Outcome.{Exception, Outcome, returns, throws}
use reiser_rt_core.RingBufferGuarded.{done, blocked}
use reiser_rt_core.MessageQueue.{
  MessageQueue, raw_wait_and_get, raw_put_and_notify, cooked_put_and_notify,
}
use reiser_rt_core.MessageQueue.Messages.{put, behind}
use reiser_rt_core.MessageQueue.Contents.{Placed, Owns}
use reiser_rt_core.MessageQueue.Blocks.{apart, alive-update}
use reiser_rt_core.MessageQueue.RawBlocks.{
  raw_wait_and_get_takes, raw_wait_and_get_waits, raw_put_and_notify_returns,
}
use reiser_rt_core.MessageQueue.Waiting.{cooked_put_and_notify_sends}

module _ {M : Type 0} where
  -- A caller may make or destroy a message in a block that it holds.
  pub Owns-update :
      (q : MessageQueue M) (a : ℕ) (x : Option M) {free : List ℕ} {waiting : List (Placed M)}
      {held : List ℕ}
      → Owns q free waiting (a ∷ held)
      → Owns (record q { objects = update q.objects a x }) free waiting (a ∷ held)
  Owns-update q a x {free} {waiting} {held} h = record {
    raw = h.raw;
    raw_ready = h.raw_ready;
    raw_room = h.raw_room;
    cooked = h.cooked;
    cooked_ready = h.cooked_ready;
    cooked_room = h.cooked_room;
    storage = h.storage;
    positive = h.positive;
    running = h.running;
    high = h.high;
    high_range = h.high_range;
    all_there = h.all_there;
    alive =
        alive-update q.objects a x waiting (apart q a free waiting held h.positive h.shares)
          h.alive;
    free_blocks = h.free_blocks;
    waiting_blocks = h.waiting_blocks;
    held_blocks = h.held_blocks;
    shares = h.shares;
  }

  update_self : (f : ℕ → Option M) (a : ℕ) (x : Option M) → update f a x a ≡ x
  update_self f a x = ground arith

  -- The queue with the message `m` made at `a`.
  abbrev pub holding : MessageQueue M → ℕ → M → MessageQueue M
  holding q a m = record q { objects = update q.objects a (some m) }

module _ {M : Type 0} (q : MessageQueue M) (size : ℕ) where
  pub put_made :
      (base a : ℕ) (m : M)
      → size ≤ q.element_size
      → (raw_wait_and_get q).progress ≡ done (returns a)
      → let c =
          cooked_put_and_notify (a + base) (holding (raw_wait_and_get q).queue (a + base) m) in
        ((put size base (returns m) q).progress ≡ c.progress)
        × ((put size base (returns m) q).queue ≡ c.queue)
  unfolding put
  put_made base a m fits e = ground arith

  put_failed :
      (a : ℕ) (x : Exception)
      → size ≤ q.element_size
      → (raw_wait_and_get q).progress ≡ done (returns a)
      → let c = raw_put_and_notify a (raw_wait_and_get q).queue in
        ((put size 0 (throws x) q).progress ≡ behind c.progress (throws x))
        × ((put size 0 (throws x) q).queue ≡ c.queue)
  unfolding put
  put_failed a x fits e = ground arith

  put_blocked :
      (cook : Outcome M)
      → size ≤ q.element_size
      → (raw_wait_and_get q).progress ≡ blocked
      → ((put size 0 cook q).progress ≡ blocked)
        × ((put size 0 cook q).queue ≡ (raw_wait_and_get q).queue)
  unfolding put
  put_blocked cook fits e = ground arith

module _ {M : Type 0} (q : MessageQueue M) (size a : ℕ) (free : List ℕ) (waiting : List (Placed M))
    (held : List ℕ) where
  -- A queue in use with a free block, and a message that fits and whose base class lies at its
  -- start: put returns without a wait, and the message is the last to wait, in the block that was
  -- the oldest free one.
  pub put_sends :
      (m : M)
      → size ≤ q.element_size
      → Owns q (a ∷ free) waiting held
      → let c = put size 0 (returns m) q in
        (c.progress ≡ done (returns tt)) × Owns c.queue free (waiting ++ (a, m) ∷ []) held
  put_sends m fits h =
      let (e, got) = raw_wait_and_get_takes q a free waiting held h in
      let p = raw_wait_and_get q in
      let (s, n, owns) =
        cooked_put_and_notify_sends (holding p.queue a m) a m free waiting held
          (Owns-update p.queue a (some m) got) (update_self p.queue.objects a (some m)) in
      let z : a + 0 ≡ a = omega arith in
      let (pe, qe) = put_made q size 0 a m fits e in (pe ∙ (rw z s), rw qe (rw z owns))

  -- A queue in use with a free block, and a message that fits and whose constructor throws: put
  -- throws the same, the block is the last free one, and the same messages wait.
  pub put_throws :
      (x : Exception)
      → size ≤ q.element_size
      → Owns q (a ∷ free) waiting held
      → let c = put size 0 (throws x) q in
        (c.progress ≡ done (throws x)) × Owns c.queue (free ++ a ∷ []) waiting held
  put_throws x fits h =
      let (e, got) = raw_wait_and_get_takes q a free waiting held h in
      let (s, n, owns, same, named) =
        raw_put_and_notify_returns (raw_wait_and_get q).queue a free waiting held got in
      let (pe, qe) = put_failed q size a x fits e in (pe ∙ (rw s refl), rw qe owns)

module _ {M : Type 0} (q : MessageQueue M) (size : ℕ) (cook : Outcome M) where
  -- A queue in use with no free block, and a message that fits: put waits, and moves no block.
  pub put_waits :
      (waiting : List (Placed M)) (held : List ℕ)
      → size ≤ q.element_size
      → Owns q [] waiting held
      → let c = put size 0 cook q in (c.progress ≡ blocked) × Owns c.queue [] waiting held
  put_waits waiting held fits h =
      let (e, owns) = raw_wait_and_get_waits q waiting held h in
      let (pe, qe) = put_blocked q size cook fits e in (pe, rw qe owns)

-- ===== src/MessageQueue/Dispatching.antt =====
-- What `getAndDispatch` of a message queue does, on every way out.
use reiser_rt_core.Prelude.{
  ℕ, ◌≡◌, refl, ◌∙◌, false, Option, some, none, List, [], ◌∷◌, ◌++◌, ◌&&◌, arith,
}
use reiser_rt_core.Prelude.Families.{update}
use reiser_rt_core.Outcome.{Exception, Outcome, returns, throws}
use reiser_rt_core.RingBufferGuarded.{done, blocked}
use reiser_rt_core.MessageQueue.{MessageQueue, raw_put_and_notify, cooked_wait_and_get}
use reiser_rt_core.MessageQueue.Messages.{
  behind, get_and_dispatch_with, get_and_dispatch, give_back_cooked,
}
use reiser_rt_core.MessageQueue.Contents.{Placed, Owns}
use reiser_rt_core.MessageQueue.RawBlocks.{raw_put_and_notify_returns}
use reiser_rt_core.MessageQueue.Waiting.{cooked_wait_and_get_takes, cooked_wait_and_get_waits}
use reiser_rt_core.MessageQueue.Sending.{Owns-update}

module _ {M : Type 0} where
  -- The name of the last message is no part of the circulation.
  pub Owns-named :
      (q : MessageQueue M) (n : Option ℕ) {free : List ℕ} {waiting : List (Placed M)}
      {held : List ℕ}
      → Owns q free waiting held
      → Owns (record q { name_of_last_message_dispatched = n }) free waiting held
  Owns-named q n h = record {
    raw = h.raw;
    raw_ready = h.raw_ready;
    raw_room = h.raw_room;
    cooked = h.cooked;
    cooked_ready = h.cooked_ready;
    cooked_room = h.cooked_room;
    storage = h.storage;
    positive = h.positive;
    running = h.running;
    high = h.high;
    high_range = h.high_range;
    all_there = h.all_there;
    alive = h.alive;
    free_blocks = h.free_blocks;
    waiting_blocks = h.waiting_blocks;
    held_blocks = h.held_blocks;
    shares = h.shares;
  }

  -- The queue when the message at `a` has been dispatched and destroyed, before its block goes
  -- back.
  abbrev pub done_with : MessageQueue M → ℕ → ℕ → MessageQueue M
  done_with q a n = record q {
    name_of_last_message_dispatched = some n;
    objects = update q.objects a none;
  }

  -- The mutex of the dispatch, if there is one, is free.
  abbrev pub Unlocked : MessageQueue M → Type 0
  Unlocked q = q.dispatch_locking && q.locked ≡ false

  erased : (f : ℕ → Option M) (a : ℕ) → update f a none a ≡ none
  erased f a = ground arith

module _ {M V : Type 0} (name : M → ℕ) (dispatch : M → V → Outcome (Unit {0}) × V)
    (wakeup : V → Outcome (Unit {0}) × V) (q : MessageQueue M) (w : V) where
  pub dispatched :
      (a : ℕ) (m : M) (v : V)
      → (cooked_wait_and_get q).progress ≡ done (returns a)
      → (cooked_wait_and_get q).queue.objects a ≡ some m
      → wakeup w ≡ (returns tt, v)
      → Unlocked q
      → let c = raw_put_and_notify a (done_with (cooked_wait_and_get q).queue a (name m)) in
        let d = get_and_dispatch_with name dispatch wakeup q w in
        (d.call.progress ≡ behind c.progress (dispatch m v).0)
        × (d.call.queue ≡ c.queue)
        × (d.world ≡ (dispatch m v).1)
  unfolding get_and_dispatch_with cooked_wait_and_get give_back_cooked
  dispatched a m v e o wake free = ground arith

  not_woken :
      (a : ℕ) (m : M) (v : V) (x : Exception)
      → (cooked_wait_and_get q).progress ≡ done (returns a)
      → (cooked_wait_and_get q).queue.objects a ≡ some m
      → wakeup w ≡ (throws x, v)
      → let p = (cooked_wait_and_get q).queue in
        let c = raw_put_and_notify a (record p { objects = update p.objects a none }) in
        let d = get_and_dispatch_with name dispatch wakeup q w in
        (d.call.progress ≡ behind c.progress (throws x)) × (d.call.queue ≡ c.queue) × (d.world ≡ v)
  unfolding get_and_dispatch_with cooked_wait_and_get give_back_cooked
  not_woken a m v x e o wake = ground arith

  kept_waiting :
      (cooked_wait_and_get q).progress ≡ blocked
      → let d = get_and_dispatch_with name dispatch wakeup q w in
        (d.call.progress ≡ blocked) × (d.call.queue ≡ (cooked_wait_and_get q).queue) × (d.world ≡ w)
  unfolding get_and_dispatch_with cooked_wait_and_get give_back_cooked
  kept_waiting e = ground arith

  module _ (a : ℕ) (m : M) (free : List ℕ) (waiting : List (Placed M)) (held : List ℕ)
      (h : Owns q free ((a, m) ∷ waiting) held) where
    -- A queue in use with a message that waits, a wake-up function that returns and the dispatch
    -- mutex free: the oldest message is dispatched and getAndDispatch ends as the dispatch ends, a
    -- throw included; the message is destroyed, its name is noted and its block is the last free
    -- one.
    pub get_and_dispatch_delivers :
        (v : V)
        → wakeup w ≡ (returns tt, v)
        → Unlocked q
        → let d = get_and_dispatch_with name dispatch wakeup q w in
          let q' = d.call.queue in
          (d.call.progress ≡ done (dispatch m v).0)
          × (d.world ≡ (dispatch m v).1)
          × Owns q' (free ++ a ∷ []) waiting held
          × (q'.objects a ≡ none)
          × (q'.name_of_last_message_dispatched ≡ some (name m))
    get_and_dispatch_delivers v wake unlocked =
        let (e, got, there) = cooked_wait_and_get_takes q a m free waiting held h in
        let p = (cooked_wait_and_get q).queue in
        let (s, n, owns, same, named) =
          raw_put_and_notify_returns (done_with p a (name m)) a free waiting held
            (Owns-named _ (some (name m)) (Owns-update p a none got)) in
        let (pe, qe, we) = dispatched a m v e there wake unlocked in
        (pe ∙ rw s refl, we, rw qe owns, rw qe (rw same (erased p.objects a)), rw qe named)

    -- A queue in use with a message that waits, and a wake-up function that throws: getAndDispatch
    -- throws the same and dispatches nothing, the oldest message no longer waits, and its block is
    -- the last free one.
    pub get_and_dispatch_drops :
        (v : V) (x : Exception)
        → wakeup w ≡ (throws x, v)
        → let d = get_and_dispatch_with name dispatch wakeup q w in
          (d.call.progress ≡ done (throws x))
          × (d.world ≡ v)
          × Owns d.call.queue (free ++ a ∷ []) waiting held
    get_and_dispatch_drops v x wake =
        let (e, got, there) = cooked_wait_and_get_takes q a m free waiting held h in
        let p = (cooked_wait_and_get q).queue in
        let (s, n, owns, same, named) =
          raw_put_and_notify_returns (record p { objects = update p.objects a none }) a free waiting
            held (Owns-update p a none got) in
        let (pe, qe, we) = not_woken a m v x e there wake in (pe ∙ rw s refl, we, rw qe owns)

  -- A queue in use with no message: getAndDispatch waits, calls no function of the client and
  -- moves no block.
  pub get_and_dispatch_waits :
      (free held : List ℕ)
      → Owns q free [] held
      → let d = get_and_dispatch_with name dispatch wakeup q w in
        (d.call.progress ≡ blocked) × (d.world ≡ w) × Owns d.call.queue free [] held
  get_and_dispatch_waits free held h =
      let (e, owns) = cooked_wait_and_get_waits q free held h in
      let (pe, qe, we) = kept_waiting e in (pe, we, rw qe owns)

-- getAndDispatch() does what getAndDispatch( wakeupFunctor ) does with a function that does
-- nothing.
pub get_and_dispatch-eq-get_and_dispatch_with :
    {M V : Type 0} (name : M → ℕ) (dispatch : M → V → Outcome (Unit {0}) × V) (q : MessageQueue M)
    (w : V)
    → get_and_dispatch name dispatch q w
      ≡ get_and_dispatch_with name dispatch (λ v. (returns tt, v)) q w
unfolding get_and_dispatch get_and_dispatch_with
get_and_dispatch-eq-get_and_dispatch_with name dispatch q w = refl

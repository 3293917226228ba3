-- ===== src/MessageQueue/Receipts.antt =====
-- The steps of the calls that dispatch a message, and all steps together.
use mathlib.Core.List.{append_assoc}
use reiser_rt_core.Prelude.{
  ℕ, ◌+◌, ◌≡◌, refl, sym, ap, subst, ◌∙◌, Bool, false, Option, some, none, List, [], ◌∷◌, ◌++◌,
  arith, ◌&&◌, All,
}
use reiser_rt_core.Prelude.Families.{update}
use reiser_rt_core.Outcome.{returns}
use reiser_rt_core.RingBufferGuarded.{done}
use reiser_rt_core.MessageQueue.{MessageQueue, raw_put_and_notify, cooked_wait_and_get}
use reiser_rt_core.MessageQueue.Messages.{give_back_cooked}
use reiser_rt_core.MessageQueue.Contents.{Placed, Owns}
use reiser_rt_core.MessageQueue.Blocks.{alive-update}
use reiser_rt_core.MessageQueue.RawBlocks.{raw_put_and_notify_returns}
use reiser_rt_core.MessageQueue.Waiting.{cooked_wait_and_get_takes, cooked_wait_and_get_waits}
use reiser_rt_core.MessageQueue.Sending.{Owns-update}
use reiser_rt_core.MessageQueue.Dispatching.{Owns-named}
use reiser_rt_core.MessageQueue.Threads.{
  Pending, made, fetched, named, running, ending, Shared, PutStep, DispatchStep, Step, puts,
  dispatches, takes, makes, fails, sends, fetches, drops, names, locks, unlocks, leaves, Reach,
  here, next,
}
use reiser_rt_core.MessageQueue.Flight.{taken, placed}
use reiser_rt_core.MessageQueue.Passing.{
  Inv, raw_put_lock, cooked_get_lock, give_back_queue, Excludes-same,
}
use reiser_rt_core.MessageQueue.Circulation.{
  takes-Inv, makes-Inv, fails-Inv, sends-Inv, alone, others-Alive, others_apart, excludes,
}

-- The dispatch mutex is no part of the circulation.
Owns-locked :
    {M : Type 0} (q : MessageQueue M) (b : Bool) {free : List ℕ} {waiting : List (Placed M)}
    {held : List ℕ}
    → Owns q free waiting held
    → Owns (record q { locked = b }) free waiting held
Owns-locked q b h = record {
  raw = h.raw;
  raw_ready = h.raw_ready;
  raw_room = h.raw_room;
  cooked = h.cooked;
  cooked_ready = h.cooked_ready;
  cooked_room = h.cooked_room;
  storage = h.storage;
  positive = h.positive;
  running = h.running;
  high = h.high;
  high_range = h.high_range;
  all_there = h.all_there;
  alive = h.alive;
  free_blocks = h.free_blocks;
  waiting_blocks = h.waiting_blocks;
  held_blocks = h.held_blocks;
  shares = h.shares;
}

module _ {M : Type 0} {s : Shared M} (v : Inv s) where
  fetches-Inv :
      (a : ℕ) (m : M)
      → (cooked_wait_and_get s.queue).progress ≡ done (returns a)
      → (cooked_wait_and_get s.queue).queue.objects a ≡ some m
      → Inv (record s {
        queue = (cooked_wait_and_get s.queue).queue;
        calls = fetched a m ∷ s.calls;
        received = s.received ++ (a, m) ∷ [];
      })
  fetches-Inv a m e o =
      let (waiting, f) = first_waiting v.waiting refl in
      let h = subst (λ xs. Owns s.queue v.free xs (taken s.calls)) f v.owns in
      let owns = (cooked_wait_and_get_takes s.queue a m v.free waiting (taken s.calls) h).1 in
      let (same_lock, objects) = cooked_get_lock s.queue in
      record {
        free = v.free;
        waiting = waiting;
        owns = owns;
        alive =
            (o, subst (λ f. All (λ x. f x.0 ≡ some x.1) (placed s.calls)) (sym objects) v.alive);
        in_order =
            v.in_order
            ∙ ap (λ xs. s.received ++ xs) f
            ∙ sym (append_assoc s.received ((a, m) ∷ []) waiting);
        exclusive =
            Excludes-same s.queue (cooked_wait_and_get s.queue).queue same_lock (omega arith)
              v.exclusive;
      }
    where
      first_waiting :
          (xs : List (Placed M))
          → v.waiting ≡ xs
          → (ys : List (Placed M)) × (v.waiting ≡ (a, m) ∷ ys)
      first_waiting [] f = cc (
        e,
        (cooked_wait_and_get_waits s.queue v.free (taken s.calls)
            (subst (λ xs. Owns s.queue v.free xs (taken s.calls)) f v.owns)).0,
      )
      first_waiting ((b, k) ∷ ys) f =
          let (got, owns, there) =
            cooked_wait_and_get_takes s.queue b k v.free ys (taken s.calls)
              (subst (λ xs. Owns s.queue v.free xs (taken s.calls)) f v.owns) in
          let same : b ≡ a = cc (e, got) in
          let same_message : k ≡ m = cc (same, there, o) in
          (ys, f ∙ ap (λ x. (x, k) ∷ ys) same ∙ ap (λ x. (a, x) ∷ ys) same_message)

  drops-Inv :
      (before after : List (Pending M)) (a : ℕ) (m : M)
      → s.calls ≡ before ++ fetched a m ∷ after
      → Inv (record s { calls = ending a ∷ before ++ after })
  drops-Inv before after a m at = record {
    free = v.free;
    waiting = v.waiting;
    owns = alone v before after (fetched a m) at;
    alive = (others-Alive v before after (fetched a m) at).1;
    in_order = v.in_order;
    exclusive = excludes v before after (fetched a m) at;
  }

  names-Inv :
      (n : Option ℕ) (before after : List (Pending M)) (a : ℕ) (m : M)
      → s.calls ≡ before ++ fetched a m ∷ after
      → Inv (record s {
        queue = record s.queue { name_of_last_message_dispatched = n };
        calls = named a m ∷ before ++ after;
      })
  names-Inv n before after a m at = record {
    free = v.free;
    waiting = v.waiting;
    owns = Owns-named s.queue n (alone v before after (fetched a m) at);
    alive = let alives = others-Alive v before after (fetched a m) at in (alives.0.0, alives.1);
    in_order = v.in_order;
    exclusive = excludes v before after (fetched a m) at;
  }

  locks-Inv :
      (before after : List (Pending M)) (a : ℕ) (m : M)
      → s.calls ≡ before ++ named a m ∷ after
      → s.queue.dispatch_locking && s.queue.locked ≡ false
      → Inv (record s {
        queue = record s.queue { locked = s.queue.dispatch_locking };
        calls = running a m ∷ before ++ after;
      })
  locks-Inv before after a m at free = record {
    free = v.free;
    waiting = v.waiting;
    owns = Owns-locked s.queue s.queue.dispatch_locking (alone v before after (named a m) at);
    alive = let alives = others-Alive v before after (named a m) at in (alives.0.0, alives.1);
    in_order = v.in_order;
    exclusive = λ l. let h = excludes v before after (named a m) at l in ground arith;
  }

  unlocks-Inv :
      (before after : List (Pending M)) (a : ℕ) (m : M)
      → s.calls ≡ before ++ running a m ∷ after
      → Inv (record s {
        queue = record s.queue { locked = false };
        calls = ending a ∷ before ++ after;
      })
  unlocks-Inv before after a m at = record {
    free = v.free;
    waiting = v.waiting;
    owns = Owns-locked s.queue false (alone v before after (running a m) at);
    alive = (others-Alive v before after (running a m) at).1;
    in_order = v.in_order;
    exclusive = λ l. let h = excludes v before after (running a m) at l in ground arith;
  }

  leaves-Inv :
      (before after : List (Pending M)) (a : ℕ)
      → s.calls ≡ before ++ ending a ∷ after
      → Inv (record s {
        queue = (give_back_cooked {B = Unit {0}} a (returns tt) [] s.queue).queue;
        calls = before ++ after;
      })
  leaves-Inv before after a at =
      let gone = record s.queue { objects = update s.queue.objects a none } in
      let (p, n, owns, objects, noted) =
        raw_put_and_notify_returns gone a v.free v.waiting (taken (before ++ after))
          (Owns-update s.queue a none (alone v before after (ending a) at)) in
      let same_lock = raw_put_lock gone a in
      rw (give_back_queue s.queue a) (record {
        free = v.free ++ a ∷ [];
        waiting = v.waiting;
        owns = owns;
        alive = rw objects (
            alive-update s.queue.objects a none (placed (before ++ after))
              (others_apart v before after (ending a) at)
              (others-Alive v before after (ending a) at).1);
        in_order = v.in_order;
        exclusive =
            Excludes-same gone (raw_put_and_notify a gone).queue same_lock (omega arith)
              (excludes v before after (ending a) at);
      })

-- A message whose base class lies at its start is made at the address of its block.
made_at_start-Inv :
    {M : Type 0} (base : M → ℕ) (s : Shared M) (before after : List (Pending M)) (a : ℕ) (m : M)
    → base m ≡ 0
    → Inv (record s {
      queue = record s.queue { objects = update s.queue.objects a (some m) };
      calls = made a m ∷ before ++ after;
    })
    → Inv (record s {
      queue = record s.queue { objects = update s.queue.objects (a + base m) (some m) };
      calls = made (a + base m) m ∷ before ++ after;
    })
made_at_start-Inv base s before after a m z v =
    let at : a ≡ a + base m = omega (arith, z) in
    subst
      (λ b. Inv (record s {
        queue = record s.queue { objects = update s.queue.objects b (some m) };
        calls = made b m ∷ before ++ after;
      }))
      at v

module _ {M : Type 0} (base name : M → ℕ) (at_start : (m : M) → base m ≡ 0) where
  PutStep-Inv : {s t : Shared M} → PutStep base s t → Inv s → Inv t
  PutStep-Inv {s} (takes a e) v = takes-Inv v a e
  PutStep-Inv {s} (makes before after a m at) v =
      made_at_start-Inv base s before after a m (at_start m) (makes-Inv v before after a m at)
  PutStep-Inv {s} (fails before after a at) v = fails-Inv v before after a at
  PutStep-Inv {s} (sends before after a m at) v = sends-Inv v before after a m at

  DispatchStep-Inv : {s t : Shared M} → DispatchStep name s t → Inv s → Inv t
  DispatchStep-Inv (fetches a m e o) v = fetches-Inv v a m e o
  DispatchStep-Inv (drops before after a m at) v = drops-Inv v before after a m at
  DispatchStep-Inv (names before after a m at) v = names-Inv v (some (name m)) before after a m at
  DispatchStep-Inv (locks before after a m at free) v = locks-Inv v before after a m at free
  DispatchStep-Inv (unlocks before after a m at) v = unlocks-Inv v before after a m at
  DispatchStep-Inv (leaves before after a at) v = leaves-Inv v before after a at

  Step-Inv : {s t : Shared M} → Step base name s t → Inv s → Inv t
  Step-Inv (puts st) v = PutStep-Inv st v
  Step-Inv (dispatches st) v = DispatchStep-Inv st v

  pub Reach-Inv : {s t : Shared M} → Inv s → Reach base name s t → Inv t
  Reach-Inv v here = v
  Reach-Inv v (next r st) = Step-Inv st (Reach-Inv v r)

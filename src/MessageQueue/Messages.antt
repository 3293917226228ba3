-- ===== src/MessageQueue/Messages.antt =====
-- src/MessageQueue.hpp and src/MessageQueue.cpp: `put` and `emplace`, `getAndDispatch` and `purge`,
-- with the memory managers of src/MessageQueueBase.hpp and the destructor of the queue.
use reiser_rt_core.Prelude.{
  ℕ, zero, suc, ◌+◌, Option, none, some, List, [], ◌++◌, ◌&&◌, ltb, if◌then◌else◌,
}
use reiser_rt_core.Prelude.Families.{update}
use reiser_rt_core.Outcome.{Outcome, returns, throws, fault, message_queue_element_size_error}
use reiser_rt_core.RingBufferGuarded as Guarded
use reiser_rt_core.RingBufferGuarded.{Progress, done, blocked}
use reiser_rt_core.MessageQueue.{
  MessageQueue, Sent, Call, abort, raw_wait_and_get, raw_wait_and_get_resume, raw_put_and_notify,
  cooked_put_and_notify, cooked_wait_and_get, cooked_wait_and_get_resume,
  get_running_state_statistics,
}

-- An outcome behind a call in a destructor, where no exception gets out.
abbrev pub behind : {B : Type 0} → Progress (Unit {0}) → Outcome B → Progress B
behind (done (returns _)) o = done o
behind (done _) o = done fault
behind blocked o = blocked

module _ {M : Type 0} where
  -- The destructor of `RawMemoryManager`, on the way out with `o`.
  give_back_raw : {B : Type 0} → ℕ → Outcome B → List Sent → MessageQueue M → Call M B
  give_back_raw raw o sent q =
      let c = raw_put_and_notify raw q in
      record { progress = behind c.progress o; queue = c.queue; notices = sent ++ c.notices }

  -- The destructor of `CookedMemoryManager`: it destroys the message, and returns its address.
  unfoldable pub give_back_cooked :
      {B : Type 0} → ℕ → Outcome B → List Sent → MessageQueue M → Call M B
  unfolding give_back_raw
  give_back_cooked a o sent q =
      give_back_raw a o sent (record q { objects = update q.objects a none })

  -- `put` with its block: the constructor of the message ends as `cook` says. The base class
  -- `MessageBase` lies `base` bytes into the message, and its address is sent.
  cooked_on : ℕ → ℕ → Outcome M → List Sent → MessageQueue M → Call M (Unit {0})
  unfolding give_back_raw
  cooked_on base raw (returns m) sent q =
      let c =
        cooked_put_and_notify (raw + base)
          (record q { objects = update q.objects (raw + base) (some m) }) in
      record { progress = c.progress; queue = c.queue; notices = sent ++ c.notices }
  cooked_on base raw (throws e) sent q = give_back_raw raw (throws e) sent q
  cooked_on base raw fault sent q = record { progress = done fault; queue = q; notices = sent }

  put_raw : ℕ → Outcome M → Progress ℕ → List Sent → MessageQueue M → Call M (Unit {0})
  unfolding cooked_on
  put_raw base cook (done (returns raw)) sent q = cooked_on base raw cook sent q
  put_raw base cook (done (throws e)) sent q = record {
    progress = done (throws e);
    queue = q;
    notices = sent;
  }
  put_raw base cook (done fault) sent q = record {
    progress = done fault;
    queue = q;
    notices = sent;
  }
  put_raw base cook blocked sent q = record { progress = blocked; queue = q; notices = sent }

  -- `put` of a message of `size` bytes, and its continuation after a wait for a block.
  unfoldable pub put : ℕ → ℕ → Outcome M → MessageQueue M → Call M (Unit {0})
  unfolding put_raw
  put size base cook q =
      if ltb q.element_size size
      then record {
        progress = done (throws message_queue_element_size_error);
        queue = q;
        notices = [];
      }
      else let c = raw_wait_and_get q in put_raw base cook c.progress c.notices c.queue

  unfoldable pub put_resume : ℕ → Outcome M → MessageQueue M → Call M (Unit {0})
  unfolding put_raw
  put_resume base cook q =
      let c = raw_wait_and_get_resume q in put_raw base cook c.progress c.notices c.queue

  -- `emplace`: the arguments of the constructor are in `cook`.
  unfoldable pub emplace : ℕ → ℕ → Outcome M → MessageQueue M → Call M (Unit {0})
  unfolding put_raw
  emplace size base cook q =
      if ltb q.element_size size
      then record {
        progress = done (throws message_queue_element_size_error);
        queue = q;
        notices = [];
      }
      else let c = raw_wait_and_get q in put_raw base cook c.progress c.notices c.queue

-- What a call leaves of the queue, and of what the functions of the client work on.
pub record Delivery (M V : Type 0) : Type 0 where
  pub call : Call M (Unit {0})
  pub world : V

module _ {M V : Type 0} (name : M → ℕ) (dispatch : M → V → Outcome (Unit {0}) × V) where
  -- The end of `getAndDispatch`, with the outcome of what came before.
  delivered : ℕ → List Sent → MessageQueue M → Outcome (Unit {0}) × V → Delivery M V
  delivered a sent q (o, w) = record { call = give_back_cooked a o sent q; world = w }

  -- `dispatchMessage`, and the end of `getAndDispatch`. A held dispatch mutex makes the thread
  -- wait.
  dispatch_message : ℕ → M → List Sent → MessageQueue M → V → Delivery M V
  unfolding delivered
  dispatch_message a m sent q w =
      let named = record q { name_of_last_message_dispatched = some (name m) } in
      if q.dispatch_locking && q.locked
      then record { call = record { progress = blocked; queue = named; notices = sent }; world = w }
      else delivered a sent named (dispatch m w)

  -- The continuation when the mutex is free.
  unfoldable pub dispatch_resume : ℕ → M → MessageQueue M → V → Delivery M V
  unfolding delivered
  dispatch_resume a m q w = delivered a [] q (dispatch m w)

  -- The call of the wake-up function comes before the dispatch.
  woken : ℕ → M → List Sent → MessageQueue M → Outcome (Unit {0}) × V → Delivery M V
  unfolding dispatch_message delivered
  woken a m sent q (returns _, w) = dispatch_message a m sent q w
  woken a m sent q (throws e, w) = delivered a sent q (throws e, w)
  woken a m sent q (fault, w) = record {
    call = record { progress = done fault; queue = q; notices = sent };
    world = w;
  }

  -- The message at the address; there is none only if the ring holds what was not put.
  message_at :
      (V → Outcome (Unit {0}) × V) → ℕ → Option M → List Sent → MessageQueue M → V → Delivery M V
  unfolding woken
  message_at wakeup a (some m) sent q w = woken a m sent q (wakeup w)
  message_at wakeup a none sent q w = record {
    call = record { progress = done fault; queue = q; notices = sent };
    world = w;
  }

  got_cooked :
      (V → Outcome (Unit {0}) × V) → Progress ℕ → List Sent → MessageQueue M → V → Delivery M V
  unfolding message_at
  got_cooked wakeup (done (returns a)) sent q w = message_at wakeup a (q.objects a) sent q w
  got_cooked wakeup (done (throws e)) sent q w = record {
    call = record { progress = done (throws e); queue = q; notices = sent };
    world = w;
  }
  got_cooked wakeup (done fault) sent q w = record {
    call = record { progress = done fault; queue = q; notices = sent };
    world = w;
  }
  got_cooked wakeup blocked sent q w = record {
    call = record { progress = blocked; queue = q; notices = sent };
    world = w;
  }

  -- `getAndDispatch( wakeupFunctor )`, and its continuation after a wait for a message.
  unfoldable pub get_and_dispatch_with :
      (V → Outcome (Unit {0}) × V) → MessageQueue M → V → Delivery M V
  unfolding got_cooked
  get_and_dispatch_with wakeup q w =
      let c = cooked_wait_and_get q in got_cooked wakeup c.progress c.notices c.queue w

  unfoldable pub get_and_dispatch_with_resume :
      (V → Outcome (Unit {0}) × V) → MessageQueue M → V → Delivery M V
  unfolding got_cooked
  get_and_dispatch_with_resume wakeup q w =
      let c = cooked_wait_and_get_resume q in got_cooked wakeup c.progress c.notices c.queue w

  -- `getAndDispatch()`
  unfoldable pub get_and_dispatch : MessageQueue M → V → Delivery M V
  unfolding got_cooked
  get_and_dispatch q w =
      let c = cooked_wait_and_get q in
      got_cooked (λ v. (returns tt, v)) c.progress c.notices c.queue w

module _ {M : Type 0} where
  unfoldable pub purge_round : Progress ℕ → List Sent → MessageQueue M → Call M (Unit {0})
  purge_round (done (returns a)) sent q = give_back_cooked a (returns tt) sent q
  purge_round (done (throws e)) sent q = record {
    progress = done (throws e);
    queue = q;
    notices = sent;
  }
  purge_round (done fault) sent q = record { progress = done fault; queue = q; notices = sent }
  purge_round blocked sent q = record { progress = blocked; queue = q; notices = sent }

  -- The loop of `purge`, with the rounds left, as far as it gets without a wait.
  unfoldable pub purge_loop : ℕ → List Sent → MessageQueue M → Call M (Unit {0})
  unfolding purge_round
  purge_loop zero sent q = record { progress = done (returns tt); queue = q; notices = sent }
  purge_loop (suc rounds) sent q =
      let got = cooked_wait_and_get q in
      let c = purge_round got.progress (sent ++ got.notices) got.queue in
      elim c.progress [
        | done o ↦ elim o [
          | returns _ ↦ purge_loop rounds c.notices c.queue
          | throws e ↦ c
          | fault ↦ c
        ]
        | blocked ↦ c
      ]

  unfoldable pub purge : MessageQueue M → Call M (Unit {0})
  purge q = purge_loop (get_running_state_statistics q).running_count [] q

  -- The destructor: it aborts, and destroys the messages that are left in the ring.
  abbrev pub destroy_message : ℕ → (ℕ → Option M) → Outcome (Unit {0}) × (ℕ → Option M)
  destroy_message a objects = (returns tt, update objects a none)

  unfoldable pub destroy : MessageQueue M → Outcome (Unit {0}) × (ℕ → Option M)
  destroy q =
      let (o, ring, objects) =
        Guarded.flush destroy_message (abort q).0.cooked_ring_buffer (abort q).0.objects in
      (o, objects)

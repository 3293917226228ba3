-- ===== src/MessageQueue/Threads.antt =====
-- Calls of several threads on one queue of src/MessageQueue.hpp, in any interleaving. A call goes
-- from one call of a ring, or of the client's code, to the next, when it need not wait there. A
-- call in flight is known by the block that it holds.
use reiser_rt_core.Prelude.{ℕ, ◌+◌, ◌≡◌, false, some, List, [], ◌∷◌, ◌++◌, ◌&&◌}
use reiser_rt_core.Prelude.Families.{update}
use reiser_rt_core.Outcome.{returns}
use reiser_rt_core.RingBufferGuarded.{done}
use reiser_rt_core.MessageQueue.{
  MessageQueue, raw_wait_and_get, raw_put_and_notify, cooked_put_and_notify, cooked_wait_and_get,
}
use reiser_rt_core.MessageQueue.Messages.{give_back_cooked}
use reiser_rt_core.MessageQueue.Contents.{Placed}

-- Where a call stands: `put` and `emplace` with a block, and with the message made in it;
-- `getAndDispatch` with the message, behind the wake-up function, behind the name, within the
-- dispatch, and on the way out.
pub data Pending (M : Type 0) : Type 0 where
  making : ℕ → Pending M
  made : ℕ → M → Pending M
  fetched : ℕ → M → Pending M
  named : ℕ → M → Pending M
  running : ℕ → M → Pending M
  ending : ℕ → Pending M

-- `sent` and `received` list the messages that went into the ring and that came out.
pub record Shared (M : Type 0) : Type 0 where
  pub queue : MessageQueue M
  pub calls : List (Pending M)
  pub sent : List (Placed M)
  pub received : List (Placed M)

-- `put` and `emplace`; `base m` is how far into the message `m` its base class `MessageBase` lies.
module _ {M : Type 0} (base : M → ℕ) where
  pub data PutStep (s : Shared M) : Shared M → Type 0 where
    takes :
        (a : ℕ)
        → (raw_wait_and_get s.queue).progress ≡ done (returns a)
        → PutStep s
            (record s { queue = (raw_wait_and_get s.queue).queue; calls = making a ∷ s.calls })
    -- The constructor of the message returns, and `RawMemoryManager` lets go of the block. What
    -- goes on is the pointer to the base class, as `cookedPutAndNotify` takes it.
    makes :
        (before after : List (Pending M)) (a : ℕ) (m : M)
        → s.calls ≡ before ++ making a ∷ after
        → PutStep s (record s {
          queue = record s.queue { objects = update s.queue.objects (a + base m) (some m) };
          calls = made (a + base m) m ∷ before ++ after;
        })
    -- The constructor of the message throws.
    fails :
        (before after : List (Pending M)) (a : ℕ)
        → s.calls ≡ before ++ making a ∷ after
        → PutStep s
            (record s { queue = (raw_put_and_notify a s.queue).queue; calls = before ++ after })
    sends :
        (before after : List (Pending M)) (a : ℕ) (m : M)
        → s.calls ≡ before ++ made a m ∷ after
        → PutStep s (record s {
          queue = (cooked_put_and_notify a s.queue).queue;
          calls = before ++ after;
          sent = s.sent ++ (a, m) ∷ [];
        })

-- `getAndDispatch`
module _ {M : Type 0} (name : M → ℕ) where
  pub data DispatchStep (s : Shared M) : Shared M → Type 0 where
    fetches :
        (a : ℕ) (m : M)
        → (cooked_wait_and_get s.queue).progress ≡ done (returns a)
        → (cooked_wait_and_get s.queue).queue.objects a ≡ some m
        → DispatchStep s (record s {
          queue = (cooked_wait_and_get s.queue).queue;
          calls = fetched a m ∷ s.calls;
          received = s.received ++ (a, m) ∷ [];
        })
    -- The wake-up function throws.
    drops :
        (before after : List (Pending M)) (a : ℕ) (m : M)
        → s.calls ≡ before ++ fetched a m ∷ after
        → DispatchStep s (record s { calls = ending a ∷ before ++ after })
    names :
        (before after : List (Pending M)) (a : ℕ) (m : M)
        → s.calls ≡ before ++ fetched a m ∷ after
        → DispatchStep s (record s {
          queue = record s.queue { name_of_last_message_dispatched = some (name m) };
          calls = named a m ∷ before ++ after;
        })
    -- The lock guard of the dispatch, and its end, with the dispatch returned or thrown.
    locks :
        (before after : List (Pending M)) (a : ℕ) (m : M)
        → s.calls ≡ before ++ named a m ∷ after
        → s.queue.dispatch_locking && s.queue.locked ≡ false
        → DispatchStep s (record s {
          queue = record s.queue { locked = s.queue.dispatch_locking };
          calls = running a m ∷ before ++ after;
        })
    unlocks :
        (before after : List (Pending M)) (a : ℕ) (m : M)
        → s.calls ≡ before ++ running a m ∷ after
        → DispatchStep s (record s {
          queue = record s.queue { locked = false };
          calls = ending a ∷ before ++ after;
        })
    leaves :
        (before after : List (Pending M)) (a : ℕ)
        → s.calls ≡ before ++ ending a ∷ after
        → DispatchStep s (record s {
          queue = (give_back_cooked {B = Unit {0}} a (returns tt) [] s.queue).queue;
          calls = before ++ after;
        })

module _ {M : Type 0} (base name : M → ℕ) where
  pub data Step (s t : Shared M) : Type 0 where
    puts : PutStep base s t → Step s t
    dispatches : DispatchStep name s t → Step s t

  pub data Reach (s : Shared M) : Shared M → Type 0 where
    here : Reach s s
    next : {t u : Shared M} → Reach s t → Step t u → Reach s u

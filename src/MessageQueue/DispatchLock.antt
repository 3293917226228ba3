-- ===== src/MessageQueue/DispatchLock.antt =====
-- src/MessageQueueBase.cpp and src/MessageQueueBase.hpp: `AutoDispatchLock`, which holds the
-- dispatch mutex of a queue.
use reiser_rt_core.Prelude.{Bool, true, false, ◌&&◌, not, if◌then◌else◌}
use reiser_rt_core.Outcome.{throws, returns, message_queue_dispatch_locking_disabled}
use reiser_rt_core.RingBufferGuarded.{Progress, done, blocked}
use reiser_rt_core.MessageQueue.{MessageQueue}

-- `bound` says whether `pMQB` is there.
pub record AutoDispatchLock : Type 0 where
  pub bound : Bool
  pub locked : Bool

module _ {M : Type 0} where
  -- `getAutoDispatchLock`, with the constructor of the lock: it waits while the mutex is held.
  unfoldable pub get_auto_dispatch_lock :
      MessageQueue M → Progress AutoDispatchLock × MessageQueue M
  get_auto_dispatch_lock q =
      if not q.dispatch_locking
      then (done (throws message_queue_dispatch_locking_disabled), q)
      else if q.locked
      then (blocked, q)
      else (done (returns (record { bound = true; locked = true })), record q { locked = true })

  unfoldable pub lock :
      AutoDispatchLock → MessageQueue M → Progress (Unit {0}) × AutoDispatchLock × MessageQueue M
  lock l q =
      if not l.bound
      then (done (returns tt), l, q)
      else if q.locked
      then (blocked, l, q)
      else (done (returns tt), record l { locked = true }, record q { locked = true })

  unfoldable pub unlock : AutoDispatchLock → MessageQueue M → AutoDispatchLock × MessageQueue M
  unlock l q =
      if l.bound && l.locked
      then (record l { locked = false }, record q { locked = false })
      else (l, q)

  -- The destructor.
  unfoldable pub destroy : AutoDispatchLock → MessageQueue M → MessageQueue M
  destroy l q = if l.bound && l.locked then record q { locked = false } else q

-- The move constructor and the move assignment between two locks: what the two become.
unfoldable pub move : AutoDispatchLock → AutoDispatchLock × AutoDispatchLock
move another = (another, record { bound = false; locked = false })

unfoldable pub move_assign :
    AutoDispatchLock → AutoDispatchLock → AutoDispatchLock × AutoDispatchLock
move_assign l another = (another, record { bound = false; locked = false })

-- ===== src/MessageQueue/Exclusion.antt =====
-- What an `AutoDispatchLock` keeps out, and how it can fail to let go.
use reiser_rt_core.Prelude.{ℕ, ◌≡◌, true, false, List, ◌∷◌, arith, some}
use reiser_rt_core.Outcome.{Outcome, returns}
use reiser_rt_core.RingBufferGuarded.{done, blocked}
use reiser_rt_core.MessageQueue.{MessageQueue, cooked_wait_and_get}
use reiser_rt_core.MessageQueue.Messages.{get_and_dispatch_with}
use reiser_rt_core.MessageQueue.DispatchLock.{
  AutoDispatchLock, get_auto_dispatch_lock, lock, unlock, destroy, move, move_assign,
}
use reiser_rt_core.MessageQueue.Contents.{Placed, Owns}
use reiser_rt_core.MessageQueue.Waiting.{cooked_wait_and_get_takes}

-- A lock that holds the mutex of its queue.
abbrev pub holds_mutex : AutoDispatchLock
holds_mutex = record { bound = true; locked = true }

module _ {M V : Type 0} (name : M → ℕ) (dispatch : M → V → Outcome (Unit {0}) × V)
    (wakeup : V → Outcome (Unit {0}) × V) (q : MessageQueue M) (w v : V) where
  stopped :
      (a : ℕ) (m : M)
      → (cooked_wait_and_get q).progress ≡ done (returns a)
      → (cooked_wait_and_get q).queue.objects a ≡ some m
      → wakeup w ≡ (returns tt, v)
      → q.dispatch_locking ≡ true
      → q.locked ≡ true
      → let d = get_and_dispatch_with name dispatch wakeup q w in
        (d.call.progress ≡ blocked) × (d.world ≡ v)
  unfolding get_and_dispatch_with cooked_wait_and_get
  stopped a m e o wake l k = ground arith

  -- A queue in use with a message that waits, a wake-up function that returns, and the dispatch
  -- mutex held: getAndDispatch waits, and only the wake-up function has run.
  pub lock_excludes :
      (a : ℕ) (m : M) (free : List ℕ) (waiting : List (Placed M)) (held : List ℕ)
      → Owns q free ((a, m) ∷ waiting) held
      → wakeup w ≡ (returns tt, v)
      → q.dispatch_locking ≡ true
      → q.locked ≡ true
      → let d = get_and_dispatch_with name dispatch wakeup q w in
        (d.call.progress ≡ blocked) × (d.world ≡ v)
  lock_excludes a m free waiting held h wake l k =
      let (e, got, there) = cooked_wait_and_get_takes q a m free waiting held h in
      stopped a m e there wake l k

module _ {M : Type 0} (q : MessageQueue M) where
  -- A queue with dispatch locking and a free mutex: getAutoDispatchLock takes the mutex at once,
  -- and the destructor of the lock, also behind an unlock and a lock and behind a move, gives it
  -- back.
  pub lock_roundtrip :
      q.dispatch_locking ≡ true
      → q.locked ≡ false
      → let (p, q1) = get_auto_dispatch_lock q in
        let (l2, q2) = unlock holds_mutex q1 in
        let (p3, l3, q3) = lock l2 q2 in
        (p ≡ done (returns holds_mutex))
        × (q1.locked ≡ true)
        × (destroy holds_mutex q1 ≡ q)
        × (q2 ≡ q)
        × (p3 ≡ done (returns tt))
        × (destroy l3 q3 ≡ q)
        × (destroy (move holds_mutex).1 (destroy (move holds_mutex).0 q1) ≡ q)
  unfolding get_auto_dispatch_lock unlock lock destroy move
  lock_roundtrip l k = ground arith

  -- The move assignment to a lock that holds the mutex does not unlock it: when both locks are
  -- destroyed, the one that was assigned having held nothing, the mutex is still held.
  pub move_assign_strands :
      (other : AutoDispatchLock)
      → other.locked ≡ false
      → q.locked ≡ true
      → let (l, o) = move_assign holds_mutex other in (destroy o (destroy l q)).locked ≡ true
  unfolding move_assign destroy
  move_assign_strands other n k = ground arith

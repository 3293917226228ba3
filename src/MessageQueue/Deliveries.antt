-- ===== src/MessageQueue/Deliveries.antt =====
-- What any number of threads see of one message queue of src/MessageQueue.hpp.
use mathlib.Core.List.{Nodup}
use reiser_rt_core.Prelude.{ℕ, ◌≤◌, ◌≡◌, refl, true, false, List, [], ◌∷◌, ◌++◌, arith, none}
use reiser_rt_core.Outcome.{returns}
use reiser_rt_core.Prelude.Families.{update}
use reiser_rt_core.RingBufferGuarded.{done}
use reiser_rt_core.RingBufferGuarded.Contents.{Represents}
use reiser_rt_core.MessageQueue.{MessageQueue, raw_put_and_notify, cooked_put_and_notify}
use reiser_rt_core.MessageQueue.Messages.{give_back_cooked}
use reiser_rt_core.MessageQueue.Contents.{Placed, Owns, addresses}
use reiser_rt_core.MessageQueue.RawBlocks.{raw_put_and_notify_returns}
use reiser_rt_core.MessageQueue.Waiting.{cooked_put_and_notify_sends}
use reiser_rt_core.MessageQueue.Sending.{Owns-update}
use reiser_rt_core.MessageQueue.Threads.{Pending, making, made, ending, Shared, Reach}
use reiser_rt_core.MessageQueue.Flight.{taken, placed, held-Nodup}
use reiser_rt_core.MessageQueue.Passing.{dispatching, Alive, Inv}
use reiser_rt_core.MessageQueue.Circulation.{alone, others-Alive}
use reiser_rt_core.MessageQueue.Receipts.{Reach-Inv}

-- A queue with no call in flight and the messages `waiting` in its ring.
abbrev pub start : {M : Type 0} → MessageQueue M → List (Placed M) → Shared M
start q waiting = record { queue = q; calls = []; sent = waiting; received = [] }

start-Inv :
    {M : Type 0} (q : MessageQueue M) (free : List ℕ) (waiting : List (Placed M))
    → Owns q free waiting []
    → q.locked ≡ false
    → Inv (start q waiting)
start-Inv q free waiting h unlocked = record {
  free = free;
  waiting = waiting;
  owns = h;
  alive = tt;
  in_order = refl;
  exclusive = λ l. rw unlocked refl;
}

module _ {M : Type 0} (base name : M → ℕ) (at_start : (m : M) → base m ≡ 0) (q : MessageQueue M)
    (free : List ℕ) (waiting : List (Placed M)) (h : Owns q free waiting [])
    (unlocked : q.locked ≡ false) {s : Shared M} (r : Reach base name (start q waiting) s) where
  now : Inv s
  now = Reach-Inv base name at_start (start-Inv q free waiting h unlocked) r

  -- A queue in use with no call in flight and the dispatch mutex free, whose messages all have
  -- their base class at their start, and any number of calls of put, emplace and getAndDispatch by
  -- threads that take turns at the rings in any order: what came out of the ring of messages is, in
  -- order, the first part of what went in, and the rest is what the ring holds; each message there,
  -- and each one in a call's hands, is alive where it was made; and the calls in flight hold
  -- different blocks.
  pub messages_in_order :
      (rest : List (Placed M)) × (s.sent ≡ s.received ++ rest)
      × Represents s.queue.cooked_ring_buffer (addresses rest)
      × Alive s.queue rest
      × Alive s.queue (placed s.calls)
      × Nodup (taken s.calls)
  messages_in_order = (
    now.waiting,
    now.in_order,
    now.owns.cooked,
    now.owns.alive,
    now.alive,
    held-Nodup s.queue now.owns,
  )

  -- For such a queue and such threads, no call that has a block waits or throws on its way on: the
  -- put of a message that is made, the return of a block whose message was not made, and the way
  -- out of getAndDispatch.
  pub calls_pass :
      (before after : List (Pending M)) (a : ℕ)
      → ((m : M)
          → s.calls ≡ before ++ made a m ∷ after
          → (cooked_put_and_notify a s.queue).progress ≡ done (returns tt))
        × (s.calls ≡ before ++ making a ∷ after
            → (raw_put_and_notify a s.queue).progress ≡ done (returns tt))
        × (s.calls ≡ before ++ ending a ∷ after
            → (give_back_cooked {B = Unit {0}} a (returns tt) [] s.queue).progress
              ≡ done (returns tt))
  unfolding give_back_cooked
  calls_pass before after a = (
    (λ m at.
        (cooked_put_and_notify_sends s.queue a m now.free now.waiting (taken (before ++ after))
          (alone now before after (made a m) at)
          (others-Alive now before after (made a m) at).0.0).0),
    (λ at.
        (raw_put_and_notify_returns s.queue a now.free now.waiting (taken (before ++ after))
          (alone now before after (making a) at)).0),
    λ at.
        let put =
          (raw_put_and_notify_returns (record s.queue { objects = update s.queue.objects a none }) a
            now.free now.waiting (taken (before ++ after))
            (Owns-update s.queue a none (alone now before after (ending a) at))).0 in
        rw put refl,
  )

  -- For such a queue and such threads, with dispatch locking at most one call is within a dispatch
  -- at a time.
  pub one_dispatches : s.queue.dispatch_locking ≡ true → dispatching s.calls ≤ 1
  one_dispatches l = let e = now.exclusive l in ground arith

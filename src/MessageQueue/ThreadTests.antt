-- ===== src/MessageQueue/ThreadTests.antt =====
-- Two threads at a small message queue of src/MessageQueue.hpp.
use mathlib.Core.List.{Nodup}
use reiser_rt_core.Prelude.{ℕ, ◌≤◌, ◌≡◌, ◌∙◌, refl, true, false, List, [], ◌∷◌, ◌++◌, ◌&&◌}
use reiser_rt_core.Outcome.{returns}
use reiser_rt_core.RingBufferGuarded.{done}
use reiser_rt_core.RingBufferGuarded.Contents.{Represents}
use reiser_rt_core.MessageQueue.{
  raw_wait_and_get, raw_put_and_notify, cooked_put_and_notify, cooked_wait_and_get,
}
use reiser_rt_core.MessageQueue.Messages.{give_back_cooked}
use reiser_rt_core.MessageQueue.Contents.{Placed, Owns, addresses}
use reiser_rt_core.MessageQueue.RawBlocks.{raw_wait_and_get_takes}
use reiser_rt_core.MessageQueue.Waiting.{cooked_wait_and_get_takes}
use reiser_rt_core.MessageQueue.Threads.{
  making, made, running, ending, Shared, Reach, here, next, puts, dispatches, takes, fetches, names,
  locks,
}
use reiser_rt_core.MessageQueue.Flight.{taken, placed}
use reiser_rt_core.MessageQueue.Passing.{dispatching, Alive, raw_get_lock, cooked_get_lock}
use reiser_rt_core.MessageQueue.Deliveries.{start, messages_in_order, calls_pass, one_dispatches}
use reiser_rt_core.MessageQueue.Tests.{half, half-Owns}

taken-Owns : Owns (raw_wait_and_get half).queue [] ((0, 5) ∷ []) (8 ∷ [])
taken-Owns = (raw_wait_and_get_takes half 8 [] ((0, 5) ∷ []) [] half-Owns).1

locking_kept :
    let p = (cooked_wait_and_get (raw_wait_and_get half).queue).queue in
    (p.dispatch_locking ≡ true) × (p.locked ≡ false)
locking_kept =
    let (same_lock, objects) = cooked_get_lock (raw_wait_and_get half).queue in
    (same_lock.0 ∙ (raw_get_lock half).0, same_lock.1 ∙ (raw_get_lock half).1)

unlocked :
    let p = (cooked_wait_and_get (raw_wait_and_get half).queue).queue in
    p.dispatch_locking && p.locked ≡ false
unlocked = rw (locking_kept.0, locking_kept.1) refl

-- One thread has taken the free block for its message, and the other one dispatches the message
-- that has waited.
abbrev busy : (s : Shared ℕ) × Reach (λ _. 0) (λ m. m) (start half ((0, 5) ∷ [])) s
busy =
    let got =
      cooked_wait_and_get_takes (raw_wait_and_get half).queue 0 5 [] [] (8 ∷ []) taken-Owns in
    (
      _,
      next
          (next
            (next
              (next here
                (puts (takes 8 (raw_wait_and_get_takes half 8 [] ((0, 5) ∷ []) [] half-Owns).0)))
              (dispatches (fetches 0 5 got.0 got.2)))
            (dispatches (names [] (making 8 ∷ []) 0 5 refl)))
          (dispatches (locks [] (making 8 ∷ []) 0 5 refl unlocked)),
    )

messages_in_order_example :
    let s = busy.0 in
    (rest : List (Placed ℕ)) × (s.sent ≡ s.received ++ rest)
    × Represents s.queue.cooked_ring_buffer (addresses rest)
    × Alive s.queue rest
    × Alive s.queue (placed s.calls)
    × Nodup (taken s.calls)
messages_in_order_example =
    messages_in_order (λ _. 0) (λ m. m) (λ m. refl) half (8 ∷ []) ((0, 5) ∷ []) half-Owns refl
      busy.1

calls_pass_example :
    let s = busy.0 in
    ((m : ℕ)
      → s.calls ≡ (running 0 5 ∷ []) ++ made 8 m ∷ []
      → (cooked_put_and_notify 8 s.queue).progress ≡ done (returns tt))
    × (s.calls ≡ (running 0 5 ∷ []) ++ making 8 ∷ []
        → (raw_put_and_notify 8 s.queue).progress ≡ done (returns tt))
    × (s.calls ≡ (running 0 5 ∷ []) ++ ending 8 ∷ []
        → (give_back_cooked {B = Unit {0}} 8 (returns tt) [] s.queue).progress ≡ done (returns tt))
calls_pass_example =
    calls_pass (λ _. 0) (λ m. m) (λ m. refl) half (8 ∷ []) ((0, 5) ∷ []) half-Owns refl busy.1
      (running 0 5 ∷ []) [] 8

one_dispatches_example : dispatching busy.0.calls ≤ 1
one_dispatches_example =
    one_dispatches (λ _. 0) (λ m. m) (λ m. refl) half (8 ∷ []) ((0, 5) ∷ []) half-Owns refl busy.1
      locking_kept.0

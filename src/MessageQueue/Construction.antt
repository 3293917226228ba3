-- ===== src/MessageQueue/Construction.antt =====
-- A new message queue has all its blocks free.
use mathlib.Core.List.{append-nil}
use mathlib.Core.List.Perm
use native.Mathlib.Nat.{mod-eq_of_lt}
use reiser_rt_core.Prelude.{
  ℕ, ◌*◌, ◌^◌, ◌≤◌, ◌<◌, ◌≡◌, refl, ap, subst, ◌∙◌, Bool, false, none, [], arith, built-congr,
  length-built,
}
use reiser_rt_core.Prelude.Words.{u64}
use reiser_rt_core.Outcome.{returns}
use reiser_rt_core.RingBufferSimple.{allocate}
use reiser_rt_core.RingBufferSimple.Steps.{length-allocate, construct-Represents}
use reiser_rt_core.Semaphore as Sem
use reiser_rt_core.Semaphore.Counts.{construct_full}
use reiser_rt_core.RingBufferGuarded as Guarded
use reiser_rt_core.RingBufferGuarded.{RingBufferGuarded}
use reiser_rt_core.RingBufferGuarded.Contents.{Represents}
use reiser_rt_core.RingBufferGuarded.Kept.{IsReady}
use reiser_rt_core.RingBufferGuarded.Priming.{
  builds, unprimed, prime_lem, prime_semaphore, elements_enough,
}
use reiser_rt_core.MemoryPool.{get_padded_type_alloc_size}
use reiser_rt_core.MemoryPool.Memory.{padded_least}
use reiser_rt_core.MemoryPool.Construction.{All-built}
use reiser_rt_core.MessageQueue.{MessageQueue, construct}
use reiser_rt_core.MessageQueue.Contents.{IsBlock, blocks, Owns}

-- The two rings of a queue, for blocks of `size` bytes.
module _ (garbage : ℕ → ℕ) (requested size : ℕ) where
  abbrev places : ℕ → ℕ
  places i = u64 (i * size)

  abbrev primed : RingBufferGuarded ℕ
  primed = (Guarded.prime (builds places) (λ _. false) (unprimed garbage places requested)).1

  abbrev unused : RingBufferGuarded ℕ
  unused = Guarded.construct garbage requested false

  module _ (some_there : 0 < requested) (few : requested ≤ 2 ^ 20) where
    primed_room : primed.semaphore.max_available_count ≡ requested
    unfolding Guarded.construct
    primed_room =
        ap (λ s. s.max_available_count) (prime_semaphore garbage places requested some_there few)
        ∙ (construct_full requested some_there (omega arith)).1

    primed-IsReady : IsReady primed
    unfolding Guarded.construct Sem.construct
    primed-IsReady =
        let p = prime_lem garbage places requested some_there few in
        record {
          in_state = p.1;
          no_abort =
              ap (λ s. s.abort_flag) (prime_semaphore garbage places requested some_there few);
          fits = p.3;
          range = omega (arith, primed_room);
        }

    unused_room : unused.semaphore.max_available_count ≡ requested
    unfolding Guarded.construct Sem.construct Sem.doctor_max_available_count
    unused_room = ground arith

    unused-Represents : Represents unused []
    unfolding Guarded.construct Sem.construct Sem.doctor_max_available_count
    unused-Represents = record {
      ring = construct-Represents garbage requested;
      bounded = record { available = ground arith; range = ground arith };
      count = ground arith;
    }

    unused-IsReady : IsReady unused
    unfolding Guarded.construct Sem.construct
    unused-IsReady = record {
      in_state = refl;
      no_abort = refl;
      fits = omega (arith, unused_room, elements_enough garbage (λ i. i) requested few);
      range = omega (arith, unused_room);
    }

module _ {M : Type 0} (garbage bytes : ℕ → ℕ) (requested size : ℕ) (locking : Bool) where
  -- The new queue with blocks of `size` bytes.
  abbrev new_queue : MessageQueue M
  new_queue = record {
    requested_num_elements = requested;
    element_size = size;
    dispatch_locking = locking;
    locked = false;
    arena = allocate (u64 (size * requested)) bytes;
    objects = λ _. none;
    name_of_last_message_dispatched = none;
    raw_ring_buffer = primed garbage requested size;
    cooked_ring_buffer = unused garbage requested size;
    running_count = 0;
    high_watermark = 0;
    aborted = false;
  }

  module _ (some_there : 0 < requested) (few : requested ≤ 2 ^ 20) where
    new_queue-Owns : 0 < size → size < 2 ^ 41 → Owns new_queue (blocks new_queue) [] []
    new_queue-Owns pos fits = record {
      raw =
          subst (Represents (primed garbage requested size))
            (built-congr (places garbage requested size) (λ j. j * size) requested 0 requested
              (omega arith) (λ j lt. mod-eq_of_lt (grind (arith, fits, few))))
            (prime_lem garbage (places garbage requested size) requested some_there few).2;
      raw_ready = primed-IsReady garbage requested size some_there few;
      raw_room = primed_room garbage requested size some_there few;
      cooked = unused-Represents garbage requested size some_there few;
      cooked_ready = unused-IsReady garbage requested size some_there few;
      cooked_room = unused_room garbage requested size some_there few;
      storage = length-allocate _ bytes ∙ mod-eq_of_lt (grind (arith, fits, few));
      positive = pos;
      running = refl;
      high = omega arith;
      high_range = omega arith;
      all_there = omega (arith, length-built (λ i. i * size) 0 requested);
      alive = tt;
      free_blocks =
          All-built (IsBlock new_queue) (λ i. i * size) requested 0 requested (omega arith)
            (λ j lt. (j, lt, refl));
      waiting_blocks = tt;
      held_blocks = tt;
      shares = rw (append-nil, append-nil) (Perm.refl (blocks new_queue));
    }

module _ {M : Type 0} (garbage bytes : ℕ → ℕ) (requested size : ℕ) (locking : Bool)
    (some_there : 0 < requested) (few : requested ≤ 2 ^ 20) where
  abbrev padded_queue : MessageQueue M
  padded_queue = new_queue garbage bytes requested (get_padded_type_alloc_size size) locking

  constructs : construct {M = M} garbage bytes requested size locking ≡ returns padded_queue
  unfolding construct
  constructs =
      let p =
        prime_lem garbage (places garbage requested (get_padded_type_alloc_size size)) requested
          some_there few in
      ground (arith, p.0)

  -- A request of 1 to 2 ^ 20 blocks, of 1 to 2 ^ 40 bytes: construction succeeds, and gives a queue
  -- with that many blocks of the padded size, all free, in the order of their addresses, and no
  -- message.
  pub construct-Owns_all :
      0 < size
      → size ≤ 2 ^ 40
      → (q : MessageQueue M) × (construct garbage bytes requested size locking ≡ returns q)
        × Owns q (blocks q) [] []
        × (q.requested_num_elements ≡ requested)
        × (q.element_size ≡ get_padded_type_alloc_size size)
  construct-Owns_all pos fits =
      let ok = padded_least size (omega arith) in
      (
        padded_queue,
        constructs,
        new_queue-Owns garbage bytes requested (get_padded_type_alloc_size size) locking some_there
            few (omega arith) (omega arith),
        refl,
        refl,
      )

-- ===== src/RingBufferGuarded/Threads.antt =====
-- Threads that call `get`, `put` and `abort` of one guarded ring of src/RingBufferGuarded.hpp, in
-- any interleaving: the calls as clients of the semaphore's step relation.
use reiser_rt_core.Prelude.{
  ◌≢◌, ◌⊎◌, inl, inr, ℕ, ◌+◌, ◌^◌, ◌<◌, ◌≡◌, refl, ap, List, [], ◌++◌, arith, length, length-append,
}
use reiser_rt_core.Outcome.{returns, throws, fault, semaphore_aborted, semaphore_overflow}
use reiser_rt_core.RingBufferSimple.Contents as RingContents
use reiser_rt_core.Semaphore.{Semaphore, Ending, ends, blocks}
use reiser_rt_core.Semaphore.Threads.{
  Operation, outside, take_waiting, is_take_woken, tally, System, Reach,
}
use reiser_rt_core.Semaphore.Steps.{tally-init}
use reiser_rt_core.Semaphore.Keeping.{Sound, Reach-Sound}
use reiser_rt_core.Semaphore.Liveness.{nobody-Live, some_taker_woken, rests}
use reiser_rt_core.RingBufferGuarded.{RingBufferGuarded}
use reiser_rt_core.RingBufferGuarded.Contents.{Represents, Fits}
use reiser_rt_core.RingBufferGuarded.Ledger.{Ledger}
use reiser_rt_core.RingBufferGuarded.Fifo.{
  IsGet, IsPut, IsQueue, IsQueue-Discipline, nothing_waits, something_waits,
}

-- All threads outside the calls of a buffer that holds `xs`.
abbrev pub start : {A : Type 0} → RingBufferGuarded A → List A → System (Ledger A)
start b xs = record {
  semaphore = b.semaphore;
  world = record { ring = b.ring; stored = xs; fetched = [] };
  pc = λ _. outside;
}

-- No thread is in a call of `b`.
abbrev pub Idle : {A : Type 0} → RingBufferGuarded A → Type 0
Idle b = (b.semaphore.take_pending_count ≡ 0) × (b.semaphore.give_pending_count ≡ 0)

-- The calls in which the ring throws are none of these.
abbrev pub IsQuiet : Ending → Type 0
IsQuiet blocks = Unit
IsQuiet (ends (returns _)) = Unit
IsQuiet (ends (throws e)) = (e ≡ semaphore_aborted) ⊎ (e ≡ semaphore_overflow)
IsQuiet (ends fault) = ⊥

module _ {A : Type 0} {n : ℕ} (b : RingBufferGuarded A) (xs : List A) (small : n < 2 ^ 16)
    (h : Represents b xs) (fits : Fits b) (idle : Idle b) {s : System (Ledger A)}
    (r : Reach IsGet IsPut n (start b xs) s) where
  sound :
      Sound IsGet IsPut b.semaphore.max_available_count
        (IsQueue b.semaphore.max_available_count)
        n
        s
  sound =
      Reach-Sound (IsQueue-Discipline _) small
        (record {
          inv = record {
            bounded = h.bounded;
            takers = omega (arith, idle.0, nobody.0, nobody.1);
            givers = omega (arith, idle.1, nobody.2, nobody.3);
            nobody_asleep = λ _. (nobody.0, nobody.2);
          };
          live = nobody-Live _ _ nobody.0 nobody.2;
          permitted = λ j. tt;
          kept = record {
            maximum = refl;
            related = record {
              waiting = xs;
              ring = h.ring;
              space = fits;
              counted = h.count;
              in_order = refl;
            };
          };
        })
        r
    where
      nobody :
          let t = tally {W = Ledger A} n (λ _. outside) in
          (t.take_asleep ≡ 0) × (t.take_back ≡ 0) × (t.give_asleep ≡ 0) × (t.give_back ≡ 0)
      nobody = tally-init (Ledger A) n

  -- Fewer than 2 ^ 16 threads that call get, put and abort of a ready buffer, in any interleaving,
  -- the buffer idle and holding the elements xs at first, its semaphore admitting no more than the
  -- ring has room for: in every state that they reach, xs and the elements stored since, in the
  -- order in which they were stored, are the elements fetched so far, in the order in which they
  -- were fetched, followed by those that the ring holds; and the semaphore counts the elements in
  -- the ring.
  pub first_in_first_out :
      (ys : List A) × (s.world.stored ≡ s.world.fetched ++ ys)
      × RingContents.Represents s.world.ring ys
      × (s.semaphore.available_count ≡ length ys)
  first_in_first_out = let q = sound.kept.related in (q.waiting, q.in_order, q.ring, q.counted)

  -- Threads as in first_in_first_out: in every state that they reach, while a thread sleeps in get
  -- and some stored element is not fetched, some thread has been woken in get.
  pub no_lost_get_wakeup :
      (i : ℕ) (op : Operation (Ledger A))
      → i < n
      → s.pc i ≡ take_waiting op
      → s.world.stored ≢ s.world.fetched
      → (j : ℕ) × (j < n) × (0 < is_take_woken (s.pc j))
  no_lost_get_wakeup i op lt e more =
      some_taker_woken sound i op lt e (something_waits _ sound.kept.related more)

  -- Threads as in first_in_first_out: in every state that they reach in which no woken thread is
  -- left to run, no thread sleeps in get or every stored element is fetched, and no thread sleeps
  -- in put or the ring holds as many elements as the semaphore admits.
  pub buffer_at_rest :
      (tally n s.pc).take_back + (tally n s.pc).give_back ≡ 0
      → (((tally n s.pc).take_asleep ≡ 0) ⊎ (s.world.stored ≡ s.world.fetched))
        × (((tally n s.pc).give_asleep ≡ 0)
            ⊎ (length s.world.stored ≡ length s.world.fetched + b.semaphore.max_available_count))
  buffer_at_rest quiet =
      let (takers, givers, _) = rests sound quiet in
      let k = sound.kept in
      (
        elim takers [ inl e ↦ inl e | inr e ↦ inr (nothing_waits _ k.related e) ],
        elim givers [
          | inl e ↦ inl e
          | inr e ↦ inr (
              omega (
                arith,
                e,
                k.maximum,
                k.related.counted,
                ap length k.related.in_order,
                length-append s.world.fetched k.related.waiting,
              ))
        ],
      )

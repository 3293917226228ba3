-- ===== src/Semaphore/Liveness.antt =====
-- No wake-up is lost among threads whose functions do not throw.
use reiser_rt_core.Prelude.{◌⊎◌, ℕ, ◌+◌, ◌^◌, ◌≤◌, ◌<◌, ◌≡◌, refl, false, arith}
use reiser_rt_core.Prelude.Families.{total_witness}
use reiser_rt_core.Prelude.Words.{max32}
use reiser_rt_core.Outcome.{Exception, returns, throws}
use reiser_rt_core.Semaphore.{Semaphore, construct, take_turn, take_with, take_wake}
use reiser_rt_core.Semaphore.Threads.{
  Operation, outside, take_waiting, take_woken, give_waiting, is_take_woken, is_give_woken,
  after_take, Tally, tally, Ran, ran, System, init, Reach,
}
use reiser_rt_core.Semaphore.Tallies.{update-Exchanged, after_notices, Delivers-tally}
use reiser_rt_core.Semaphore.Steps.{SystemInv, init-Inv, tally-init}
use reiser_rt_core.Semaphore.Discipline.{Discipline}
use reiser_rt_core.Semaphore.Wakeups.{Live}
use reiser_rt_core.Semaphore.Keeping.{Sound, Reach-Sound}

-- What holds between any two segments of threads that keep a discipline.
module _ {W : Type 0} {Takes Gives : Operation W → Type 0} {room : ℕ} {P : ℕ → W → Type 0} {n : ℕ}
    {s : System W} (sound : Sound Takes Gives room P n s) where
  -- A take that sleeps on a positive count has a fellow that has been woken.
  pub some_taker_woken :
      (i : ℕ) (op : Operation W)
      → i < n
      → s.pc i ≡ take_waiting op
      → 0 < s.semaphore.available_count
      → (j : ℕ) × (j < n) × (0 < is_take_woken (s.pc j))
  unfolding tally
  some_taker_woken i op lt e some_there =
      let asleep = (update-Exchanged n i s.pc _ outside lt e).take_asleep in
      total_witness is_take_woken n s.pc (omega (arith, sound.live.takers (omega (arith, asleep))))

  pub some_giver_woken :
      (i : ℕ) (op : Operation W)
      → i < n
      → s.pc i ≡ give_waiting op
      → s.semaphore.available_count < s.semaphore.max_available_count
      → (j : ℕ) × (j < n) × (0 < is_give_woken (s.pc j))
  unfolding tally
  some_giver_woken i op lt e room_left =
      let asleep = (update-Exchanged n i s.pc _ outside lt e).give_asleep in
      total_witness is_give_woken n s.pc (omega (arith, sound.live.givers (omega (arith, asleep))))

  pub rests :
      (tally n s.pc).take_back + (tally n s.pc).give_back ≡ 0
      → let t = tally n s.pc in
        let sem = s.semaphore in
        ((t.take_asleep ≡ 0) ⊎ (sem.available_count ≡ 0))
        × ((t.give_asleep ≡ 0) ⊎ (sem.available_count ≡ sem.max_available_count))
        × ((t.take_asleep ≡ 0) ⊎ (t.give_asleep ≡ 0) ⊎ (sem.max_available_count ≡ 0))
  rests quiet = (
    grind (arith, live.takers),
    grind (arith, live.givers, sound.inv.bounded.available),
    grind (arith, live.takers, live.givers),
  )
    where
      live : Live s.semaphore (tally n s.pc)
      live = sound.live

-- While nobody sleeps, no wake-up is owed.
pub nobody-Live : (s : Semaphore) (t : Tally) → t.take_asleep ≡ 0 → t.give_asleep ≡ 0 → Live s t
nobody-Live s t e f = record {
  takers = λ a. absurd (omega (arith, a));
  givers = λ a. absurd (omega (arith, a));
}

-- A function object that returns, whatever state it finds.
abbrev pub Reliable : {W : Type 0} → Operation W → Type 0
Reliable op = (w : _) → (op w).0 ≡ returns tt

abbrev Anything : {W : Type 0} → ℕ → W → Type 0
Anything n w = Unit {0}

Reliable-Discipline : {W : Type 0} (room : ℕ) → Discipline {W = W} Reliable Reliable room Anything
Reliable-Discipline room = record {
  take_returns = λ op n w ok h. ok w;
  take_keeps = λ op n w ok h. tt;
  give_returns = λ op n w ok l h. ok w;
  give_keeps = λ op n w ok l h. tt;
}

module _ {W : Type 0} {n : ℕ} (initial the_max : ℕ) (w : W) (small : n < 2 ^ 16)
    (range : the_max ≤ max32) {s : System W}
    (r : Reach Reliable Reliable n (init initial the_max w) s) where
  sound : Sound Reliable Reliable (construct initial the_max).max_available_count Anything n s
  sound =
      Reach-Sound (Reliable-Discipline _) small
        (record {
          inv = init-Inv n initial the_max w range;
          live = nobody-Live _ _ (tally-init W n).0 (tally-init W n).2;
          permitted = λ j. tt;
          kept = record { maximum = refl; related = tt };
        })
        r

  -- Fewer than 2 ^ 16 threads whose functions do not throw, and a maximum that fits 32 bits: in
  -- every state that they reach, while a thread sleeps in a take and the count is positive, some
  -- thread has been woken in a take.
  pub no_lost_take_wakeup :
      (i : ℕ) (op : Operation W)
      → i < n
      → s.pc i ≡ take_waiting op
      → 0 < s.semaphore.available_count
      → (j : ℕ) × (j < n) × (0 < is_take_woken (s.pc j))
  no_lost_take_wakeup i op lt e some_there = some_taker_woken sound i op lt e some_there

  -- Fewer than 2 ^ 16 threads whose functions do not throw, and a maximum that fits 32 bits: in
  -- every state that they reach, while a thread sleeps in a give and the count is below the
  -- maximum, some thread has been woken in a give.
  pub no_lost_give_wakeup :
      (i : ℕ) (op : Operation W)
      → i < n
      → s.pc i ≡ give_waiting op
      → s.semaphore.available_count < s.semaphore.max_available_count
      → (j : ℕ) × (j < n) × (0 < is_give_woken (s.pc j))
  no_lost_give_wakeup i op lt e room = some_giver_woken sound i op lt e room

-- A take that throws loses a wake-up: if the only woken take runs a function that throws, on a
-- semaphore that is not aborted and has a positive count, while another take sleeps, then
-- afterwards the count is as it was, as many takes sleep, and none is woken.
pub take_throw_strands :
    {W : Type 0} {n : ℕ} {s t : System W} (i : ℕ) (op : Operation W) (x : Exception)
    → i < n
    → s.pc i ≡ take_woken op
    → (let g = take_with op (take_wake s.semaphore) s.world in
        Ran n s i (after_take op g.ending) g t)
    → SystemInv n s
    → s.semaphore.abort_flag ≡ false
    → 0 < s.semaphore.available_count
    → (op s.world).0 ≡ throws x
    → 0 < (tally n s.pc).take_asleep
    → (tally n s.pc).take_back ≡ 1
    → (t.semaphore.available_count ≡ s.semaphore.available_count)
      × ((tally n t.pc).take_asleep ≡ (tally n s.pc).take_asleep)
      × ((tally n t.pc).take_back ≡ 0)
unfolding take_with take_turn take_wake after_notices
take_throw_strands {n} {s} {t} i op x lt e (ran d es ew) v a c o z one =
    ground (arith, Delivers-tally n _ _ t.pc d, update-Exchanged n i s.pc _ outside lt e)

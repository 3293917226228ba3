-- ===== src/Semaphore/Pending.antt =====
-- The pending counts of the semaphore are the numbers of threads inside the waits, the count stays
-- within its bounds, and an abort leaves nobody asleep.
use reiser_rt_core.Prelude.{◌+◌, ◌-◌, ◌^◌, ◌<◌, ◌≡◌, true, arith}
use reiser_rt_core.Semaphore.{
  Semaphore, take_turn, give_turn, take_with, take_wake, take_notify, give_with, give_wake, abort,
}
use reiser_rt_core.Semaphore.Counts.{IsBounded, take_with-IsBounded, give_with-IsBounded}
use reiser_rt_core.Semaphore.Threads.{
  Operation, Pc, outside, take_woken, give_woken, after_take, after_give, Tally,
}
use reiser_rt_core.Semaphore.Tallies.{Exchanged, after_notice, after_notices, crowd}

-- The semaphore `s` fits the threads that `t` counts.
pub record Inv (s : Semaphore) (t : Tally) : Type 0 where
  pub bounded : IsBounded s
  pub takers : s.take_pending_count ≡ t.take_asleep + t.take_back
  pub givers : s.give_pending_count ≡ t.give_asleep + t.give_back
  pub nobody_asleep : s.abort_flag ≡ true → (t.take_asleep ≡ 0) × (t.give_asleep ≡ 0)

module _ {W : Type 0} (op : Operation W) (w : W) (s : Semaphore) (t u : Tally) where
  -- A take keeps the invariant, started by a thread that `t` does not count and that `u` counts.
  pub take_with-Inv :
      Inv s t
      → let g = take_with op s w in
        Exchanged outside (after_take op g.ending) t u
        → crowd u < 2 ^ 16
        → Inv g.semaphore (after_notices g.notices u)
  unfolding take_with take_turn take_notify after_notices after_notice
  take_with-Inv v e c = record {
    bounded = take_with-IsBounded op s w v.bounded;
    takers = ground arith;
    givers = ground arith;
    nobody_asleep = λ a. ground arith;
  }

  pub give_with-Inv :
      Inv s t
      → let g = give_with op s w in
        Exchanged outside (after_give op g.ending) t u
        → crowd u < 2 ^ 16
        → Inv g.semaphore (after_notices g.notices u)
  unfolding give_with give_turn after_notices after_notice
  give_with-Inv v e c = record {
    bounded = give_with-IsBounded op s w v.bounded;
    takers = ground arith;
    givers = ground arith;
    nobody_asleep = λ a. ground arith;
  }

pub abort-Inv :
    (s : Semaphore) (t : Tally) → Inv s t → Inv (abort s).0 (after_notices (abort s).1 t)
unfolding abort after_notices after_notice
abort-Inv s t v = record {
  bounded = ground arith;
  takers = ground arith;
  givers = ground arith;
  nobody_asleep = λ a. ground arith;
}

-- The numbers without one thread that has been woken.
abbrev pub without_taker : Tally → Tally
without_taker t = record t { take_back = t.take_back - 1 }

abbrev pub without_giver : Tally → Tally
without_giver t = record t { give_back = t.give_back - 1 }

pub take_wake-Inv :
    (s : Semaphore) (t : Tally)
    → Inv s t
    → 0 < t.take_back
    → crowd t < 2 ^ 16
    → Inv (take_wake s) (without_taker t)
unfolding take_wake
take_wake-Inv s t v p c = record {
  bounded = ground arith;
  takers = omega (arith, v.takers);
  givers = v.givers;
  nobody_asleep = v.nobody_asleep;
}

pub give_wake-Inv :
    (s : Semaphore) (t : Tally)
    → Inv s t
    → 0 < t.give_back
    → crowd t < 2 ^ 16
    → Inv (give_wake s) (without_giver t)
unfolding give_wake
give_wake-Inv s t v p c = record {
  bounded = ground arith;
  takers = v.takers;
  givers = omega (arith, v.givers);
  nobody_asleep = v.nobody_asleep;
}

module _ {W : Type 0} {op : Operation W} {q : Pc W} {t u : Tally} where
  -- A woken thread that leaves its place counts like one that comes from outside.
  pub resume_taker :
      0 < t.take_back → Exchanged (take_woken op) q t u → Exchanged outside q (without_taker t) u
  resume_taker p e = omega (arith, e.take_asleep, e.take_back, e.give_asleep, e.give_back)

  pub resume_giver :
      0 < t.give_back → Exchanged (give_woken op) q t u → Exchanged outside q (without_giver t) u
  resume_giver p e = omega (arith, e.take_asleep, e.take_back, e.give_asleep, e.give_back)

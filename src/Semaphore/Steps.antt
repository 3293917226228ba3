-- ===== src/Semaphore/Steps.antt =====
-- The invariant of `Pending` holds in every state that threads can reach.
use reiser_rt_core.Prelude.{ℕ, ◌^◌, ◌≤◌, ◌<◌, ◌≡◌, refl, arith}
use reiser_rt_core.Prelude.Families.{update, total-zero}
use reiser_rt_core.Prelude.Words.{max32}
use reiser_rt_core.Semaphore.{Semaphore, construct, Segment, take_wake, give_wake, abort}
use reiser_rt_core.Semaphore.Counts.{construct-IsBounded}
use reiser_rt_core.Semaphore.Threads.{
  Operation, Pc, outside, take_waiting, take_woken, give_waiting, give_woken, is_take_waiting,
  is_take_woken, is_give_waiting, is_give_woken, Tally, tally, Ran, ran, System, Step, take_call,
  take_resume, give_call, give_resume, abort_call, take_spurious, give_spurious, init, Reach, here,
  next,
}
use reiser_rt_core.Semaphore.Pending.{
  Inv, take_with-Inv, give_with-Inv, abort-Inv, take_wake-Inv, give_wake-Inv, without_taker,
  without_giver, resume_taker, resume_giver,
}
use reiser_rt_core.Semaphore.Tallies.{
  Exchanged, update-Exchanged, after_notices, Delivers-tally, crowd, crowd-le,
}

abbrev pub SystemInv : {W : Type 0} → ℕ → System W → Type 0
SystemInv n s = Inv s.semaphore (tally n s.pc)

module _ {W : Type 0} (n : ℕ) (pc : ℕ → Pc W) (i : ℕ) (op : Operation W) (lt : i < n) where
  pub taker_counts : pc i ≡ take_woken op → 0 < (tally n pc).take_back
  taker_counts e = omega (arith, (update-Exchanged n i pc _ outside lt e).take_back)

  pub giver_counts : pc i ≡ give_woken op → 0 < (tally n pc).give_back
  giver_counts e = omega (arith, (update-Exchanged n i pc _ outside lt e).give_back)

-- The claim about a system follows from the one about the segment that a thread ran.
pub from_segment :
    {W : Type 0} (P : Semaphore → Tally → Type 0) {n : ℕ} {s t : System W} {i : ℕ} {p : Pc W}
    {g : Segment W}
    → Ran n s i p g t
    → P g.semaphore (after_notices g.notices (tally n (update s.pc i p)))
    → P t.semaphore (tally n t.pc)
from_segment P {n} {s} {t} {i} {p} {g} (ran d es ew) h =
    rw (es, Delivers-tally n g.notices (update s.pc i p) t.pc d) h

pub few : {W : Type 0} {n : ℕ} → n < 2 ^ 16 → (pc : ℕ → Pc W) → crowd (tally n pc) < 2 ^ 16
few {n} small pc = omega (arith, crowd-le n pc)

-- A wait that returns without a notice.
module _ {W : Type 0} {op : Operation W} {s : Semaphore} {t u : Tally} (v : Inv s t) where
  spurious-Inv : Exchanged (take_waiting op) (take_woken op) t u → Inv s u
  spurious-Inv e = record {
    bounded = v.bounded;
    takers = omega (arith, v.takers, e.take_asleep, e.take_back);
    givers = omega (arith, v.givers, e.give_asleep, e.give_back);
    nobody_asleep = λ a. omega (arith, v.nobody_asleep a, e.take_asleep, e.give_asleep);
  }

  spurious_give-Inv : Exchanged (give_waiting op) (give_woken op) t u → Inv s u
  spurious_give-Inv e = record {
    bounded = v.bounded;
    takers = omega (arith, v.takers, e.take_asleep, e.take_back);
    givers = omega (arith, v.givers, e.give_asleep, e.give_back);
    nobody_asleep = λ a. omega (arith, v.nobody_asleep a, e.take_asleep, e.give_asleep);
  }

-- Every step keeps the count within its bounds and the pending counts equal to the numbers of
-- threads inside the waits, and none is asleep once the semaphore is aborted.
pub Step-Inv :
    {W : Type 0} {Takes Gives : Operation W → Type 0} {n : ℕ} {s t : System W}
    → n < 2 ^ 16
    → Step Takes Gives n s t
    → SystemInv n s
    → SystemInv n t
Step-Inv {n} {s} small (take_call i op lt e ok r) v = from_segment Inv r (
    take_with-Inv op s.world s.semaphore (tally n s.pc) _ v (update-Exchanged n i s.pc _ _ lt e)
      (few small _))
Step-Inv {n} {s} small (take_resume i op lt e r) v =
    let back = taker_counts n s.pc i op lt e in
    from_segment Inv r (
      take_with-Inv op s.world (take_wake s.semaphore) (without_taker (tally n s.pc)) _
        (take_wake-Inv s.semaphore (tally n s.pc) v back (few small s.pc))
        (resume_taker back (update-Exchanged n i s.pc _ _ lt e)) (few small _))
Step-Inv {n} {s} small (give_call i op lt e ok r) v = from_segment Inv r (
    give_with-Inv op s.world s.semaphore (tally n s.pc) _ v (update-Exchanged n i s.pc _ _ lt e)
      (few small _))
Step-Inv {n} {s} small (give_resume i op lt e r) v =
    let back = giver_counts n s.pc i op lt e in
    from_segment Inv r (
      give_with-Inv op s.world (give_wake s.semaphore) (without_giver (tally n s.pc)) _
        (give_wake-Inv s.semaphore (tally n s.pc) v back (few small s.pc))
        (resume_giver back (update-Exchanged n i s.pc _ _ lt e)) (few small _))
Step-Inv {n} {s} {t} small (abort_call d es ew) v =
    rw (es, Delivers-tally n (abort s.semaphore).1 s.pc t.pc d)
      (abort-Inv s.semaphore (tally n s.pc) v)
Step-Inv {n} {s} small (take_spurious i op lt e et) v =
    rw et (spurious-Inv v (update-Exchanged n i s.pc _ (take_woken op) lt e))
Step-Inv {n} {s} small (give_spurious i op lt e et) v =
    rw et (spurious_give-Inv v (update-Exchanged n i s.pc _ (give_woken op) lt e))

pub tally-init :
    (W : Type 0) (n : ℕ)
    → let t = tally {W = W} n (λ _. outside) in
      (t.take_asleep ≡ 0) × (t.take_back ≡ 0) × (t.give_asleep ≡ 0) × (t.give_back ≡ 0)
unfolding tally
tally-init W n = (
  total-zero is_take_waiting n outside refl,
  total-zero is_take_woken n outside refl,
  total-zero is_give_waiting n outside refl,
  total-zero is_give_woken n outside refl,
)

pub init-Inv :
    {W : Type 0} (n initial the_max : ℕ) (w : W)
    → the_max ≤ max32
    → SystemInv n (init initial the_max w)
unfolding construct
init-Inv {W} n initial the_max w h = record {
  bounded = construct-IsBounded initial the_max h;
  takers = omega (arith, quiet_start.0, quiet_start.1);
  givers = omega (arith, quiet_start.2, quiet_start.3);
  nobody_asleep = λ a. cc;
}
  where
    quiet_start :
        let t = tally n (init initial the_max w).pc in
        (t.take_asleep ≡ 0) × (t.take_back ≡ 0) × (t.give_asleep ≡ 0) × (t.give_back ≡ 0)
    quiet_start = tally-init W n

-- Fewer than 2 ^ 16 threads, whatever their functions do, and a maximum that fits 32 bits: in
-- every state that they reach from a new semaphore, the count is between 0 and the maximum, the
-- pending counts are the numbers of threads inside the two waits, and none is asleep once the
-- semaphore is aborted.
pub Reach-Inv :
    {W : Type 0} {Takes Gives : Operation W → Type 0} {n : ℕ} (initial the_max : ℕ) (w : W)
    {s : System W}
    → n < 2 ^ 16
    → the_max ≤ max32
    → Reach Takes Gives n (init initial the_max w) s
    → SystemInv n s
Reach-Inv {n} initial the_max w small h here = init-Inv n initial the_max w h
Reach-Inv initial the_max w small h (next r st) =
    Step-Inv small st (Reach-Inv initial the_max w small h r)

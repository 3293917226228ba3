-- ===== src/Semaphore/Wakeups.antt =====
-- What keeps wake-ups on their way, among threads whose functions keep a discipline.
use reiser_rt_core.Prelude.{subst, ℕ, ◌+◌, ◌^◌, ◌≤◌, ◌<◌, ◌≡◌, arith}
use reiser_rt_core.Outcome.{returns}
use reiser_rt_core.Semaphore.{
  Semaphore, take_turn, give_turn, take_with, take_wake, take_notify, give_with, give_wake, abort,
}
use reiser_rt_core.Semaphore.Threads.{
  Operation, outside, take_waiting, take_woken, give_waiting, give_woken, after_take, after_give,
  Tally, tally, System, Step, take_call, take_resume, give_call, give_resume, abort_call,
  take_spurious, give_spurious,
}
use reiser_rt_core.Semaphore.Pending.{
  Inv, take_wake-Inv, give_wake-Inv, without_taker, without_giver, resume_taker, resume_giver,
}
use reiser_rt_core.Semaphore.Tallies.{
  Exchanged, update-Exchanged, after_notice, after_notices, Delivers-tally,
}
use reiser_rt_core.Semaphore.Discipline.{Discipline, takes_return}
use reiser_rt_core.Semaphore.Permits.{Permits}
use reiser_rt_core.Semaphore.Steps.{SystemInv, from_segment, taker_counts, giver_counts, few}

-- While a take sleeps, there are as many takes on their way back as the count allows; while a give
-- sleeps, as many gives as there is room for.
pub record Live (s : Semaphore) (t : Tally) : Type 0 where
  pub takers : 0 < t.take_asleep → s.available_count ≤ t.take_back
  pub givers : 0 < t.give_asleep → s.max_available_count ≤ s.available_count + t.give_back

module _ {W : Type 0} (op : Operation W) (w : W) (s : Semaphore) (t u : Tally) (v : Inv s t) where
  take_with-Live :
      (0 < s.available_count → (op w).0 ≡ returns tt)
      → (0 < t.take_asleep → s.available_count ≤ t.take_back + 1)
      → (0 < t.give_asleep → s.max_available_count ≤ s.available_count + t.give_back)
      → let g = take_with op s w in
        Exchanged outside (after_take op g.ending) t u
        → Live g.semaphore (after_notices g.notices u)
  unfolding take_with take_turn take_notify after_notices after_notice
  take_with-Live r takers givers e = record {
    takers = λ a. ground arith;
    givers = λ a. ground arith;
  }

  give_with-Live :
      (s.available_count < s.max_available_count → (op w).0 ≡ returns tt)
      → (0 < t.take_asleep → s.available_count ≤ t.take_back)
      → (0 < t.give_asleep → s.max_available_count ≤ s.available_count + t.give_back + 1)
      → let g = give_with op s w in
        Exchanged outside (after_give op g.ending) t u
        → Live g.semaphore (after_notices g.notices u)
  unfolding give_with give_turn after_notices after_notice
  give_with-Live r takers givers e = record {
    takers = λ a. ground arith;
    givers = λ a. ground arith;
  }

abort-Live :
    (s : Semaphore) (t : Tally)
    → Inv s t
    → Live s t
    → Live (abort s).0 (after_notices (abort s).1 t)
unfolding abort after_notices after_notice
abort-Live s t v h = record { takers = λ a. ground arith; givers = λ a. ground arith }

abbrev pub SystemLive : {W : Type 0} → ℕ → System W → Type 0
SystemLive n s = Live s.semaphore (tally n s.pc)

-- A wait that returns without a notice.
module _ {W : Type 0} {op : Operation W} {s : Semaphore} {t u : Tally} (h : Live s t) where
  spurious-Live : Exchanged (take_waiting op) (take_woken op) t u → Live s u
  spurious-Live e = record {
    takers = λ a. omega (arith, h.takers (omega (arith, e.take_asleep)), e.take_back);
    givers = λ a. omega (arith, h.givers (omega (arith, e.give_asleep)), e.give_back);
  }

  spurious_give-Live : Exchanged (give_waiting op) (give_woken op) t u → Live s u
  spurious_give-Live e = record {
    takers = λ a. omega (arith, h.takers (omega (arith, e.take_asleep)), e.take_back);
    givers = λ a. omega (arith, h.givers (omega (arith, e.give_asleep)), e.give_back);
  }

-- Threads that keep the discipline `d`.
module _ {W : Type 0} {Takes Gives : Operation W → Type 0} {room : ℕ} {P : ℕ → W → Type 0}
    (d : Discipline Takes Gives room P) where
  -- A step of such threads loses no wake-up.
  pub Step-Live :
      {n : ℕ} {s t : System W}
      → n < 2 ^ 16
      → Step Takes Gives n s t
      → ((j : ℕ) → Permits Takes Gives (s.pc j))
      → s.semaphore.max_available_count ≡ room
      → P s.semaphore.available_count s.world
      → SystemInv n s
      → SystemLive n s
      → SystemLive n t
  unfolding take_wake give_wake
  Step-Live {n} {s} small (take_call i op lt e ok r) all m p v h = from_segment Live r (
      take_with-Live op s.world s.semaphore (tally n s.pc) _ v
        (takes_return d op s.world s.semaphore ok p) (λ a. omega (arith, h.takers a)) h.givers
        (update-Exchanged n i s.pc _ _ lt e))
  Step-Live {n} {s} small (take_resume i op lt e r) all m p v h =
      let back = taker_counts n s.pc i op lt e in
      from_segment Live r (
        take_with-Live op s.world (take_wake s.semaphore) (without_taker (tally n s.pc)) _
          (take_wake-Inv s.semaphore (tally n s.pc) v back (few small s.pc))
          (takes_return d op s.world s.semaphore (subst (Permits Takes Gives) e (all i)) p)
          (λ a. omega (arith, h.takers a, back)) h.givers
          (resume_taker back (update-Exchanged n i s.pc _ _ lt e)))
  Step-Live {n} {s} small (give_call i op lt e ok r) all m p v h = from_segment Live r (
      give_with-Live op s.world s.semaphore (tally n s.pc) _ v
        (λ l. d.give_returns op _ s.world ok (rw (← m) l) p) h.takers
        (λ a. omega (arith, h.givers a)) (update-Exchanged n i s.pc _ _ lt e))
  Step-Live {n} {s} small (give_resume i op lt e r) all m p v h =
      let back = giver_counts n s.pc i op lt e in
      from_segment Live r (
        give_with-Live op s.world (give_wake s.semaphore) (without_giver (tally n s.pc)) _
          (give_wake-Inv s.semaphore (tally n s.pc) v back (few small s.pc))
          (λ l. d.give_returns op _ s.world (subst (Permits Takes Gives) e (all i)) (rw (← m) l) p)
          h.takers (λ a. omega (arith, h.givers a, back))
          (resume_giver back (update-Exchanged n i s.pc _ _ lt e)))
  Step-Live {n} {s} {t} small (abort_call dl es ew) all m p v h =
      rw (es, Delivers-tally n (abort s.semaphore).1 s.pc t.pc dl)
        (abort-Live s.semaphore (tally n s.pc) v h)
  Step-Live {n} {s} small (take_spurious i op lt e et) all m p v h =
      rw et (spurious-Live h (update-Exchanged n i s.pc _ (take_woken op) lt e))
  Step-Live {n} {s} small (give_spurious i op lt e et) all m p v h =
      rw et (spurious_give-Live h (update-Exchanged n i s.pc _ (give_woken op) lt e))

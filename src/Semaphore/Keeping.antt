-- ===== src/Semaphore/Keeping.antt =====
-- What threads that keep a discipline leave true of the semaphore and of the client's state.
use reiser_rt_core.Prelude.{subst, ℕ, ◌^◌, ◌<◌, ◌≡◌, ◌∙◌, arith}
use reiser_rt_core.Semaphore.{Semaphore, Segment, take_wake, give_wake, abort}
use reiser_rt_core.Semaphore.Threads.{
  Operation, Pc, Ran, ran, System, Step, take_call, take_resume, give_call, give_resume, abort_call,
  take_spurious, give_spurious, Reach, here, next,
}
use reiser_rt_core.Semaphore.Discipline.{
  Discipline, take_with-max, give_with-max, take_with-keeps, give_with-keeps,
}
use reiser_rt_core.Semaphore.Permits.{Permits, Step-Permits}
use reiser_rt_core.Semaphore.Steps.{SystemInv, Step-Inv}
use reiser_rt_core.Semaphore.Wakeups.{SystemLive, Step-Live}

-- The client's state fits the count, in a semaphore whose maximum is `room`.
pub record Kept {W : Type 0} (room : ℕ) (P : ℕ → W → Type 0) (s : Semaphore) (w : W) : Type 0 where
  pub maximum : s.max_available_count ≡ room
  pub related : P s.available_count w

Ran-Kept :
    {W : Type 0} {n room i : ℕ} {P : ℕ → W → Type 0} {p : Pc W} {g : Segment W} {s t : System W}
    → Ran n s i p g t
    → Kept room P g.semaphore g.world
    → Kept room P t.semaphore t.world
Ran-Kept (ran d es ew) k = rw (es, ew) k

abort-counts :
    (s : Semaphore)
    → ((abort s).0.available_count ≡ s.available_count)
      × ((abort s).0.max_available_count ≡ s.max_available_count)
unfolding abort
abort-counts s = ground arith

module _ {W : Type 0} {Takes Gives : Operation W → Type 0} {room : ℕ} {P : ℕ → W → Type 0}
    (d : Discipline Takes Gives room P) where
  Step-Kept :
      {n : ℕ} {s t : System W}
      → Step Takes Gives n s t
      → ((j : ℕ) → Permits Takes Gives (s.pc j))
      → SystemInv n s
      → Kept room P s.semaphore s.world
      → Kept room P t.semaphore t.world
  unfolding take_wake give_wake
  Step-Kept {n} {s} (take_call i op lt e ok r) all v k = Ran-Kept r (record {
    maximum = take_with-max op s.world s.semaphore ∙ k.maximum;
    related = take_with-keeps d op s.world s.semaphore ok k.related;
  })
  Step-Kept {n} {s} (take_resume i op lt e r) all v k = Ran-Kept r (record {
    maximum = take_with-max op s.world (take_wake s.semaphore) ∙ k.maximum;
    related =
        take_with-keeps d op s.world (take_wake s.semaphore) (subst (Permits Takes Gives) e (all i))
          k.related;
  })
  Step-Kept {n} {s} (give_call i op lt e ok r) all v k = Ran-Kept r (record {
    maximum = give_with-max op s.world s.semaphore ∙ k.maximum;
    related = give_with-keeps d op s.world s.semaphore ok v.bounded k.maximum k.related;
  })
  Step-Kept {n} {s} (give_resume i op lt e r) all v k = Ran-Kept r (record {
    maximum = give_with-max op s.world (give_wake s.semaphore) ∙ k.maximum;
    related =
        give_with-keeps d op s.world (give_wake s.semaphore) (subst (Permits Takes Gives) e (all i))
          (record { available = v.bounded.available; range = v.bounded.range }) k.maximum k.related;
  })
  Step-Kept {n} {s} {t} (abort_call dl es ew) all v k =
      rw (es, ew)
        (record {
          maximum = (abort-counts s.semaphore).1 ∙ k.maximum;
          related = rw ((abort-counts s.semaphore).0) k.related;
        })
  Step-Kept (take_spurious i op lt e et) all v k = rw et k
  Step-Kept (give_spurious i op lt e et) all v k = rw et k

-- What the threads have done so far leaves every wake-up on its way, and the client's state fit.
pub record Sound {W : Type 0} (Takes Gives : Operation W → Type 0) (room : ℕ) (P : ℕ → W → Type 0)
    (n : ℕ) (s : System W) : Type 0 where
  pub inv : SystemInv n s
  pub live : SystemLive n s
  pub permitted : (j : ℕ) → Permits Takes Gives (s.pc j)
  pub kept : Kept room P s.semaphore s.world

-- Fewer than 2 ^ 16 threads that keep a discipline leave a sound system sound.
pub Reach-Sound :
    {W : Type 0} {Takes Gives : Operation W → Type 0} {room n : ℕ} {P : ℕ → W → Type 0}
    {s t : System W}
    → Discipline Takes Gives room P
    → n < 2 ^ 16
    → Sound Takes Gives room P n s
    → Reach Takes Gives n s t
    → Sound Takes Gives room P n t
Reach-Sound d small start here = start
Reach-Sound d small start (next r st) =
    let before = Reach-Sound d small start r in
    record {
      inv = Step-Inv small st before.inv;
      live =
          Step-Live d small st before.permitted before.kept.maximum before.kept.related before.inv
            before.live;
      permitted = Step-Permits _ _ st before.permitted;
      kept = Step-Kept d st before.permitted before.inv before.kept;
    }

-- ===== src/Semaphore/Threads.antt =====
-- Threads that share one semaphore, in any interleaving. A step runs one thread from where it gets
-- the mutex to where it gives the mutex up.
use reiser_rt_core.Prelude.{ℕ, ◌<◌, ◌≡◌, List, [], ◌∷◌}
use reiser_rt_core.Prelude.Families.{update, total}
use reiser_rt_core.Outcome.{Outcome}
use reiser_rt_core.Semaphore.{
  Semaphore, construct, Notice, signal_take, signal_give, broadcast_take, broadcast_give, Ending,
  ends, blocks, Segment, take_with, take_wake, give_with, give_wake, abort,
}

-- A client's function object: it works on the state that the functions share.
abbrev pub Operation : Type 0 → Type 0
Operation W = W → Outcome (Unit {0}) × W

-- Where a thread stands: outside every call, asleep on a condition variable, or woken and about to
-- get the mutex back.
pub data Pc (W : Type 0) : Type 0 where
  outside : Pc W
  take_waiting take_woken : Operation W → Pc W
  give_waiting give_woken : Operation W → Pc W

module _ {W : Type 0} where
  abbrev pub is_take_waiting : Pc W → ℕ
  is_take_waiting (take_waiting _) = 1
  is_take_waiting _ = 0

  abbrev pub is_take_woken : Pc W → ℕ
  is_take_woken (take_woken _) = 1
  is_take_woken _ = 0

  abbrev pub is_give_waiting : Pc W → ℕ
  is_give_waiting (give_waiting _) = 1
  is_give_waiting _ = 0

  abbrev pub is_give_woken : Pc W → ℕ
  is_give_woken (give_woken _) = 1
  is_give_woken _ = 0

  -- What a notice to all does to each thread.
  abbrev pub wake_taker : Pc W → Pc W
  wake_taker (take_waiting op) = take_woken op
  wake_taker p = p

  abbrev pub wake_giver : Pc W → Pc W
  wake_giver (give_waiting op) = give_woken op
  wake_giver p = p

  abbrev pub after_take : Operation W → Ending → Pc W
  after_take op blocks = take_waiting op
  after_take op (ends _) = outside

  abbrev pub after_give : Operation W → Ending → Pc W
  after_give op blocks = give_waiting op
  after_give op (ends _) = outside

-- How many threads sleep, and how many are on their way back, in either call.
pub record Tally : Type 0 where
  pub take_asleep : ℕ
  pub take_back : ℕ
  pub give_asleep : ℕ
  pub give_back : ℕ

unfoldable pub tally : {W : Type 0} → ℕ → (ℕ → Pc W) → Tally
tally n pc = record {
  take_asleep = total is_take_waiting n pc;
  take_back = total is_take_woken n pc;
  give_asleep = total is_give_waiting n pc;
  give_back = total is_give_woken n pc;
}

-- A signal wakes one thread that sleeps on the condition variable, whichever, if there is one; a
-- broadcast wakes all.
pub data Wakes {W : Type 0} (n : ℕ) (pc : ℕ → Pc W) : Notice → (ℕ → Pc W) → Type 0 where
  one_taker :
      (j : ℕ) (op : Operation W)
      → j < n
      → pc j ≡ take_waiting op
      → Wakes n pc signal_take (update pc j (take_woken op))
  no_taker : (tally n pc).take_asleep ≡ 0 → Wakes n pc signal_take pc
  one_giver :
      (j : ℕ) (op : Operation W)
      → j < n
      → pc j ≡ give_waiting op
      → Wakes n pc signal_give (update pc j (give_woken op))
  no_giver : (tally n pc).give_asleep ≡ 0 → Wakes n pc signal_give pc
  all_takers : Wakes n pc broadcast_take (λ j. wake_taker (pc j))
  all_givers : Wakes n pc broadcast_give (λ j. wake_giver (pc j))

-- The notices are delivered in the order in which they are sent.
abbrev pub Delivers : {W : Type 0} → ℕ → (ℕ → Pc W) → List Notice → (ℕ → Pc W) → Type 0
Delivers n pc [] r = r ≡ pc
Delivers {W} n pc (x ∷ xs) r = (q : ℕ → Pc W) × Wakes n pc x q × Delivers n q xs r

pub record System (W : Type 0) : Type 0 where
  pub semaphore : Semaphore
  pub world : W
  pub pc : ℕ → Pc W

-- The system after thread `i` has run a segment that leaves it at `p`, its notices delivered.
pub data Ran {W : Type 0} (n : ℕ) (s : System W) (i : ℕ) (p : Pc W) (g : Segment W) (t : System W)
    : Type 0 where
  ran :
      Delivers n (update s.pc i p) g.notices t.pc
      → t.semaphore ≡ g.semaphore
      → t.world ≡ g.world
      → Ran n s i p g t

-- `n` threads; `Takes` and `Gives` say which function objects the clients pass to the two calls.
pub data Step {W : Type 0} (Takes Gives : Operation W → Type 0) (n : ℕ) (s t : System W)
    : Type 0 where
  take_call :
      (i : ℕ) (op : Operation W)
      → i < n
      → s.pc i ≡ outside
      → Takes op
      → (let g = take_with op s.semaphore s.world in Ran n s i (after_take op g.ending) g t)
      → Step Takes Gives n s t
  take_resume :
      (i : ℕ) (op : Operation W)
      → i < n
      → s.pc i ≡ take_woken op
      → (let g = take_with op (take_wake s.semaphore) s.world in
          Ran n s i (after_take op g.ending) g t)
      → Step Takes Gives n s t
  give_call :
      (i : ℕ) (op : Operation W)
      → i < n
      → s.pc i ≡ outside
      → Gives op
      → (let g = give_with op s.semaphore s.world in Ran n s i (after_give op g.ending) g t)
      → Step Takes Gives n s t
  give_resume :
      (i : ℕ) (op : Operation W)
      → i < n
      → s.pc i ≡ give_woken op
      → (let g = give_with op (give_wake s.semaphore) s.world in
          Ran n s i (after_give op g.ending) g t)
      → Step Takes Gives n s t
  abort_call :
      Delivers n s.pc (abort s.semaphore).1 t.pc
      → t.semaphore ≡ (abort s.semaphore).0
      → t.world ≡ s.world
      → Step Takes Gives n s t
  -- POSIX lets a wait return with no notice.
  take_spurious :
      (i : ℕ) (op : Operation W)
      → i < n
      → s.pc i ≡ take_waiting op
      → t ≡ record s { pc = update s.pc i (take_woken op) }
      → Step Takes Gives n s t
  give_spurious :
      (i : ℕ) (op : Operation W)
      → i < n
      → s.pc i ≡ give_waiting op
      → t ≡ record s { pc = update s.pc i (give_woken op) }
      → Step Takes Gives n s t

abbrev pub init : {W : Type 0} → ℕ → ℕ → W → System W
init initial the_max w = record {
  semaphore = construct initial the_max;
  world = w;
  pc = λ _. outside;
}

pub data Reach {W : Type 0} (Takes Gives : Operation W → Type 0) (n : ℕ) (s : System W)
    : System W → Type 0 where
  here : Reach Takes Gives n s s
  next :
      {t u : System W} → Reach Takes Gives n s t → Step Takes Gives n t u → Reach Takes Gives n s u

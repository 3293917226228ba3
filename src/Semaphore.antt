-- ===== src/Semaphore.antt =====
-- src/Semaphore.cpp, `Semaphore::Imple`, in its POSIX threads form. The mutex is held from the
-- start of a call to its end but for the waits on the two condition variables, so what runs between
-- two waits is one function from state to state.
pub mod Counts
pub mod Threads
pub mod Tallies
pub mod Pending
pub mod Steps
pub mod Permits
pub mod Discipline
pub mod Wakeups
pub mod Keeping
pub mod Liveness
mod Tests
use reiser_rt_core.Prelude.{
  ℕ, ◌+◌, ◌-◌, ◌^◌, Bool, true, false, List, [], ◌∷◌, ◌++◌, ltb, ◌==◌, if◌then◌else◌,
}
use reiser_rt_core.Prelude.Words.{u16, u32, max32}
use reiser_rt_core.Outcome.{
  Exception, semaphore_aborted, semaphore_overflow, Outcome, returns, throws, fault,
}

pub record Semaphore : Type 0 where
  pub available_count : ℕ
  pub max_available_count : ℕ
  pub take_pending_count : ℕ
  pub give_pending_count : ℕ
  pub abort_flag : Bool

-- `doctorMaxAvailableCount`. The last return narrows a `size_t` to `uint32_t`.
unfoldable pub doctor_max_available_count : ℕ → ℕ → ℕ
doctor_max_available_count the_max clamped_initial =
    if the_max == 0
    then max32
    else if ltb the_max clamped_initial
    then clamped_initial
    else u32 the_max

clamp_initial : ℕ → ℕ
clamp_initial initial = if ltb max32 initial then max32 else initial

unfoldable pub construct : ℕ → ℕ → Semaphore
unfolding clamp_initial
construct initial the_max = record {
  available_count = clamp_initial initial;
  max_available_count = doctor_max_available_count the_max (clamp_initial initial);
  take_pending_count = 0;
  give_pending_count = 0;
  abort_flag = false;
}

-- What is asked of a condition variable.
pub data Notice : Type 0 where
  signal_take signal_give broadcast_take broadcast_give : Notice

-- Where one round of a wait loop leads: out of the loop, to the condition variable, or out of the
-- call.
pub data Turn : Type 0 where
  passes waits : Turn
  raises : Exception → Turn

-- One round of the loop of `_take`, up to the wait.
unfoldable pub take_turn : Semaphore → Turn × Semaphore
take_turn s =
    if s.abort_flag
    then (raises semaphore_aborted, s)
    else if ltb 0 s.available_count
    then (passes, record s { available_count = s.available_count - 1 })
    else (waits, record s { take_pending_count = u16 (s.take_pending_count + 1) })

-- The end of a round, behind the wait.
unfoldable pub take_wake : Semaphore → Semaphore
take_wake s = record s { take_pending_count = u16 (s.take_pending_count + 2 ^ 16 - 1) }

-- `_takeNotify`
unfoldable pub take_notify : Semaphore → List Notice
take_notify s = if s.give_pending_count == 0 then [] else signal_give ∷ []

-- One round of the loop of `_giveWait`, up to the wait, and the end of a round.
unfoldable pub give_turn : Semaphore → Turn × Semaphore
give_turn s =
    if s.abort_flag
    then (raises semaphore_aborted, s)
    else if max32 == s.available_count
    then (raises semaphore_overflow, s)
    else if ltb s.available_count s.max_available_count
    then (passes, s)
    else (waits, record s { give_pending_count = u16 (s.give_pending_count + 1) })

unfoldable pub give_wake : Semaphore → Semaphore
give_wake s = record s { give_pending_count = u16 (s.give_pending_count + 2 ^ 16 - 1) }

-- A call either ends, or blocks on its condition variable.
pub data Ending : Type 0 where
  ends : Outcome (Unit {0}) → Ending
  blocks : Ending

-- What is left when a thread gives the mutex up: how the call stands, the semaphore, the state that
-- the functions of the client share, and the notices sent.
pub record Segment (W : Type 0) : Type 0 where
  pub ending : Ending
  pub semaphore : Semaphore
  pub world : W
  pub notices : List Notice

module _ {W : Type 0} where
  -- The call is over, or blocks, with no notice sent.
  abbrev quiet : Ending → Semaphore → W → Segment W
  quiet e s w = record { ending = e; semaphore = s; world = w; notices = [] }

  -- `take()` behind `_take`.
  take_rest : Turn → Semaphore → W → Segment W
  take_rest passes s w = record {
    ending = ends (returns tt);
    semaphore = s;
    world = w;
    notices = take_notify s;
  }
  take_rest waits s w = quiet blocks s w
  take_rest (raises e) s w = quiet (ends (throws e)) s w

  -- `take()`, from its start or from a wake-up to the next wait or the end.
  unfoldable pub take : Semaphore → W → Segment W
  unfolding take_rest
  take s w = take_rest (take_turn s).0 (take_turn s).1 w

  -- The end of `take( operation )`: `AvailableCountManager` puts the count back if `operation`
  -- threw.
  take_finish : Outcome (Unit {0}) → Semaphore → W → Segment W
  take_finish (returns _) s w = record {
    ending = ends (returns tt);
    semaphore = s;
    world = w;
    notices = take_notify s;
  }
  take_finish (throws e) s w =
      quiet (ends (throws e)) (record s { available_count = u32 (s.available_count + 1) }) w
  take_finish fault s w = quiet (ends fault) s w

  -- `take( operation )` behind `_take`.
  take_with_rest : (W → Outcome (Unit {0}) × W) → Turn → Semaphore → W → Segment W
  take_with_rest operation passes s w = take_finish (operation w).0 s (operation w).1
  take_with_rest operation waits s w = quiet blocks s w
  take_with_rest operation (raises e) s w = quiet (ends (throws e)) s w

  -- `take( operation )`.
  unfoldable pub take_with : (W → Outcome (Unit {0}) × W) → Semaphore → W → Segment W
  unfolding take_with_rest take_finish
  take_with operation s w = take_with_rest operation (take_turn s).0 (take_turn s).1 w

  -- `_give`
  give_finish : Semaphore → W → Segment W
  give_finish s w = if s.abort_flag then quiet (ends (throws semaphore_aborted)) s w else record {
    ending = ends (returns tt);
    semaphore = record s { available_count = u32 (s.available_count + 1) };
    world = w;
    notices = signal_take ∷ [];
  }

  -- `give()` behind `_giveWait`.
  give_rest : Turn → Semaphore → W → Segment W
  give_rest passes s w = give_finish s w
  give_rest waits s w = quiet blocks s w
  give_rest (raises e) s w = quiet (ends (throws e)) s w

  -- `give()`.
  unfoldable pub give : Semaphore → W → Segment W
  unfolding give_rest give_finish
  give s w = give_rest (give_turn s).0 (give_turn s).1 w

  -- The end of `give( operation )`: a throw leaves the count alone.
  give_with_finish : Outcome (Unit {0}) → Semaphore → W → Segment W
  give_with_finish (returns _) s w = give_finish s w
  give_with_finish (throws e) s w = quiet (ends (throws e)) s w
  give_with_finish fault s w = quiet (ends fault) s w

  -- `give( operation )` behind `_giveWait`.
  give_with_rest : (W → Outcome (Unit {0}) × W) → Turn → Semaphore → W → Segment W
  give_with_rest operation passes s w = give_with_finish (operation w).0 s (operation w).1
  give_with_rest operation waits s w = quiet blocks s w
  give_with_rest operation (raises e) s w = quiet (ends (throws e)) s w

  -- `give( operation )`.
  unfoldable pub give_with : (W → Outcome (Unit {0}) × W) → Semaphore → W → Segment W
  unfolding give_with_rest give_with_finish give_finish
  give_with operation s w = give_with_rest operation (give_turn s).0 (give_turn s).1 w

-- `abort`
unfoldable pub abort : Semaphore → Semaphore × List Notice
abort s = if s.abort_flag then (s, []) else (
  record s { abort_flag = true },
  (if s.give_pending_count == 0 then [] else broadcast_give ∷ [])
      ++ (if s.take_pending_count == 0 then [] else broadcast_take ∷ []),
)

-- `getAvailableCount`
abbrev pub get_available_count : Semaphore → ℕ
get_available_count s = s.available_count

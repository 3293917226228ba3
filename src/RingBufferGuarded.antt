-- ===== src/RingBufferGuarded.antt =====
-- src/RingBufferGuarded.hpp: a ring behind a semaphore, and the states that its calls are allowed
-- in.
pub mod Contents
pub mod Aborting
pub mod Calls
pub mod Ledger
pub mod Fifo
pub mod Threads
pub mod Kept
pub mod Priming
pub mod Flushing
mod Tests
mod ThreadTests
use reiser_rt_core.Prelude.{
  ℕ, zero, suc, ◌+◌, Bool, true, false, Option, none, some, List, [], ◌∷◌, if◌then◌else◌,
}
use reiser_rt_core.Outcome.{Outcome, returns, throws, fault, ring_buffer_state_error}
use reiser_rt_core.RingBufferSimple as Ring
use reiser_rt_core.RingBufferSimple.{RingBufferSimple}
use reiser_rt_core.Semaphore
use reiser_rt_core.Semaphore.{
  Semaphore, Notice, Ending, ends, blocks, Segment, take_with, take_wake, give_with, give_wake,
}

pub data State : Type 0 where
  needs_priming ready terminal : State

pub record RingBufferGuarded (A : Type 0) : Type 0 where
  pub ring : RingBufferSimple A
  pub semaphore : Semaphore
  pub state : State

-- A call that may wait: it is over, or its thread sleeps.
pub data Progress (B : Type 0) : Type 0 where
  done : Outcome B → Progress B
  blocked : Progress B

pub record Result (A B : Type 0) : Type 0 where
  pub progress : Progress B
  pub buffer : RingBufferGuarded A
  pub notices : List Notice

finished : Ending → Progress (Unit {0})
finished blocks = blocked
finished (ends o) = done o

module _ {A : Type 0} where
  unfoldable pub construct : (ℕ → A) → ℕ → Bool → RingBufferGuarded A
  construct garbage requested will_prime = record {
    ring = Ring.construct garbage requested;
    semaphore = Semaphore.construct (if will_prime then requested else 0) requested;
    state = if will_prime then needs_priming else ready;
  }

  unfoldable pub abort : RingBufferGuarded A → RingBufferGuarded A × List Notice
  abort b =
      let (s, notices) = Semaphore.abort b.semaphore in
      (record b { state = terminal; semaphore = s }, notices)

  -- What `getFunk` leaves of `Base::get`: `retVal` is set if it returned.
  got :
      Outcome A × RingBufferSimple A
      → Option A
      → Outcome (Unit {0}) × (RingBufferSimple A × Option A)
  got (returns v, r) slot = (returns tt, (r, some v))
  got (throws e, r) slot = (throws e, (r, slot))
  got (fault, r) slot = (fault, (r, slot))

  -- The lambda `getFunk` of `get`, with `retVal` beside the ring that it works on.
  pub get_funk :
      RingBufferSimple A × Option A → Outcome (Unit {0}) × (RingBufferSimple A × Option A)
  unfolding got
  get_funk (r, slot) = got (Ring.get r) slot

  -- The lambda `putFunk` of `put`.
  pub put_funk : A → RingBufferSimple A → Outcome (Unit {0}) × RingBufferSimple A
  put_funk val r = Ring.put r val

  -- `return retVal`
  fetched : Ending → Option A → Progress A
  fetched blocks slot = blocked
  fetched (ends (throws e)) slot = done (throws e)
  fetched (ends fault) slot = done fault
  fetched (ends (returns _)) none = done fault
  fetched (ends (returns _)) (some v) = done (returns v)

  -- `get` from where it has the semaphore's mutex, at the semaphore `s`.
  get_locked : Semaphore → RingBufferGuarded A → Result A A
  unfolding fetched get_funk
  get_locked s b =
      let g = take_with get_funk s (b.ring, none) in
      record {
        progress = fetched g.ending g.world.1;
        buffer = record b { ring = g.world.0; semaphore = g.semaphore };
        notices = g.notices;
      }

  put_locked : Semaphore → RingBufferGuarded A → A → Result A (Unit {0})
  unfolding finished put_funk
  put_locked s b val =
      let g = give_with (put_funk val) s b.ring in
      record {
        progress = finished g.ending;
        buffer = record b { ring = g.world; semaphore = g.semaphore };
        notices = g.notices;
      }

  -- A result that leaves everything as it was.
  abbrev unchanged : {B : Type 0} → Outcome B → RingBufferGuarded A → Result A B
  unchanged o b = record { progress = done o; buffer = b; notices = [] }

  get_in : State → RingBufferGuarded A → Result A A
  get_in ready b = get_locked b.semaphore b
  get_in _ b = unchanged (throws ring_buffer_state_error) b

  -- `get`, and its continuation after a wake-up.
  unfoldable pub get : RingBufferGuarded A → Result A A
  unfolding get_in get_locked
  get b = get_in b.state b

  unfoldable pub get_resume : RingBufferGuarded A → Result A A
  unfolding get_locked
  get_resume b = get_locked (take_wake b.semaphore) b

  put_in : State → RingBufferGuarded A → A → Result A (Unit {0})
  put_in terminal b val = unchanged (returns tt) b
  put_in ready b val = put_locked b.semaphore b val
  put_in needs_priming b val = unchanged (throws ring_buffer_state_error) b

  -- `put`, and its continuation after a wake-up.
  unfoldable pub put : RingBufferGuarded A → A → Result A (Unit {0})
  unfolding put_in put_locked
  put b val = put_in b.state b val

  unfoldable pub put_resume : RingBufferGuarded A → A → Result A (Unit {0})
  unfolding put_locked
  put_resume b val = put_locked (give_wake b.semaphore) b val

  -- The body of the loop of `prime`.
  prime_round : Outcome A → RingBufferSimple A → Outcome (Unit {0}) × RingBufferSimple A
  prime_round (returns v) r = Ring.put r v
  prime_round (throws e) r = (throws e, r)
  prime_round fault r = (fault, r)

  -- The loop, with the rounds left. `seen i` says whether the `i`-th test of the state finds it
  -- `Terminal`, which another thread's `abort` makes it.
  prime_loop :
      (ℕ → Outcome A)
      → (ℕ → Bool)
      → ℕ
      → ℕ
      → RingBufferSimple A
      → Outcome (Unit {0}) × RingBufferSimple A
  prime_loop operation seen zero i r = (returns tt, r)
  prime_loop operation seen (suc rounds) i r = elim (seen i) [
    | true ↦ (returns tt, r)
    | false ↦
        let (o, r') = prime_round (operation i) r in
        elim o [
          | returns _ ↦ prime_loop operation seen rounds (i + 1) r'
          | throws e ↦ (throws e, r')
          | fault ↦ (fault, r')
        ]
  ]

  -- The exchange of the state behind the loop.
  prime_finish :
      Outcome (Unit {0}) × RingBufferSimple A
      → Bool
      → RingBufferGuarded A
      → Outcome (Unit {0}) × RingBufferGuarded A
  prime_finish (returns _, r) terminated b =
      (returns tt, record b { ring = r; state = if terminated then terminal else ready })
  prime_finish (throws e, r) terminated b = (throws e, record b { ring = r })
  prime_finish (fault, r) terminated b = (fault, record b { ring = r })

  prime_in :
      State
      → (ℕ → Outcome A)
      → (ℕ → Bool)
      → RingBufferGuarded A
      → Outcome (Unit {0}) × RingBufferGuarded A
  prime_in needs_priming operation seen b =
      let count = Semaphore.get_available_count b.semaphore in
      prime_finish (prime_loop operation seen count 0 b.ring) (seen count) b
  prime_in _ operation seen b = (throws ring_buffer_state_error, b)

  pub prime :
      (ℕ → Outcome A) → (ℕ → Bool) → RingBufferGuarded A → Outcome (Unit {0}) × RingBufferGuarded A
  unfolding prime_in prime_finish
  prime operation seen b = prime_in b.state operation seen b

module _ {A V : Type 0} (operation : A → V → Outcome (Unit {0}) × V) where
  -- The body of the loop of `flush`, on what `Base::get` gave.
  flush_round : Outcome A × RingBufferSimple A → V → Outcome (Unit {0}) × RingBufferSimple A × V
  flush_round (returns x, r) v = let (o, v') = operation x v in (o, r, v')
  flush_round (throws e, r) v = (throws e, r, v)
  flush_round (fault, r) v = (fault, r, v)

  flush_loop : ℕ → RingBufferSimple A → V → Outcome (Unit {0}) × RingBufferSimple A × V
  flush_loop zero r v = (returns tt, r, v)
  flush_loop (suc rounds) r v =
      let (o, r', v') = flush_round (Ring.get r) v in
      elim o [
        | returns _ ↦ flush_loop rounds r' v'
        | throws e ↦ (throws e, r', v')
        | fault ↦ (fault, r', v')
      ]

  flush_in : State → RingBufferGuarded A → V → Outcome (Unit {0}) × RingBufferGuarded A × V
  flush_in terminal b v =
      let (o, r, v') = flush_loop (Semaphore.get_available_count b.semaphore) b.ring v in
      (o, record b { ring = r }, v')
  flush_in _ b v = (throws ring_buffer_state_error, b, v)

  pub flush : RingBufferGuarded A → V → Outcome (Unit {0}) × RingBufferGuarded A × V
  unfolding flush_in
  flush b v = flush_in b.state b v

-- ===== src/RingBufferGuarded/Aborting.antt =====
-- What the threads see of a guarded ring of src/RingBufferGuarded.hpp once it is aborted.
use mathlib.Core.List.{map}
use reiser_rt_core.Prelude.{true, ◌≡◌, refl, List, [], ◌∷◌, ◌∙◌, arith}
use reiser_rt_core.Outcome.{returns, throws, fault, semaphore_aborted, ring_buffer_state_error}
use reiser_rt_core.Semaphore.{
  Notice, take_with, take_turn, take_wake, give_with, give_turn, give_wake,
}
use reiser_rt_core.Semaphore as Semaphore
use reiser_rt_core.RingBufferGuarded.{
  RingBufferGuarded, terminal, Progress, done, blocked, abort, get, get_resume, put, put_resume,
}
use reiser_rt_core.RingBufferGuarded.Contents.{Represents}

-- What a thread does at the ring: it calls, or it wakes from a wait inside a call.
pub data LateCall (A : Type 0) : Type 0 where
  gets get_wakes : LateCall A
  puts put_wakes : A → LateCall A

-- How the call stands, without the value that a `get` returns.
abbrev pub stands : {A : Type 0} → Progress A → Progress (Unit {0})
stands (done (returns v)) = done (returns tt)
stands (done (throws e)) = done (throws e)
stands (done fault) = done fault
stands blocked = blocked

module _ {A : Type 0} where
  abbrev pub turn : LateCall A → RingBufferGuarded A → Progress (Unit {0}) × RingBufferGuarded A
  turn gets b = let g = get b in (stands g.progress, g.buffer)
  turn get_wakes b = let g = get_resume b in (stands g.progress, g.buffer)
  turn (puts v) b = let g = put b v in (g.progress, g.buffer)
  turn (put_wakes v) b = let g = put_resume b v in (g.progress, g.buffer)

  -- The turns of threads one after the other, in any order of the threads.
  abbrev pub turns :
      List (LateCall A) → RingBufferGuarded A → List (Progress (Unit {0})) × RingBufferGuarded A
  turns [] b = ([], b)
  turns (t ∷ ts) b = let (p, c) = turn t b in let (ps, d) = turns ts c in (p ∷ ps, d)

  -- What a thread is told on its turn: a new get throws, a new put gets out of the way, and a
  -- thread that has waited learns of the abort.
  abbrev pub told : LateCall A → Progress (Unit {0})
  told gets = done (throws ring_buffer_state_error)
  told (puts v) = done (returns tt)
  told _ = done (throws semaphore_aborted)

  -- The buffer is aborted and still holds `xs`.
  pub record IsAborted (b : RingBufferGuarded A) (xs : List A) : Type 0 where
    pub state : b.state ≡ terminal
    pub flag : b.semaphore.abort_flag ≡ true
    pub holds : Represents b xs

  -- What an aborted buffer keeps on every turn.
  abbrev Keeps : RingBufferGuarded A → RingBufferGuarded A → Type 0
  Keeps b c =
      (c.ring ≡ b.ring)
      × (c.state ≡ terminal)
      × (c.semaphore.abort_flag ≡ true)
      × (c.semaphore.available_count ≡ b.semaphore.available_count)
      × (c.semaphore.max_available_count ≡ b.semaphore.max_available_count)

  Keeps-IsAborted :
      (b c : RingBufferGuarded A) (xs : List A) → Keeps b c → Represents b xs → IsAborted c xs
  Keeps-IsAborted b c xs (r, s, f, n, m) h = record {
    state = s;
    flag = f;
    holds = record {
      ring = rw r h.ring;
      bounded = omega (arith, h.bounded, n, m);
      count = n ∙ h.count;
    };
  }

  abort-IsAborted :
      (b : RingBufferGuarded A) (xs : List A) → Represents b xs → IsAborted (abort b).0 xs
  unfolding abort Semaphore.abort
  abort-IsAborted b xs h =
      Keeps-IsAborted b (abort b).0 xs (refl, refl, ground arith, ground arith, ground arith) h

  module _ (b : RingBufferGuarded A) (e : b.state ≡ terminal)
      (f : b.semaphore.abort_flag ≡ true) where
    turn-Keeps : (t : LateCall A) → ((turn t b).0 ≡ told t) × Keeps b (turn t b).1
    unfolding get get_resume put put_resume take_with take_turn take_wake give_with give_turn
        give_wake
    turn-Keeps gets =
        (ground arith, (ground arith, ground arith, ground arith, ground arith, ground arith))
    turn-Keeps get_wakes =
        (ground arith, (ground arith, ground arith, ground arith, ground arith, ground arith))
    turn-Keeps (puts v) =
        (ground arith, (ground arith, ground arith, ground arith, ground arith, ground arith))
    turn-Keeps (put_wakes v) =
        (ground arith, (ground arith, ground arith, ground arith, ground arith, ground arith))

  turns-IsAborted :
      (ts : List (LateCall A)) (b : RingBufferGuarded A) (xs : List A)
      → IsAborted b xs
      → ((turns ts b).0 ≡ map told ts) × IsAborted (turns ts b).1 xs
  turns-IsAborted [] b xs h = (refl, h)
  turns-IsAborted (t ∷ ts) b xs h =
      let (p, k) = turn-Keeps b h.state h.flag t in
      let (ps, h') =
        turns-IsAborted ts (turn t b).1 xs (Keeps-IsAborted b (turn t b).1 xs k h.holds) in
      (rw (p, ps) refl, h')

  -- After an abort, whatever the state of the buffer was, and whatever turns threads then take, new
  -- calls of get and put and wake-ups from a wait in them, in any order: each new get throws the
  -- state error, each new put returns and stores nothing, each thread that wakes throws that the
  -- semaphore is aborted, none waits again, and the buffer holds the elements that it held before
  -- the abort, for flush to hand out.
  pub abort_final :
      (ts : List (LateCall A)) (b : RingBufferGuarded A) (xs : List A)
      → Represents b xs
      → let (ps, c) = turns ts (abort b).0 in
        (ps ≡ map told ts) × (c.state ≡ terminal) × Represents c xs
  abort_final ts b xs h =
      let (p, k) = turns-IsAborted ts (abort b).0 xs (abort-IsAborted b xs h) in
      (p, k.state, k.holds)

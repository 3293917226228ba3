-- ===== src/RingBufferGuarded/Flushing.antt =====
-- `abort` ends the use of a guarded ring, and `flush` then hands out what is left in it.
use mathlib.Core.List.{foldl}
use reiser_rt_core.Prelude.{ℕ, suc, ◌≡◌, refl, true, List, [], ◌∷◌, arith, length}
use reiser_rt_core.Outcome.{Outcome, returns}
use reiser_rt_core.RingBufferSimple as Ring
use reiser_rt_core.RingBufferSimple.{RingBufferSimple}
use reiser_rt_core.RingBufferSimple.Contents as RingContents
use reiser_rt_core.RingBufferSimple.Steps.{get_takes}
use reiser_rt_core.Semaphore as Sem
use reiser_rt_core.RingBufferGuarded.{
  RingBufferGuarded, terminal, abort, flush, flush_loop, flush_round,
}
use reiser_rt_core.RingBufferGuarded.Contents.{Represents}

-- An abort keeps the contents, and makes the buffer terminal and its semaphore aborted.
pub abort-Represents :
    {A : Type 0} (b : RingBufferGuarded A) (xs : List A)
    → Represents b xs
    → let b' = (abort b).0 in
      (b'.state ≡ terminal) × (b'.semaphore.abort_flag ≡ true) × Represents b' xs
unfolding abort Sem.abort
abort-Represents b xs h =
    (refl, ground arith, record { ring = h.ring; bounded = ground arith; count = ground arith })

module _ {A V : Type 0} (step : V → A → V) where
  -- A function of the client that does not throw.
  abbrev pub accepts : A → V → Outcome (Unit {0}) × V
  accepts x v = (returns tt, step v x)

  flush_loop_step :
      (n : ℕ) (r : RingBufferSimple A) (v : V) (x : A)
      → (Ring.get r).0 ≡ returns x
      → flush_loop accepts (suc n) r v ≡ flush_loop accepts n (Ring.get r).1 (step v x)
  unfolding flush_loop flush_round
  flush_loop_step n r v x e = ground arith

  flush_loop_empties :
      (xs : List A) (r : RingBufferSimple A) (v : V)
      → RingContents.Represents r xs
      → let (o, r', v') = flush_loop accepts (length xs) r v in
        (o ≡ returns tt) × RingContents.Represents r' [] × (v' ≡ foldl step v xs)
  flush_loop_empties [] r v h = unfold flush_loop in (refl, h, refl)
  flush_loop_empties (x ∷ xs) r v h =
      let (e, h') = get_takes xs x h in
      rw (flush_loop_step (length xs) r v x e) (flush_loop_empties xs (Ring.get r).1 (step v x) h')

  -- In the terminal state, with a semaphore that counts the elements and a function of the client
  -- that does not throw, flush hands every element that is left to it, oldest first and each once,
  -- and leaves the ring empty.
  pub flush_empties :
      (b : RingBufferGuarded A) (v : V) (xs : List A)
      → b.state ≡ terminal
      → Represents b xs
      → let (o, b', v') = flush accepts b v in
        (o ≡ returns tt) × RingContents.Represents b'.ring [] × (v' ≡ foldl step v xs)
  unfolding flush
  flush_empties b v xs s h = rw (s, h.count) (flush_loop_empties xs b.ring v h.ring)

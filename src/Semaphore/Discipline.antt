-- ===== src/Semaphore/Discipline.antt =====
-- Function objects that keep a property of the client's state and of the count: with such objects,
-- no call throws, the property holds between any two segments, and no wake-up is lost.
use reiser_rt_core.Prelude.{◌⊎◌, inl, inr, subst, ℕ, ◌-◌, suc, ◌<◌, ◌≡◌, arith}
use reiser_rt_core.Outcome.{returns}
use reiser_rt_core.Semaphore.{Semaphore, take_turn, take_with, give_turn, give_with}
use reiser_rt_core.Semaphore.Counts.{IsBounded}
use reiser_rt_core.Semaphore.Threads.{Operation}

-- `P n w` relates the count and the state. A take runs its function with one less than the count
-- that it found, a give runs it below the maximum `room`.
pub record Discipline {W : Type 0} (Takes Gives : Operation W → Type 0) (room : ℕ)
    (P : ℕ → W → Type 0) : Type 0 where
  pub take_returns :
      (op : Operation W) (n : ℕ) (w : W) → Takes op → P (suc n) w → (op w).0 ≡ returns tt
  pub take_keeps : (op : Operation W) (n : ℕ) (w : W) → Takes op → P (suc n) w → P n (op w).1
  pub give_returns :
      (op : Operation W) (n : ℕ) (w : W) → Gives op → n < room → P n w → (op w).0 ≡ returns tt
  pub give_keeps :
      (op : Operation W) (n : ℕ) (w : W) → Gives op → n < room → P n w → P (suc n) (op w).1

module _ {W : Type 0} (op : Operation W) (w : W) (s : Semaphore) where
  -- What a take does to the count and to the client's state, if its function returns.
  take_with-moves :
      (0 < s.available_count → (op w).0 ≡ returns tt)
      → let g = take_with op s w in
        ((g.semaphore.available_count ≡ s.available_count) × (g.world ≡ w))
        ⊎ ((s.available_count ≡ suc g.semaphore.available_count) × (g.world ≡ (op w).1))
  unfolding take_with take_turn
  take_with-moves r = ground arith

  give_with-moves :
      IsBounded s
      → (s.available_count < s.max_available_count → (op w).0 ≡ returns tt)
      → let g = give_with op s w in
        ((g.semaphore.available_count ≡ s.available_count) × (g.world ≡ w))
        ⊎ ((s.available_count < s.max_available_count)
            × (g.semaphore.available_count ≡ suc s.available_count)
            × (g.world ≡ (op w).1))
  unfolding give_with give_turn
  give_with-moves b r = ground arith

  -- Neither call changes the maximum.
  pub take_with-max : (take_with op s w).semaphore.max_available_count ≡ s.max_available_count
  unfolding take_with take_turn
  take_with-max = ground arith

  pub give_with-max : (give_with op s w).semaphore.max_available_count ≡ s.max_available_count
  unfolding give_with give_turn
  give_with-max = ground arith

-- Objects that keep `P` keep it over a whole call.
module _ {W : Type 0} {Takes Gives : Operation W → Type 0} {room : ℕ} {P : ℕ → W → Type 0}
    (d : Discipline Takes Gives room P) (op : Operation W) (w : W) (s : Semaphore) where
  pub takes_return :
      Takes op → P s.available_count w → 0 < s.available_count → (op w).0 ≡ returns tt
  takes_return ok h l =
      d.take_returns op (s.available_count - 1) w ok (subst (λ n. P n w) (predecessor l) h)
    where
      predecessor : {n : ℕ} → 0 < n → n ≡ suc (n - 1)
      predecessor l = omega arith

  pub take_with-keeps :
      Takes op
      → P s.available_count w
      → let g = take_with op s w in P g.semaphore.available_count g.world
  take_with-keeps ok h = elim (take_with-moves op w s (takes_return ok h)) [
    | inl (e, ew) ↦ rw (e, ew) h
    | inr (e, ew) ↦ rw ew (d.take_keeps op _ w ok (subst (λ n. P n w) e h))
  ]

  pub give_with-keeps :
      Gives op
      → IsBounded s
      → s.max_available_count ≡ room
      → P s.available_count w
      → let g = give_with op s w in P g.semaphore.available_count g.world
  give_with-keeps ok b m h =
      elim (give_with-moves op w s b (λ l. d.give_returns op _ w ok (rw (← m) l) h)) [
        | inl (e, ew) ↦ rw (e, ew) h
        | inr (l, e, ew) ↦ rw (e, ew) (d.give_keeps op _ w ok (rw (← m) l) h)
      ]

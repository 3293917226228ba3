-- ===== src/Semaphore/Counts.antt =====
-- The available count: how construction bounds it, and what each call does to it.
use reiser_rt_core.Prelude.{ℕ, ◌+◌, ◌%◌, ◌^◌, ◌≤◌, ◌<◌, ◌≡◌, ◌≢◌, arith}
use reiser_rt_core.Prelude.Words.{max32}
use reiser_rt_core.Outcome.{Outcome, returns, fault}
use reiser_rt_core.Semaphore.{
  Semaphore, doctor_max_available_count, construct, take_turn, give_turn, Ending, ends, take,
  take_with, give, give_with,
}

pub record IsBounded (s : Semaphore) : Type 0 where
  pub available : s.available_count ≤ s.max_available_count
  pub range : s.max_available_count ≤ max32

-- With a maximum that fits 32 bits, the semaphore starts with its count between 0 and its maximum.
pub construct-IsBounded :
    (initial the_max : ℕ) → the_max ≤ max32 → IsBounded (construct initial the_max)
unfolding construct doctor_max_available_count
construct-IsBounded initial the_max h = ground arith

-- A semaphore that starts full.
pub construct_full :
    (n : ℕ)
    → 0 < n
    → n ≤ max32
    → ((construct n n).available_count ≡ n) × ((construct n n).max_available_count ≡ n)
unfolding construct doctor_max_available_count
construct_full n h k = ground arith

-- Beyond 32 bits the maximum is narrowed, and may end below the initial count.
pub construct_narrowed :
    (initial the_max : ℕ)
    → max32 < the_max
    → the_max % 2 ^ 32 < (construct initial the_max).available_count
    → (construct initial the_max).max_available_count < (construct initial the_max).available_count
unfolding construct doctor_max_available_count
construct_narrowed initial the_max h k = ground arith

-- Credits that a call has used up or made.
abbrev pub completed : Ending → ℕ
completed (ends (returns _)) = 1
completed _ = 0

module _ {W : Type 0} (operation : W → Outcome (Unit {0}) × W) (s : Semaphore) (w : W) where
  -- On a semaphore within its bounds, and with an operation that has an outcome, take( operation )
  -- lowers the count by one if it returns, and leaves it as it was if it throws, from within or
  -- from the operation, or blocks.
  pub take_with-count :
      IsBounded s
      → (operation w).0 ≢ fault
      → let g = take_with operation s w in
        g.semaphore.available_count + completed g.ending ≡ s.available_count
  unfolding take_with take_turn
  take_with-count b h = ground arith

  -- On a semaphore within its bounds, give( operation ) raises the count by one if it returns, and
  -- leaves it as it was if it throws, from within or from the operation, or blocks.
  pub give_with-count :
      IsBounded s
      → let g = give_with operation s w in
        g.semaphore.available_count ≡ s.available_count + completed g.ending
  unfolding give_with give_turn
  give_with-count b = ground arith

  pub take_with-IsBounded : IsBounded s → IsBounded (take_with operation s w).semaphore
  unfolding take_with take_turn
  take_with-IsBounded b = ground arith

  pub give_with-IsBounded : IsBounded s → IsBounded (give_with operation s w).semaphore
  unfolding give_with give_turn
  give_with-IsBounded b = ground arith

-- take() does what take( operation ) does with a function that does nothing.
pub take-eq-take_with :
    {W : Type 0} (s : Semaphore) (w : W) → take s w ≡ take_with (λ v. (returns tt, v)) s w
unfolding take take_with
take-eq-take_with s w = ground arith

-- give() does what give( operation ) does with a function that does nothing.
pub give-eq-give_with :
    {W : Type 0} (s : Semaphore) (w : W) → give s w ≡ give_with (λ v. (returns tt, v)) s w
unfolding give give_with
give-eq-give_with s w = ground arith

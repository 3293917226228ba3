-- ===== src/Outcome.antt =====
-- How a call of the library ends: src/ReiserRT_CoreExceptions.hpp, and what C++ leaves undefined.
use reiser_rt_core.Prelude.{ℕ, Option, none, some}

-- The exception classes, and `client k` for whatever a function of the client throws.
pub data Exception : Type 0 where
  ring_buffer_underflow ring_buffer_overflow ring_buffer_state_error : Exception
  semaphore_aborted semaphore_overflow : Exception
  object_pool_element_size_error message_queue_element_size_error : Exception
  message_queue_dispatch_locking_disabled : Exception
  client : ℕ → Exception

-- `fault` is what has no outcome for the caller: undefined behaviour, such as a read or write
-- outside an allocated array, and the end of the program by an exception that leaves a `noexcept`
-- function.
pub data Outcome {ℓ} (A : Type ℓ) : Type ℓ where
  returns : A → Outcome A
  throws : Exception → Outcome A
  fault : Outcome A

-- What a read of an array gives.
abbrev pub or_fault {ℓ} : {A : Type ℓ} → Option A → Outcome A
or_fault none = fault
or_fault (some a) = returns a

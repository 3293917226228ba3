-- ===== src/RingBufferSimple/Tests.antt =====
-- Rings of src/RingBufferSimple.hpp at work.
use reiser_rt_core.Prelude.{ℕ, ◌*◌, ◌^◌, ◌≤◌, ◌<◌, ◌≡◌, refl, List, [], ◌∷◌, arith}
use reiser_rt_core.Outcome.{returns, throws, ring_buffer_underflow, ring_buffer_overflow}
use reiser_rt_core.BoundedQueue
use reiser_rt_core.BoundedQueue.{Op, puts, gets, stored, fetched, dequeue, enqueue}
use reiser_rt_core.RingBufferSimple.{
  RingBufferSimple, mask_for_nb, clamp, num_bits_for_ne, raw_num_bits_for_ne, allocate, construct,
  get, put, run,
}
use reiser_rt_core.RingBufferSimple.Sizing.{num_bits_for_ne_least}
use reiser_rt_core.RingBufferSimple.Contents.{Represents}
use reiser_rt_core.RingBufferSimple.Refine.{run-construct_refines}

bits-2 : num_bits_for_ne 0 ≡ 1
unfolding num_bits_for_ne raw_num_bits_for_ne clamp
bits-2 = refl

bits-5 : num_bits_for_ne 5 ≡ 3
unfolding num_bits_for_ne raw_num_bits_for_ne clamp
bits-5 = refl

bits-most : num_bits_for_ne 2000000 ≡ 20
unfolding num_bits_for_ne raw_num_bits_for_ne clamp
bits-most = refl

-- Two elements, the counters about to wrap.
abbrev two : RingBufferSimple ℕ
two = record {
  get_count = 4294967294;
  put_count = 0;
  num_bits = 1;
  num_elements_mask = 1;
  num_elements = 2;
  element_buf = 8 ∷ 7 ∷ [];
}

two-Represents : Represents two (7 ∷ 8 ∷ [])
two-Represents = record {
  sized = record { bits = omega arith; elements = refl; mask = refl; storage = refl };
  get_range = omega arith;
  put_range = omega arith;
  count = refl;
  fits = omega arith;
  held = (refl, (refl, tt));
}

abbrev calls : List (Op ℕ)
calls = puts 1 ∷ puts 2 ∷ gets ∷ puts 3 ∷ puts 4 ∷ gets ∷ gets ∷ gets ∷ []

calls-run :
    run (construct (λ _. 0) 2) calls
    ≡ stored (returns tt)
      ∷ stored (returns tt)
      ∷ fetched (returns 1)
      ∷ stored (returns tt)
      ∷ stored (throws ring_buffer_overflow)
      ∷ fetched (returns 2)
      ∷ fetched (returns 3)
      ∷ fetched (throws ring_buffer_underflow)
      ∷ []
unfolding run construct get put num_bits_for_ne raw_num_bits_for_ne clamp mask_for_nb allocate
calls-run = refl

run-construct_refines_example :
    run (construct (λ _. 0) 2) calls ≡ BoundedQueue.run (2 ^ num_bits_for_ne 2) [] calls
run-construct_refines_example = run-construct_refines (λ _. 0) 2 calls

num_bits_for_ne_least_example :
    let b = num_bits_for_ne 5 in (clamp 5 ≤ 2 ^ b) × (2 ^ b < 2 * clamp 5) × (1 ≤ b) × (b ≤ 20)
num_bits_for_ne_least_example = num_bits_for_ne_least 5

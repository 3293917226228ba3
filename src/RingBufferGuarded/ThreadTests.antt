-- ===== src/RingBufferGuarded/ThreadTests.antt =====
-- Three threads on one guarded ring of src/RingBufferGuarded.hpp.
use reiser_rt_core.Prelude.{
  ℕ_discrete, ℕ, ◌+◌, ◌<◌, ◌≡◌, ◌⊎◌, refl, false, List, [], ◌∷◌, ◌++◌, arith, length,
}
use reiser_rt_core.Prelude.Families.{update, total}
use reiser_rt_core.RingBufferSimple as Ring
use reiser_rt_core.RingBufferSimple.Contents as RingContents
use reiser_rt_core.Semaphore.{take_turn, take_with, give_turn, give_with}
use reiser_rt_core.Semaphore.Threads.{
  outside, take_waiting, take_woken, is_take_woken, tally, ran, one_taker, System, take_call,
  give_call, Reach, here, next,
}
use reiser_rt_core.RingBufferGuarded.{RingBufferGuarded, ready}
use reiser_rt_core.RingBufferGuarded.Contents.{Represents}
use reiser_rt_core.RingBufferGuarded.Ledger.{Ledger, get_op, put_op}
use reiser_rt_core.RingBufferGuarded.Fifo.{IsGet, IsPut}
use reiser_rt_core.RingBufferGuarded.Threads.{
  start, first_in_first_out, no_lost_get_wakeup, buffer_at_rest,
}

-- An empty buffer of two elements.
abbrev vacant : RingBufferGuarded ℕ
vacant = record {
  ring = record {
    get_count = 0;
    put_count = 0;
    num_bits = 1;
    num_elements_mask = 1;
    num_elements = 2;
    element_buf = 0 ∷ 0 ∷ [];
  };
  semaphore = record {
    available_count = 0;
    max_available_count = 2;
    take_pending_count = 0;
    give_pending_count = 0;
    abort_flag = false;
  };
  state = ready;
}

vacant-Represents : Represents vacant []
vacant-Represents = record {
  ring = record {
    sized = record { bits = omega arith; elements = refl; mask = refl; storage = refl };
    get_range = omega arith;
    put_range = omega arith;
    count = refl;
    fits = omega arith;
    held = tt;
  };
  bounded = record { available = omega arith; range = omega arith };
  count = refl;
}

-- Threads 0 and 1 wait in `get`, then thread 2 puts 9 and wakes thread 0.
abbrev getting1 : System (Ledger ℕ)
getting1 = record (start vacant []) {
  semaphore = record vacant.semaphore { take_pending_count = 1 };
  pc = update (λ _. outside) 0 (take_waiting get_op);
}

abbrev getting2 : System (Ledger ℕ)
getting2 = record (start vacant []) {
  semaphore = record vacant.semaphore { take_pending_count = 2 };
  pc = update getting1.pc 1 (take_waiting get_op);
}

abbrev getting3 : System (Ledger ℕ)
getting3 = record {
  semaphore = record vacant.semaphore { take_pending_count = 2; available_count = 1 };
  world = record {
    ring = record vacant.ring { put_count = 1; element_buf = 0 ∷ 9 ∷ [] };
    stored = 9 ∷ [];
    fetched = [];
  };
  pc = update (update getting2.pc 2 outside) 0 (take_woken get_op);
}

getting2-Reach : Reach IsGet IsPut 3 (start vacant []) getting2
unfolding take_with take_turn ℕ_discrete
getting2-Reach =
    next (next here (take_call 0 get_op (omega arith) refl refl (ran refl refl refl)))
      (take_call 1 get_op (omega arith) refl refl (ran refl refl refl))

getting3-Reach : Reach IsGet IsPut 3 (start vacant []) getting3
unfolding give_with give_turn put_op Ring.put ℕ_discrete
getting3-Reach = next getting2-Reach (
    give_call 2 (put_op 9) (omega arith) refl (9, refl)
      (ran (getting3.pc, one_taker 0 get_op (omega arith) refl, refl) refl refl))

first_in_first_out_example :
    (ys : List ℕ) × (◌≡◌ {A = List ℕ} (9 ∷ []) ([] ++ ys))
    × RingContents.Represents getting3.world.ring ys
    × (1 ≡ length ys)
first_in_first_out_example =
    first_in_first_out vacant [] (omega arith) vacant-Represents (omega arith) (refl, refl)
      getting3-Reach

no_lost_get_wakeup_example : (j : ℕ) × (j < 3) × (0 < is_take_woken (getting3.pc j))
unfolding ℕ_discrete
no_lost_get_wakeup_example =
    no_lost_get_wakeup vacant [] (omega arith) vacant-Represents (omega arith) (refl, refl)
      getting3-Reach 1 get_op (omega arith) refl (λ e. cc)

buffer_at_rest_example :
    (((tally 3 getting2.pc).take_asleep ≡ 0) ⊎ (◌≡◌ {A = List ℕ} [] []))
    × (((tally 3 getting2.pc).give_asleep ≡ 0) ⊎ (length {A = ℕ} [] ≡ length {A = ℕ} [] + 2))
unfolding tally total ℕ_discrete
buffer_at_rest_example =
    buffer_at_rest vacant [] (omega arith) vacant-Represents (omega arith) (refl, refl)
      getting2-Reach refl

-- ===== src/Semaphore/Tests.antt =====
-- Runs of three threads on one semaphore of src/Semaphore.cpp.
use reiser_rt_core.Prelude.{ℕ_discrete, ℕ, ◌<◌, ◌≡◌, refl, arith}
use reiser_rt_core.Prelude.Families.{update, total}
use reiser_rt_core.Outcome.{returns, throws, client}
use reiser_rt_core.Semaphore.{
  construct, doctor_max_available_count, take_with, take_turn, take_wake, take_notify, give_with,
  give_turn,
}
use reiser_rt_core.Semaphore.Counts.{IsBounded, construct-IsBounded}
use reiser_rt_core.Semaphore.Threads.{
  Operation, outside, take_waiting, take_woken, give_waiting, give_woken, is_take_woken,
  is_give_woken, tally, Ran, ran, one_taker, one_giver, System, take_call, give_call, init, Reach,
  here, next,
}
use reiser_rt_core.Semaphore.Steps.{SystemInv, Reach-Inv}
use reiser_rt_core.Semaphore.Liveness.{
  Reliable, no_lost_take_wakeup, no_lost_give_wakeup, take_throw_strands,
}

-- Functions of the client that do nothing, and that throw.
abbrev nothing : Operation (Unit {0})
nothing w = (returns tt, w)

abbrev failing : Operation (Unit {0})
failing w = (throws (client 0), w)

abbrev Any : Operation (Unit {0}) → Type 0
Any _ = Unit

module _ (first : Operation (Unit {0})) where
  -- Threads 0 and 1 wait in takes, then thread 2 gives and wakes thread 0.
  abbrev taking1 : System (Unit {0})
  taking1 = record {
    semaphore = record (construct 0 1) { take_pending_count = 1 };
    world = tt;
    pc = update (λ _. outside) 0 (take_waiting first);
  }

  abbrev taking2 : System (Unit {0})
  taking2 = record {
    semaphore = record (construct 0 1) { take_pending_count = 2 };
    world = tt;
    pc = update taking1.pc 1 (take_waiting nothing);
  }

  abbrev taking3 : System (Unit {0})
  taking3 = record {
    semaphore = record (construct 0 1) { take_pending_count = 2; available_count = 1 };
    world = tt;
    pc = update (update taking2.pc 2 outside) 0 (take_woken first);
  }

  module _ (Allowed : Operation (Unit {0}) → Type 0) (ok : Allowed first)
      (fine : Allowed nothing) where
    taking1-Reach : Reach Allowed Allowed 3 (init 0 1 tt) taking1
    unfolding take_with take_turn construct doctor_max_available_count
    taking1-Reach = next here (take_call 0 first (omega arith) refl ok (ran refl refl refl))

    taking2-Reach : Reach Allowed Allowed 3 (init 0 1 tt) taking2
    unfolding take_with take_turn construct doctor_max_available_count ℕ_discrete
    taking2-Reach =
        next taking1-Reach (take_call 1 nothing (omega arith) refl fine (ran refl refl refl))

    taking3-Reach : Reach Allowed Allowed 3 (init 0 1 tt) taking3
    unfolding give_with give_turn construct doctor_max_available_count ℕ_discrete
    taking3-Reach = next taking2-Reach (
        give_call 2 nothing (omega arith) refl fine
          (ran (taking3.pc, one_taker 0 first (omega arith) refl, refl) refl refl))

-- Threads 0 and 1 wait in gives, then thread 2 takes and wakes thread 0.
abbrev giving1 : System (Unit {0})
giving1 = record {
  semaphore = record (construct 1 1) { give_pending_count = 1 };
  world = tt;
  pc = update (λ _. outside) 0 (give_waiting nothing);
}

abbrev giving2 : System (Unit {0})
giving2 = record {
  semaphore = record (construct 1 1) { give_pending_count = 2 };
  world = tt;
  pc = update giving1.pc 1 (give_waiting nothing);
}

abbrev giving3 : System (Unit {0})
giving3 = record {
  semaphore = record (construct 1 1) { give_pending_count = 2; available_count = 0 };
  world = tt;
  pc = update (update giving2.pc 2 outside) 0 (give_woken nothing);
}

giving1-Reach : Reach Reliable Reliable 3 (init 1 1 tt) giving1
unfolding give_with give_turn construct doctor_max_available_count
giving1-Reach = next here (give_call 0 nothing (omega arith) refl (λ w. refl) (ran refl refl refl))

giving2-Reach : Reach Reliable Reliable 3 (init 1 1 tt) giving2
unfolding give_with give_turn construct doctor_max_available_count ℕ_discrete
giving2-Reach =
    next giving1-Reach (give_call 1 nothing (omega arith) refl (λ w. refl) (ran refl refl refl))

giving3-Reach : Reach Reliable Reliable 3 (init 1 1 tt) giving3
unfolding take_with take_turn construct doctor_max_available_count ℕ_discrete take_notify
giving3-Reach = next giving2-Reach (
    take_call 2 nothing (omega arith) refl (λ w. refl)
      (ran (giving3.pc, one_giver 0 nothing (omega arith) refl, refl) refl refl))

no_lost_take_wakeup_example : (j : ℕ) × (j < 3) × (0 < is_take_woken ((taking3 nothing).pc j))
unfolding construct ℕ_discrete
no_lost_take_wakeup_example =
    no_lost_take_wakeup 0 1 tt (omega arith) (omega arith)
      (taking3-Reach nothing Reliable (λ w. refl) (λ w. refl)) 1 nothing (omega arith) refl
      (omega arith)

no_lost_give_wakeup_example : (j : ℕ) × (j < 3) × (0 < is_give_woken (giving3.pc j))
unfolding construct doctor_max_available_count ℕ_discrete
no_lost_give_wakeup_example =
    no_lost_give_wakeup 1 1 tt (omega arith) (omega arith) giving3-Reach 1 nothing (omega arith)
      refl (omega arith)

Reach-Inv_example : SystemInv 3 (taking3 failing)
Reach-Inv_example = Reach-Inv 0 1 tt (omega arith) (omega arith) (taking3-Reach failing Any tt tt)

-- Thread 0 runs the function that throws.
abbrev stranded : System (Unit {0})
stranded = record {
  semaphore = record (construct 0 1) { take_pending_count = 1; available_count = 1 };
  world = tt;
  pc = update (taking3 failing).pc 0 outside;
}

stranded-Ran :
    let s = taking3 failing in
    Ran 3 s 0 outside (take_with failing (take_wake s.semaphore) s.world) stranded
unfolding take_with take_turn take_wake construct doctor_max_available_count
stranded-Ran = ran refl refl refl

take_throw_strands_example :
    (stranded.semaphore.available_count ≡ (taking3 failing).semaphore.available_count)
    × ((tally 3 stranded.pc).take_asleep ≡ (tally 3 (taking3 failing).pc).take_asleep)
    × ((tally 3 stranded.pc).take_back ≡ 0)
unfolding take_with take_turn take_wake construct tally total ℕ_discrete
take_throw_strands_example =
    take_throw_strands {s = taking3 failing} {t = stranded} 0 failing (client 0) (omega arith) refl
      stranded-Ran (Reach-Inv 0 1 tt (omega arith) (omega arith) (taking3-Reach failing Any tt tt))
      refl (omega arith) refl (omega arith) refl

three_of_five-IsBounded : IsBounded (construct 3 5)
three_of_five-IsBounded = construct-IsBounded 3 5 (omega arith)

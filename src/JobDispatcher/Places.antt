-- ===== src/JobDispatcher/Places.antt =====
-- The jobs on their way in src/examples/JobDispatcher/src/JobDispatcher.cpp, summed over the tasks:
-- no more than there are tasks.
use reiser_rt_core.Prelude.{
  ℕ, zero, suc, ◌+◌, ◌≤◌, ◌<◌, ◌≡◌, refl, List, [], ◌∷◌, arith, length, All,
}
use reiser_rt_core.Prelude.Families.{total, total-map}
use reiser_rt_core.JobTask.{JobTask}
use reiser_rt_core.JobDispatcher.{
  Message, tickler, job_complete_message, Boss, absent, testing, receiving, dispatching, checking,
  creating, passing, deciding, finished, Runner, outside, firing, handing, taking, returned, failed,
}
use reiser_rt_core.Prelude.Occurrences.{same, occurrences}
use reiser_rt_core.JobDispatcher.Accounts.{
  load, message_owed, inbox_owed, boss_owed, runner_owed, left, runner_in_flight,
}
use reiser_rt_core.JobDispatcher.Moves.{IsTask, Completes, Handles, Fires}

-- The sum of `g` below `n`.
abbrev pub sum : (ℕ → ℕ) → ℕ → ℕ
sum g n = total g n (λ i. i)

pub sum-plus : (g h : ℕ → ℕ) (n : ℕ) → sum (λ i. g i + h i) n ≡ sum g n + sum h n
sum-plus g h n = total-map (λ i. g i + h i) g h (λ i. i) (λ i. refl) n (λ i. i)

pub sum-load : (n : ℕ) (tasks : ℕ → JobTask) → sum (λ i. load (tasks i)) n ≡ total load n tasks
unfolding total
sum-load zero tasks = refl
sum-load (suc n) tasks = omega (arith, sum-load n tasks)

sum-zero : (n : ℕ) → sum (λ _. 0) n ≡ 0
unfolding total
sum-zero zero = refl
sum-zero (suc n) = omega (arith, sum-zero n)

sum-same_outside : (k n : ℕ) → n ≤ k → sum (same k) n ≡ 0
unfolding total
sum-same_outside k zero h = refl
sum-same_outside k (suc n) h = ground (arith, sum-same_outside k n)

sum-same : (k n : ℕ) → k < n → sum (same k) n ≡ 1
unfolding total
sum-same k zero h = elim h [ ]
sum-same k (suc n) h = ground (arith, sum-same k n, sum-same_outside k n)

pub sum-occurrences :
    (n : ℕ) (is : List ℕ) → All (IsTask n) is → sum (λ i. occurrences i is) n ≡ length is
sum-occurrences n [] h = sum-zero n
sum-occurrences n (k ∷ is) h = omega (
  arith,
  sum-plus (same k) (λ i. occurrences i is) n,
  sum-same k n h.0.1,
  sum-occurrences n is h.1,
)

sum-message : (n : ℕ) (m : Message) → Completes n m → sum (λ i. message_owed i m) n ≡ 1
sum-message n tickler h = absurd h
sum-message n (job_complete_message j) h = sum-same j.task_id n h.1

pub sum-inbox :
    (n : ℕ) (ms : List Message) → All (Completes n) ms → sum (λ i. inbox_owed i ms) n ≡ length ms
sum-inbox n [] h = sum-zero n
sum-inbox n (m ∷ ms) h = omega (
  arith,
  sum-plus (λ i. message_owed i m) (λ i. inbox_owed i ms) n,
  sum-message n m h.0,
  sum-inbox n ms h.1,
)

-- What the boss and the runner stand for.
abbrev pub boss_share : Boss → ℕ
boss_share (dispatching _) = 1
boss_share (checking _) = 1
boss_share (creating _) = 1
boss_share (passing _ _) = 1
boss_share _ = 0

pub sum-boss : (n : ℕ) (b : Boss) → Handles n b → sum (λ i. boss_owed i b) n ≡ boss_share b
sum-boss n absent h = sum-zero n
sum-boss n testing h = sum-zero n
sum-boss n receiving h = sum-zero n
sum-boss n (dispatching m) h = sum-message n m h
sum-boss n (checking j) h = sum-same j.task_id n h.1
sum-boss n (creating j) h = sum-same j.task_id n h.1
sum-boss n (passing j new) h = sum-same j.task_id n h.0.1
sum-boss n (deciding j) h = sum-zero n
sum-boss n finished h = sum-zero n

pub sum-runner :
    (n : ℕ) (r : Runner) → Fires n r → sum (λ i. runner_owed i r) n ≡ left r + runner_in_flight r
sum-runner n outside h = absurd h
sum-runner n (firing is) h = omega (arith, sum-occurrences n is h)
sum-runner n (handing k j is) h = omega (
  arith,
  sum-plus (same k) (λ i. occurrences i is) n,
  sum-same k n h.0.1,
  sum-occurrences n is h.2,
)
sum-runner n taking h = sum-zero n
sum-runner n returned h = sum-zero n
sum-runner n (failed e) h = absurd h

-- With at most one at each task, and none at 0, a sum below `n` is below `n`.
sum-lt_suc :
    (g : ℕ → ℕ) (n : ℕ) → g 0 ≡ 0 → ((i : ℕ) → IsTask (suc n) i → g i ≤ 1) → sum g (suc n) ≤ n
unfolding total
sum-lt_suc g zero z h = omega (arith, z)
sum-lt_suc g (suc n) z h =
    let rest = sum-lt_suc g n z (λ i is_task. h i (is_task.0, omega (arith, is_task.1))) in
    let last = h (suc n) (omega arith, omega arith) in omega (arith, rest, last)

pub sum-lt : (g : ℕ → ℕ) (n : ℕ) → 0 < n → g 0 ≡ 0 → ((i : ℕ) → IsTask n i → g i ≤ 1) → sum g n < n
sum-lt g zero p z h = elim p [ ]
sum-lt g (suc n) p z h = omega (arith, sum-lt_suc g n z h)

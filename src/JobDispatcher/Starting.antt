-- ===== src/JobDispatcher/Starting.antt =====
-- A dispatcher of src/examples/JobDispatcher/src/JobDispatcher.cpp that was made and activated, and
-- whose `runJobs` is called.
use reiser_rt_core.Prelude.{
  ℕ, zero, suc, ◌+◌, ◌*◌, ◌^◌, ◌≤◌, ◌<◌, ◌≡◌, ◌≢◌, refl, ap, ◌∙◌, dec_lt, true, List, [], ◌∷◌,
  arith,
}
use reiser_rt_core.Prelude.Families.{update, total, total-le_below, total-zero_below}
use reiser_rt_core.Outcome.{returns}
use reiser_rt_core.JobTask as Task
use reiser_rt_core.JobTask.{JobTask, activated, register_job_complete_notifier}
use reiser_rt_core.JobDispatcher.{JobDispatcher, testing, firing, pool_elements}
use reiser_rt_core.Prelude.Occurrences.{occurrences}
use reiser_rt_core.JobDispatcher.Accounts.{load, owed}
use reiser_rt_core.JobDispatcher.Moves.{IsTask, Shaped}
use reiser_rt_core.JobDispatcher.Counting.{Counted}
use reiser_rt_core.JobDispatcher.Sound.{Sound}
use reiser_rt_core.JobDispatcher.Measure.{measure, task_work}
use reiser_rt_core.JobDispatcher.Startup.{construct, activate, activate_tasks, run_jobs}
use reiser_rt_core.JobDispatcher.Ids.{Lists, Lists-All, Lists-length}

-- A task behind the constructor, and behind `activate`.
abbrev fresh : ℕ → JobTask
fresh i = register_job_complete_notifier (Task.construct i)

abbrev started : ℕ → JobTask
started i = record {
  task_id = i;
  state = activated;
  messages = [];
  worker = Task.testing;
  has_notifier = true;
}

activate-fresh : (i : ℕ) → Task.activate (fresh i) ≡ (returns tt, started i)
unfolding Task.activate register_job_complete_notifier Task.construct
activate-fresh i = refl

-- What the loop of `activate` makes of the tasks.
record Activates (is : List ℕ) (tasks tasks' : ℕ → JobTask) : Type 0 where
  listed : (i : ℕ) → 0 < occurrences i is → tasks' i ≡ started i
  others : (i : ℕ) → occurrences i is ≡ 0 → tasks' i ≡ tasks i

activate_tasks-cons :
    (k : ℕ) (is : List ℕ) (tasks : ℕ → JobTask)
    → tasks k ≡ fresh k
    → activate_tasks (k ∷ is) tasks ≡ activate_tasks is (update tasks k (started k))
unfolding activate_tasks
activate_tasks-cons k is tasks e =
    let a : Task.activate (tasks k) ≡ (returns tt, started k) =
      ap Task.activate e ∙ activate-fresh k in
    rw (a, activate_tasks) (ap (λ p. activate_tasks is (update tasks k p.1)) a)

activate_tasks-Activates :
    (is : List ℕ) (tasks : ℕ → JobTask)
    → ((i : ℕ) → occurrences i is ≤ 1)
    → ((i : ℕ) → 0 < occurrences i is → tasks i ≡ fresh i)
    → ((activate_tasks is tasks).0 ≡ returns tt) × Activates is tasks (activate_tasks is tasks).1
unfolding activate_tasks
activate_tasks-Activates [] tasks once all =
    (refl, record { listed = λ i l. absurd (omega (arith, l)); others = λ i e. refl })
activate_tasks-Activates (k ∷ is) tasks once all =
    let (o, ih) =
      activate_tasks-Activates is (update tasks k (started k)) (λ i. omega (arith, once i))
        (λ i l. elsewhere i (ground (arith, once i)) ∙ all i (omega (arith, l))) in
    rw (activate_tasks-cons k is tasks (all k (ground arith))) (
      o,
      record {
        listed = λ i l. elim (dec_lt 0 (occurrences i is)) [
          | yes p ↦ ih.listed i p
          | no np ↦ ih.others i (omega (arith, np)) ∙ at_head i (ground arith)
        ];
        others = λ i e. ih.others i (omega (arith, e)) ∙ elsewhere i (ground arith);
      },
    )
  where
    at_head : (i : ℕ) → i ≡ k → update tasks k (started k) i ≡ started i
    at_head i e = ground arith

    elsewhere : (i : ℕ) → i ≢ k → update tasks k (started k) i ≡ tasks i
    elsewhere i ne = ground arith

abbrev ready : ℕ → List ℕ → (ℕ → JobTask) → JobDispatcher
ready n order tasks = record {
  num_cpus = n;
  state = activated;
  completed_job_count = 0;
  last_job_id = 0;
  free = pool_elements n;
  messages = [];
  boss = testing;
  credits = 0;
  job_tasks = tasks;
  runner = firing order;
}

activate-ready :
    (n : ℕ) (order : List ℕ)
    → (activate_tasks order fresh).0 ≡ returns tt
    → ((activate order (construct n)).0 ≡ returns tt)
      × (run_jobs order (activate order (construct n)).1
          ≡ ready n order (activate_tasks order fresh).1)
unfolding activate construct
activate-ready n order e = ground arith

module _ (n : ℕ) (order : List ℕ) (tasks : ℕ → JobTask) (two : 1 ≤ n) (few : n ≤ 2 ^ 19)
    (lists : Lists n order) (a : Activates order fresh tasks) where
  ready-tasks : (i : ℕ) → IsTask n i → tasks i ≡ started i
  ready-tasks i is_task = a.listed i (ground (arith, lists i))

  ready-first : tasks 0 ≡ fresh 0
  ready-first = a.others 0 (ground (arith, lists 0))

  ready-Shaped : Shaped (ready n order tasks)
  ready-Shaped = record {
    active = refl;
    tasks = λ i is_task.
        rw (ready-tasks i is_task)
          (record { known = refl; active = refl; notifies = refl; queue = tt; worker = tt });
    inbox = tt;
    boss = tt;
    runner = Lists-All n order lists;
  }

  ready-loads : (i : ℕ) → i < n → (load (tasks i) ≡ 0) × (task_work (tasks i) ≤ 1)
  unfolding Task.construct register_job_complete_notifier
  ready-loads zero l = ground (arith, ready-first)
  ready-loads (suc i) l = ground (arith, ready-tasks (suc i))

  ready-Counted : Counted (ready n order tasks)
  ready-Counted = record {
    few = few;
    last_left = Lists-length n order lists two;
    range = omega (arith, Lists-length n order lists two);
    accounted = omega (arith, none_there);
    blocks = omega (arith, none_there);
    given = refl;
  }
    where
      none_there : total load n tasks ≡ 0
      none_there = total-zero_below load n tasks (λ i l. (ready-loads i l).0)

  ready-owed : (i : ℕ) → IsTask n i → owed i (ready n order tasks) ≡ 1
  ready-owed i is_task = ground (arith, lists i, ready-loads i)

  ready-Sound : Sound (ready n order tasks)
  ready-Sound = record {
    shaped = ready-Shaped;
    counted = ready-Counted;
    spare = (ready-loads 0 (omega (arith, two))).0;
    most = λ i is_task. omega (arith, ready-owed i is_task);
    least = λ i is_task more. omega (arith, ready-owed i is_task);
  }

  ready-measure : measure (ready n order tasks) ≤ 1400 + 12 * n
  ready-measure = omega (
    arith,
    total-le_below task_work n tasks (λ i l. (ready-loads i l).1),
    Lists-length n order lists two,
  )

module _ (n : ℕ) (order : List ℕ) (two : 1 ≤ n) (few : n ≤ 2 ^ 19) (lists : Lists n order) where
  activated_tasks :
      ((activate_tasks order fresh).0 ≡ returns tt)
      × Activates order fresh (activate_tasks order fresh).1
  activated_tasks =
      activate_tasks-Activates order fresh (λ i. ground (arith, lists i)) (λ i l. refl)

  -- `activate` returns, and `runJobs` finds a sound dispatcher.
  pub begun-Sound :
      ((activate order (construct n)).0 ≡ returns tt)
      × Sound (run_jobs order (activate order (construct n)).1)
  begun-Sound =
      let (o, a) = activated_tasks in
      let (o', e) = activate-ready n order o in (o', rw e (ready-Sound n order _ two few lists a))

  pub begun-measure : measure (run_jobs order (activate order (construct n)).1) ≤ 1400 + 12 * n
  begun-measure =
      let (o, a) = activated_tasks in
      let (o', e) = activate-ready n order o in rw e (ready-measure n order _ two few lists a)

  pub begun-num_cpus : (run_jobs order (activate order (construct n)).1).num_cpus ≡ n
  begun-num_cpus =
      let (o, a) = activated_tasks in let (o', e) = activate-ready n order o in rw e refl

  pub begun-last : (run_jobs order (activate order (construct n)).1).last_job_id ≡ 0
  begun-last = let (o, a) = activated_tasks in let (o', e) = activate-ready n order o in rw e refl

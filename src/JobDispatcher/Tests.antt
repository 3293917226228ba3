-- ===== src/JobDispatcher/Tests.antt =====
-- A dispatcher of src/examples/JobDispatcher/src/JobDispatcher.cpp on three processors, whose two
-- tasks are gone through backwards.
use mathlib.Core.List.{Perm}
use mathlib.Core.List.Perm
use reiser_rt_core.Prelude.{ℕ, ◌+◌, ◌*◌, ◌≤◌, ◌≡◌, ◌≢◌, refl, subst, sym, List, [], ◌∷◌, arith}
use reiser_rt_core.JobTask as Task
use reiser_rt_core.JobTask.{activated, posted}
use reiser_rt_core.JobDispatcher.{JobDispatcher, returned, max_jobs, pool_elements}
use reiser_rt_core.JobDispatcher.Accounts.{lent, in_flight}
use reiser_rt_core.JobDispatcher.Sound.{Sound}
use reiser_rt_core.JobDispatcher.Measure.{measure}
use reiser_rt_core.JobDispatcher.Completion.{Run, here, Halted, can_halt}
use reiser_rt_core.JobDispatcher.Startup.{task_ids, ids_from, deactivate}
use reiser_rt_core.JobDispatcher.Ids.{Perm-Lists}
use reiser_rt_core.JobDispatcher.Starting.{begun-Sound}
use reiser_rt_core.JobDispatcher.Client.{
  begun, runs_end, jobs_bounded, halted_completes, one_cpu_never_returns,
}

abbrev backwards : List ℕ
backwards = 2 ∷ 1 ∷ []

task_ids_three : task_ids 3 ≡ 1 ∷ 2 ∷ []
unfolding task_ids ids_from
task_ids_three = refl

backwards-Perm : Perm backwards (task_ids 3)
backwards-Perm = subst (Perm backwards) (sym task_ids_three) (Perm.swap 1 2 [])

-- Every job takes 15 seconds.
abbrev effort : ℕ → ℕ
effort _ = 15000

three-Sound : Sound (begun 3 backwards)
three-Sound =
    (begun-Sound 3 backwards (omega arith) (omega arith)
      (Perm-Lists (omega arith) (omega arith) backwards-Perm)).1

-- Some run from there to its end.
last_run : (k : ℕ) × (d : JobDispatcher) × Run effort (begun 3 backwards) k d × Halted effort d
last_run = can_halt (measure (begun 3 backwards)) three-Sound here (omega arith)

runs_end_example : last_run.0 ≤ 1400 + 12 * 3
runs_end_example = runs_end (omega arith) (omega arith) backwards-Perm last_run.2

halted_completes_example :
    let d = last_run.1 in
    (d.runner ≡ returned)
    × (max_jobs ≤ d.completed_job_count)
    × (d.completed_job_count ≡ d.last_job_id)
    × (d.free ≡ pool_elements 3)
    × ((deactivate backwards d).1 ≡ posted)
halted_completes_example =
    halted_completes (omega arith) (omega arith) backwards-Perm last_run.2 (omega arith) last_run.3

jobs_bounded_example :
    let d = last_run.1 in
    (d.state ≡ activated)
    × ((d.job_tasks 2).state ≡ activated)
    × (Task.running_count (d.job_tasks 2) ≤ 1)
    × (lent d ≤ 3)
    × (d.last_job_id ≡ d.completed_job_count + in_flight d)
    × (d.last_job_id ≤ max_jobs + 3)
jobs_bounded_example =
    jobs_bounded (omega arith) (omega arith) backwards-Perm last_run.2 2 (omega arith)

-- Some run on one processor to its end.
lone_run : (k : ℕ) × (d : JobDispatcher) × Run effort (begun 1 (task_ids 1)) k d × Halted effort d
lone_run =
    can_halt (measure (begun 1 (task_ids 1)))
      (begun-Sound 1 (task_ids 1) (omega arith) (omega arith)
        (Perm-Lists (omega arith) (omega arith) (Perm.refl (task_ids 1)))).1
      here (omega arith)

one_cpu_never_returns_example : (lone_run.1.last_job_id ≡ 0) × (lone_run.1.runner ≢ returned)
one_cpu_never_returns_example = one_cpu_never_returns lone_run.2

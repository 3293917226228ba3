-- ===== src/JobDispatcher/Client.antt =====
-- What src/examples/JobDispatcher/src/main.cpp does with a dispatcher: it makes and activates it,
-- runs its jobs and deactivates it.
use mathlib.Core.List.{Perm}
use mathlib.Core.List.Perm
use reiser_rt_core.Prelude.{
  ℕ, ◌+◌, ◌*◌, ◌^◌, ◌≤◌, ◌<◌, ◌≡◌, ◌≢◌, refl, sym, subst, ◌∙◌, List, [], ◌∷◌, arith,
}
use reiser_rt_core.Prelude.Families.{update}
use reiser_rt_core.JobTask as Task
use reiser_rt_core.JobTask.{JobTask, activated, Posting, posted, waits, skipped}
use reiser_rt_core.JobDispatcher.{JobDispatcher, returned, max_jobs, pool_elements}
use reiser_rt_core.Prelude.Occurrences.{occurrences}
use reiser_rt_core.JobDispatcher.Accounts.{lent, in_flight}
use reiser_rt_core.JobDispatcher.Moves.{IsTask, Move, rests, fires, creates}
use reiser_rt_core.JobDispatcher.Sound.{Sound, Runs-load, places}
use reiser_rt_core.JobDispatcher.Completion.{
  Run, Run-num_cpus, Step-Move, Halted, here, next, Run-Sound, halted-returned, boss_idle,
  task_idle,
}
use reiser_rt_core.JobDispatcher.Startup.{
  task_ids, construct, activate, run_jobs, deactivate, deactivate_tasks,
}
use reiser_rt_core.JobDispatcher.Ids.{Lists, Perm-Lists, Lists-IsTask}
use reiser_rt_core.JobDispatcher.Starting.{begun-last, begun-num_cpus, begun-Sound, begun-measure}

-- The dispatcher as `runJobs` finds it.
abbrev pub begun : ℕ → List ℕ → JobDispatcher
begun n order = run_jobs order (activate order (construct n)).1

deactivate-ne-waits :
    (t : JobTask) → Task.running_count t < Task.queue_elements → (Task.deactivate t).1 ≢ waits
unfolding Task.deactivate
deactivate-ne-waits t l = λ e. ground arith

-- `deactivate` does not wait if each task has room in its queue.
deactivate_tasks-posted :
    (is : List ℕ) (tasks : ℕ → JobTask)
    → ((i : ℕ) → occurrences i is ≤ 1)
    → ((i : ℕ) → 0 < occurrences i is → Task.running_count (tasks i) < Task.queue_elements)
    → (deactivate_tasks is tasks).1 ≡ posted
unfolding deactivate_tasks
deactivate_tasks-posted [] tasks once room = refl
deactivate_tasks-posted (i ∷ is) tasks once room =
    let t = (Task.deactivate (tasks i)).0 in
    let rest : (deactivate_tasks is (update tasks i t)).1 ≡ posted =
      deactivate_tasks-posted is (update tasks i t) (λ k. omega (arith, once k))
        (λ k l. ground (arith, once k, room k)) in
    let no_wait : (Task.deactivate (tasks i)).1 ≢ waits =
      deactivate-ne-waits (tasks i) (room i (ground arith)) in
    ground arith

module _ {effort : ℕ → ℕ} {n k : ℕ} {order : List ℕ} {d : JobDispatcher} (some_cpu : 1 ≤ n)
    (few : n ≤ 2 ^ 19) (each_once : Perm order (task_ids n))
    (run : Run effort (begun n order) k d) where
  lists : Lists n order
  lists = Perm-Lists some_cpu (omega (arith, few)) each_once

  at_first : Sound (begun n order)
  at_first = (begun-Sound n order some_cpu few lists).1

  sound : Sound d
  sound = (Run-Sound at_first run).0

  same_cpus : d.num_cpus ≡ n
  same_cpus = Run-num_cpus at_first run ∙ begun-num_cpus n order some_cpu few lists

  -- Every run ends: with 1 to 2 ^ 19 processors, the tasks gone through in any order, each once, no
  -- run of the threads in runJobs, of the dispatcher and of the tasks, however they are
  -- interleaved, has more than 1400 steps and 12 for each processor.
  pub runs_end : k ≤ 1400 + 12 * n
  runs_end = omega (arith, (Run-Sound at_first run).1, begun-measure n order some_cpu few lists)

  -- In a run as in runs_end: no call throws, no task waits in doJob, and nobody leaves the
  -- activated state; a task has one job at most; the pool has lent no more objects than there are
  -- processors; and the jobs fired are those completed and those in flight, no more than 128 and
  -- one for each processor.
  pub jobs_bounded :
      (i : ℕ)
      → IsTask n i
      → (d.state ≡ activated)
        × ((d.job_tasks i).state ≡ activated)
        × (Task.running_count (d.job_tasks i) ≤ 1)
        × (lent d ≤ n)
        × (d.last_job_id ≡ d.completed_job_count + in_flight d)
        × (d.last_job_id ≤ max_jobs + n)
  jobs_bounded i is_task =
      let is_task' = subst (λ m. IsTask m i) (sym same_cpus) is_task in
      let runs = sound.shaped.tasks i is_task' in
      let c = sound.counted in
      (
        sound.shaped.active,
        runs.active,
        omega (arith, Runs-load i (d.job_tasks i) runs, sound.most i is_task'),
        ground (arith, places sound, same_cpus),
        c.accounted,
        omega (arith, c.range, same_cpus),
      )

  -- In a run as in runs_end, runJobs has returned only if 128 jobs are completed.
  pub returns_late : d.runner ≡ returned → max_jobs ≤ d.completed_job_count
  returns_late e = ground (arith, sound.counted.given)

  stops_at_once : Halted effort d → (deactivate order d).1 ≡ posted
  unfolding deactivate
  stops_at_once halted =
      let active = sound.shaped.active in
      let (boss, empty) = boss_idle sound halted in
      let tasks_stop : (deactivate_tasks order d.job_tasks).1 ≡ posted =
        deactivate_tasks-posted order d.job_tasks (λ i. ground (arith, lists i))
          (λ i l. idle i l) in
      ground arith
    where
      idle :
          (i : ℕ)
          → 0 < occurrences i order
          → Task.running_count (d.job_tasks i) < Task.queue_elements
      idle i l =
          let is_task = subst (λ m. IsTask m i) (sym same_cpus) (Lists-IsTask n order lists i l) in
          omega (
            arith,
            Runs-load i (d.job_tasks i) (sound.shaped.tasks i is_task),
            task_idle sound halted i is_task,
          )

  -- With at least one task, a run as in runs_end that cannot go on has done its work: runJobs has
  -- returned, at least 128 jobs and all that were fired are completed, every object is back in the
  -- pool, and deactivate does not wait.
  pub halted_completes :
      2 ≤ n
      → Halted effort d
      → (d.runner ≡ returned)
        × (max_jobs ≤ d.completed_job_count)
        × (d.completed_job_count ≡ d.last_job_id)
        × (d.free ≡ pool_elements n)
        × ((deactivate order d).1 ≡ posted)
  halted_completes two halted =
      let (r, c, e, f) = halted-returned sound halted (omega (arith, two, same_cpus)) in
      (r, c, e, rw (← same_cpus) f, stops_at_once halted)

-- A move of a dispatcher with no task fires no job.
Move-last_alone :
    {effort : ℕ → ℕ} {d d' : JobDispatcher}
    → Sound d
    → d.num_cpus ≡ 1
    → Move effort d d'
    → d'.last_job_id ≡ d.last_job_id
Move-last_alone s one (rests e) = refl
Move-last_alone s one (fires i is f e e') = ground (arith, places s)
Move-last_alone s one (creates j f e e') = ground (arith, places s)
Move-last_alone s one _ = refl

Run-last_alone :
    {effort : ℕ → ℕ} {d d' : JobDispatcher} {k : ℕ}
    → Sound d
    → d.num_cpus ≡ 1
    → Run effort d k d'
    → d'.last_job_id ≡ d.last_job_id
Run-last_alone s one here = refl
Run-last_alone s one (next r st) =
    let s' = (Run-Sound s r).0 in
    Move-last_alone s' (Run-num_cpus s r ∙ one) (Step-Move s' st) ∙ Run-last_alone s one r

-- On one processor no job is ever fired, and runJobs never returns: in every run of the threads of
-- the dispatcher that the constructor makes for it, with the tasks that it has, the id of the last
-- job fired is 0 and the thread of runJobs has not returned.
pub one_cpu_never_returns :
    {effort : ℕ → ℕ} {k : ℕ} {d : JobDispatcher}
    → Run effort (begun 1 (task_ids 1)) k d
    → (d.last_job_id ≡ 0) × (d.runner ≢ returned)
one_cpu_never_returns {effort} {k} {d} run =
    let lists : Lists 1 (task_ids 1) =
      Perm-Lists (omega arith) (omega arith) (Perm.refl (task_ids 1)) in
    let at_first = (begun-Sound 1 (task_ids 1) (omega arith) (omega arith) lists).1 in
    let c = (Run-Sound at_first run).0.counted in
    let one = begun-num_cpus 1 (task_ids 1) (omega arith) (omega arith) lists in
    let alone = Run-last_alone at_first one run in
    let none_fired : d.last_job_id ≡ 0 =
      alone ∙ begun-last 1 (task_ids 1) (omega arith) (omega arith) lists in
    (none_fired, λ e. ground (arith, c.given, c.accounted))

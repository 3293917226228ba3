-- ===== src/JobDispatcher/Counting.antt =====
-- The counts of src/examples/JobDispatcher/src/JobDispatcher.cpp: jobs fired and completed, objects
-- of the pool, and the count of the completion semaphore.
use reiser_rt_core.Prelude.{
  ℕ, ◌+◌, ◌-◌, ◌^◌, ◌≤◌, ◌<◌, ◌≡◌, [], ◌∷◌, arith, length-append, leb, if◌then◌else◌, subst,
}
use reiser_rt_core.Prelude.Families.{total-update}
use reiser_rt_core.JobTask as Task
use reiser_rt_core.JobTask.{JobData, JobTask, do_job_message, notifying}
use reiser_rt_core.JobDispatcher.{
  JobDispatcher, job_complete_message, next_job, max_jobs, pool_elements,
}
use reiser_rt_core.JobDispatcher.Accounts.{
  load, in_flight, lent, left, undecided, about_to_create, is_returned,
}
use reiser_rt_core.JobDispatcher.Moves.{
  Handles, Fires, Shaped, queued, Move, rests, fires, hands, ends, listens, receives, counts,
  goes_on, stops, creates, passes, decides, task_listens, task_gets, task_starts, notifies,
}
use reiser_rt_core.JobDispatcher.Owing.{queue_load-snoc}

pub record Counted (d : JobDispatcher) : Type 0 where
  pub few : d.num_cpus ≤ 2 ^ 19
  pub last_left : left d.runner < d.num_cpus
  pub range : d.last_job_id + left d.runner + about_to_create d.boss ≤ max_jobs + d.num_cpus
  pub accounted : d.last_job_id ≡ d.completed_job_count + in_flight d
  pub blocks : d.free + lent d ≡ pool_elements d.num_cpus
  pub given :
      d.credits + is_returned d.runner
      ≡ (if leb max_jobs (d.completed_job_count - undecided d.boss) then 1 else 0)

module _ {effort : ℕ → ℕ} {d : JobDispatcher} (h : Shaped d) (c : Counted d) where
  pub Move-Counted : {d' : JobDispatcher} → Move effort d d' → Counted d'
  unfolding next_job
  Move-Counted (rests e) = ground arith
  Move-Counted (fires k is f e e') = ground arith
  Move-Counted (hands k j is e) =
      let g = subst (Fires d.num_cpus) e h.runner in
      ground (
        arith,
        queue_load-snoc (d.job_tasks k).messages j,
        total-update load d.num_cpus k d.job_tasks (queued j (d.job_tasks k)),
      )
  Move-Counted (ends e l) = ground arith
  Move-Counted (listens e) = ground arith
  Move-Counted (receives m ms e q) = ground arith
  Move-Counted (counts j e) = ground arith
  Move-Counted (goes_on j e l) = ground arith
  Move-Counted (stops j e l) = ground arith
  Move-Counted (creates j f e e') = ground arith
  Move-Counted (passes j new e) =
      let g = subst (Handles d.num_cpus) e h.boss in
      let k = j.task_id in
      ground (
        arith,
        queue_load-snoc (d.job_tasks k).messages new,
        total-update load d.num_cpus k d.job_tasks (queued new (d.job_tasks k)),
      )
  Move-Counted (decides j e) = ground arith
  Move-Counted (task_listens k t e) = ground (
    arith,
    total-update load d.num_cpus k d.job_tasks (record (d.job_tasks k) { worker = Task.receiving }),
  )
  Move-Counted (task_gets k j ms t e q) = ground (
    arith,
    total-update load d.num_cpus k d.job_tasks
        (record (d.job_tasks k) { messages = ms; worker = Task.dispatching (do_job_message j) }),
  )
  Move-Counted (task_starts k j t e) = ground (
    arith,
    total-update load d.num_cpus k d.job_tasks (record (d.job_tasks k) { worker = notifying j }),
  )
  Move-Counted (notifies k j t e l) = ground (
    arith,
    length-append d.messages (job_complete_message j ∷ []),
    total-update load d.num_cpus k d.job_tasks (record (d.job_tasks k) { worker = Task.testing }),
  )

-- ===== src/JobDispatcher/Measure.antt =====
-- Each move of src/examples/JobDispatcher/src/JobDispatcher.cpp brings the run nearer to its end.
use reiser_rt_core.Prelude.{
  ℕ, ◌+◌, ◌-◌, ◌*◌, ◌<◌, ◌≡◌, [], ◌∷◌, arith, length, length-append, subst,
}
use reiser_rt_core.Prelude.Families.{total, total-update, update}
use reiser_rt_core.JobTask as Task
use reiser_rt_core.JobTask.{JobData, JobTask, do_job_message, notifying}
use reiser_rt_core.JobDispatcher.{
  JobDispatcher, job_complete_message, Boss, testing, dispatching, checking, creating, passing,
  deciding, Runner, firing, handing, taking, next_job, max_jobs,
}
use reiser_rt_core.JobDispatcher.Moves.{
  Fires, Handles, Shaped, queued, Move, rests, fires, hands, ends, listens, receives, counts,
  goes_on, stops, creates, passes, decides, task_listens, task_gets, task_starts, notifies,
}
use reiser_rt_core.JobDispatcher.Counting.{Counted}

-- What a task still has to do for a job, by where the job is.
abbrev pub worker_work : Task.Worker → ℕ
worker_work Task.testing = 1
worker_work (Task.dispatching _) = 8
worker_work (notifying _) = 7
worker_work _ = 0

abbrev pub task_work : JobTask → ℕ
task_work t = 9 * length t.messages + worker_work t.worker

abbrev boss_work : Boss → ℕ
boss_work testing = 1
boss_work (dispatching _) = 4
boss_work (checking _) = 3
boss_work (creating _) = 13
boss_work (passing _ _) = 12
boss_work (deciding _) = 2
boss_work _ = 0

abbrev runner_work : Runner → ℕ
runner_work (firing is) = 11 * length is + 2
runner_work (handing _ _ is) = 11 * length is + 12
runner_work taking = 1
runner_work _ = 0

-- The jobs still to be fired, without the one that a handler is about to create.
abbrev still_to_fire : JobDispatcher → ℕ
still_to_fire d = elim d.boss [
  | creating _ ↦ max_jobs - (d.last_job_id + 1)
  | _ ↦ max_jobs - d.last_job_id
]

abbrev pub measure : JobDispatcher → ℕ
measure d =
    11 * still_to_fire d
    + total task_work d.num_cpus d.job_tasks
    + 5 * length d.messages
    + boss_work d.boss
    + runner_work d.runner

changes :
    (d : JobDispatcher) (k : ℕ) (t : JobTask)
    → k < d.num_cpus
    → total task_work d.num_cpus (update d.job_tasks k t) + task_work (d.job_tasks k)
      ≡ task_work t + total task_work d.num_cpus d.job_tasks
changes d k t l = total-update task_work d.num_cpus k d.job_tasks t l

module _ {effort : ℕ → ℕ} {d : JobDispatcher} (h : Shaped d) (c : Counted d) where
  pub Move-measure : {d' : JobDispatcher} → Move effort d d' → measure d' < measure d
  unfolding next_job
  Move-measure (rests e) = ground arith
  Move-measure (fires k is f e e') = ground arith
  Move-measure (hands k j is e) =
      let g = subst (Fires d.num_cpus) e h.runner in
      ground (
        arith,
        length-append (d.job_tasks k).messages (do_job_message j ∷ []),
        changes d k (queued j (d.job_tasks k)),
      )
  Move-measure (ends e l) = ground arith
  Move-measure (listens e) = ground arith
  Move-measure (receives m ms e q) = ground arith
  Move-measure (counts j e) = ground arith
  Move-measure (goes_on j e l) = ground arith
  Move-measure (stops j e l) = ground arith
  Move-measure (creates j f e e') = ground arith
  Move-measure (passes j new e) =
      let g = subst (Handles d.num_cpus) e h.boss in
      let k = j.task_id in
      ground (
        arith,
        length-append (d.job_tasks k).messages (do_job_message new ∷ []),
        changes d k (queued new (d.job_tasks k)),
      )
  Move-measure (decides j e) = ground arith
  Move-measure (task_listens k t e) =
      ground (arith, changes d k (record (d.job_tasks k) { worker = Task.receiving }))
  Move-measure (task_gets k j ms t e q) = ground (
    arith,
    changes d k
        (record (d.job_tasks k) { messages = ms; worker = Task.dispatching (do_job_message j) }),
  )
  Move-measure (task_starts k j t e) =
      ground (arith, changes d k (record (d.job_tasks k) { worker = notifying j }))
  Move-measure (notifies k j t e l) = ground (
    arith,
    length-append d.messages (job_complete_message j ∷ []),
    changes d k (record (d.job_tasks k) { worker = Task.testing }),
  )

-- ===== src/JobDispatcher/Owing.antt =====
-- Each task of src/examples/JobDispatcher/src/JobDispatcher.cpp has at most one job on its way, and
-- one for certain as long as jobs are left to fire.
use reiser_rt_core.Prelude.{◌⊎◌, inr, ℕ, ◌+◌, ◌≤◌, ◌≡◌, refl, subst, List, [], ◌∷◌, ◌++◌, arith}
use reiser_rt_core.JobTask as Task
use reiser_rt_core.JobTask.{JobData, JobTask, do_job_message, notifying}
use reiser_rt_core.JobDispatcher.{JobDispatcher, Message, job_complete_message, next_job, max_jobs}
use reiser_rt_core.JobDispatcher.Accounts.{queue_load, inbox_owed, message_owed, owed}
use reiser_rt_core.JobDispatcher.Moves.{
  WorksFor, IsTask, Shaped, Move, rests, fires, hands, ends, listens, receives, counts, goes_on,
  stops, creates, passes, decides, task_listens, task_gets, task_starts, notifies,
}

pub queue_load-snoc :
    (ms : List Task.Message) (j : JobData)
    → queue_load (ms ++ do_job_message j ∷ []) ≡ queue_load ms + 1
queue_load-snoc [] j = refl
queue_load-snoc (Task.tickler ∷ ms) j = queue_load-snoc ms j
queue_load-snoc (do_job_message k ∷ ms) j = omega (arith, queue_load-snoc ms j)

inbox_owed-snoc :
    (i : ℕ) (ms : List Message) (m : Message)
    → inbox_owed i (ms ++ m ∷ []) ≡ inbox_owed i ms + message_owed i m
inbox_owed-snoc i [] m = omega arith
inbox_owed-snoc i (k ∷ ms) m = omega (arith, inbox_owed-snoc i ms m)

-- A move leaves what a task has on its way, or, with all jobs fired, takes one away.
module _ {effort : ℕ → ℕ} {d : JobDispatcher} (h : Shaped d) (i : ℕ)
    (is_task : IsTask d.num_cpus i) where
  pub Move-owed :
      {d' : JobDispatcher}
      → Move effort d d'
      → (owed i d' ≡ owed i d) ⊎ ((owed i d' ≤ owed i d) × (max_jobs ≤ d.last_job_id))
  unfolding next_job
  Move-owed (rests e) = ground arith
  Move-owed (fires k is f e e') = ground arith
  Move-owed (hands k j is e) = ground (arith, queue_load-snoc (d.job_tasks k).messages j)
  Move-owed (ends e l) = ground arith
  Move-owed (listens e) = ground arith
  Move-owed (receives m ms e q) = ground arith
  Move-owed (counts j e) = ground arith
  Move-owed (goes_on j e l) = ground arith
  Move-owed (stops j e l) = inr (ground arith, l)
  Move-owed (creates j f e e') = ground arith
  Move-owed (passes j new e) = ground (arith, queue_load-snoc (d.job_tasks j.task_id).messages new)
  Move-owed (decides j e) = ground arith
  Move-owed (task_listens k t e) = ground arith
  Move-owed (task_gets k j ms t e q) = ground arith
  Move-owed (task_starts k j t e) = ground arith
  Move-owed (notifies k j t e l) =
      let from = subst (WorksFor k) e (h.tasks k t).worker in
      ground (arith, inbox_owed-snoc i d.messages (job_complete_message j))

-- ===== src/JobDispatcher/Next.antt =====
-- What each thread of src/examples/JobDispatcher/src/JobDispatcher.cpp does next while the jobs
-- run: one of the moves of `Moves`, or it waits.
use reiser_rt_core.Prelude.{
  ◌⊎◌, inl, inr, ℕ, ◌-◌, ◌≤◌, ◌<◌, ◌≡◌, refl, List, [], ◌∷◌, Option, none, some, arith, All, dec_lt,
}
use reiser_rt_core.JobTask as Task
use reiser_rt_core.JobTask.{JobData, JobTask, activated, do_job_message, notifying, work, do_job}
use reiser_rt_core.JobDispatcher.{
  JobDispatcher, Message, tickler, job_complete_message, Boss, absent, testing, receiving,
  dispatching, checking, creating, passing, deciding, finished, Runner, outside, firing, handing,
  taking, returned, failed, max_jobs, running_count, runner_step, boss_step, task_step,
}
use reiser_rt_core.JobDispatcher.Moves.{
  IsJobOf, WorksFor, IsTask, Handles, Fires, Shaped, Move, rests, fires, hands, ends, listens,
  receives, counts, goes_on, stops, creates, passes, decides, task_listens, task_gets, task_starts,
  notifies,
}

-- Every queue of a task has room, and the pool has a block for a job that is fired next.
pub record Roomy (d : JobDispatcher) : Type 0 where
  pub queues :
      (i : ℕ) → IsTask d.num_cpus i → Task.running_count (d.job_tasks i) < Task.queue_elements
  pub fire_free : (i : ℕ) (is : List ℕ) → d.runner ≡ firing (i ∷ is) → 0 < d.free
  pub create_free : (j : JobData) → d.boss ≡ creating j → 0 < d.free

-- A thread makes a move, or waits for a reason.
abbrev pub Next : (ℕ → ℕ) → JobDispatcher → Option JobDispatcher → Type 0 → Type 0
Next effort d step Reason =
    ((d' : JobDispatcher) × (step ≡ some d') × Move effort d d') ⊎ ((step ≡ none) × Reason)

module _ (effort : ℕ → ℕ) (d : JobDispatcher) (h : Shaped d) (room : Roomy d) where
  abbrev pub RunnerWaits : Type 0
  RunnerWaits = ((d.runner ≡ taking) × (d.credits ≡ 0)) ⊎ (d.runner ≡ returned)

  runner_goes :
      (r : Runner)
      → d.runner ≡ r
      → Fires d.num_cpus r
      → Next effort d (runner_step effort d) RunnerWaits
  unfolding runner_step do_job
  runner_goes outside e f = absurd f
  runner_goes (firing []) e f = inl (_, (ground arith), rests e)
  runner_goes (firing (i ∷ is)) e f =
      let some_free = room.fire_free i is e in
      inl (_, (ground arith), fires i is (d.free - 1) e (omega (arith, some_free)))
  runner_goes (handing i j is) e f =
      let runs = h.tasks i f.0 in
      let ok = room.queues i f.0 in inl (_, (ground arith), hands i j is e)
  runner_goes taking e f = elim (dec_lt 0 d.credits) [
    | yes l ↦ inl (_, (ground arith), ends e l)
    | no nl ↦ inr ((ground arith), inl (e, omega arith))
  ]
  runner_goes returned e f = inr ((ground arith), inr e)
  runner_goes (failed x) e f = absurd f

  -- The thread in `runJobs` makes a move, or waits for the semaphore, or has returned.
  pub runner_next : Next effort d (runner_step effort d) RunnerWaits
  runner_next = runner_goes d.runner refl h.runner

  abbrev pub BossWaits : Type 0
  BossWaits = (d.boss ≡ receiving) × (d.messages ≡ [])

  boss_receives :
      (ms : List Message)
      → d.messages ≡ ms
      → d.boss ≡ receiving
      → Next effort d (boss_step effort d) BossWaits
  unfolding boss_step
  boss_receives [] q e = inr ((ground arith), (e, q))
  boss_receives (m ∷ ms) q e = inl (_, (ground arith), receives m ms e q)

  boss_goes :
      (b : Boss) → d.boss ≡ b → Handles d.num_cpus b → Next effort d (boss_step effort d) BossWaits
  unfolding boss_step do_job
  boss_goes absent e f = absurd f
  boss_goes testing e f = inl (_, (ground (arith, h.active)), listens e)
  boss_goes receiving e f = boss_receives d.messages refl e
  boss_goes (dispatching tickler) e f = absurd f
  boss_goes (dispatching (job_complete_message j)) e f = inl (_, (ground arith), counts j e)
  boss_goes (checking j) e f = elim (dec_lt d.last_job_id max_jobs) [
    | yes l ↦ inl (_, (ground arith), goes_on j e l)
    | no nl ↦ inl (_, (ground arith), stops j e (omega arith))
  ]
  boss_goes (creating j) e f =
      let some_free = room.create_free j e in
      let known = (h.tasks j.task_id f).known in
      inl (_, (ground arith), creates j (d.free - 1) e (omega (arith, some_free)))
  boss_goes (passing j new) e f =
      let runs = h.tasks j.task_id f.0 in
      let ok = room.queues j.task_id f.0 in inl (_, (ground arith), passes j new e)
  boss_goes (deciding j) e f = inl (_, (ground arith), decides j e)
  boss_goes finished e f = absurd f

  -- The dispatcher's thread makes a move, or waits on an empty queue.
  pub boss_next : Next effort d (boss_step effort d) BossWaits
  boss_next = boss_goes d.boss refl h.boss

  module _ (i : ℕ) (is_task : IsTask d.num_cpus i) where
    abbrev pub TaskWaits : Type 0
    TaskWaits =
        (((d.job_tasks i).worker ≡ Task.receiving) × ((d.job_tasks i).messages ≡ []))
        ⊎ ((j : JobData) × ((d.job_tasks i).worker ≡ notifying j)
            × (Task.queue_elements ≤ running_count d))

    task_gets_at :
        (ms : List Task.Message)
        → (d.job_tasks i).messages ≡ ms
        → All (IsJobOf i) ms
        → (d.job_tasks i).worker ≡ Task.receiving
        → Next effort d (task_step i d) TaskWaits
    unfolding task_step work
    task_gets_at [] q f e = inr ((ground arith), inl (e, q))
    task_gets_at (Task.tickler ∷ ms) q f e = absurd f.0
    task_gets_at (do_job_message j ∷ ms) q f e =
        inl (_, (ground arith), task_gets i j ms is_task e q)

    task_goes :
        (w : Task.Worker)
        → (d.job_tasks i).worker ≡ w
        → WorksFor i w
        → Next effort d (task_step i d) TaskWaits
    unfolding task_step work
    task_goes Task.absent e f = absurd f
    task_goes Task.testing e f =
        let active = (h.tasks i is_task).active in inl (_, (ground arith), task_listens i is_task e)
    task_goes Task.receiving e f =
        task_gets_at (d.job_tasks i).messages refl (h.tasks i is_task).queue e
    task_goes (Task.dispatching Task.tickler) e f = absurd f
    task_goes (Task.dispatching (do_job_message j)) e f =
        let has = (h.tasks i is_task).notifies in inl (_, (ground arith), task_starts i j is_task e)
    task_goes (notifying j) e f = elim (dec_lt (running_count d) Task.queue_elements) [
      | yes l ↦ let active = h.active in inl (_, (ground arith), notifies i j is_task e l)
      | no nl ↦ let active = h.active in inr ((ground arith), inr (j, e, omega arith))
    ]
    task_goes Task.finished e f = absurd f

    -- The thread of a task makes a move, or waits on an empty queue, or for room in the queue of
    -- the dispatcher.
    pub task_next : Next effort d (task_step i d) TaskWaits
    task_next = task_goes (d.job_tasks i).worker refl (h.tasks i is_task).worker

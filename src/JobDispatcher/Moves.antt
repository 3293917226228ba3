-- ===== src/JobDispatcher/Moves.antt =====
-- The steps of a dispatcher of src/examples/JobDispatcher/src/JobDispatcher.cpp while its jobs run:
-- everybody is active, no pool is exhausted, and no task has more messages than its queue takes.
use reiser_rt_core.Prelude.{
  ℕ, suc, ◌+◌, ◌-◌, ◌≤◌, ◌<◌, ◌≡◌, List, [], ◌∷◌, ◌++◌, true, All, ◌==◌, if◌then◌else◌,
}
use reiser_rt_core.Prelude.Families.{update}
use reiser_rt_core.Prelude.Words.{u32}
use reiser_rt_core.JobTask as Task
use reiser_rt_core.JobTask.{JobData, JobTask, activated, do_job_message, notifying, work, do_job}
use reiser_rt_core.JobDispatcher.{
  JobDispatcher, Message, tickler, job_complete_message, Boss, absent, testing, receiving,
  dispatching, checking, creating, passing, deciding, finished, Runner, outside, firing, handing,
  taking, returned, failed, max_jobs, running_count, next_job,
}

-- The shapes that the parts have while the jobs run.
abbrev pub IsJobOf : ℕ → Task.Message → Type 0
IsJobOf i Task.tickler = ⊥
IsJobOf i (do_job_message j) = j.task_id ≡ i

abbrev pub WorksFor : ℕ → Task.Worker → Type 0
WorksFor i Task.absent = ⊥
WorksFor i Task.testing = Unit
WorksFor i Task.receiving = Unit
WorksFor i (Task.dispatching m) = IsJobOf i m
WorksFor i (notifying j) = j.task_id ≡ i
WorksFor i Task.finished = ⊥

pub record Runs (i : ℕ) (t : JobTask) : Type 0 where
  pub known : t.task_id ≡ i
  pub active : t.state ≡ activated
  pub notifies : t.has_notifier ≡ true
  pub queue : All (IsJobOf i) t.messages
  pub worker : WorksFor i t.worker

abbrev pub IsTask : ℕ → ℕ → Type 0
IsTask n i = (0 < i) × (i < n)

abbrev pub Completes : ℕ → Message → Type 0
Completes n tickler = ⊥
Completes n (job_complete_message j) = IsTask n j.task_id

abbrev pub Handles : ℕ → Boss → Type 0
Handles n absent = ⊥
Handles n testing = Unit
Handles n receiving = Unit
Handles n (dispatching m) = Completes n m
Handles n (checking j) = IsTask n j.task_id
Handles n (creating j) = IsTask n j.task_id
Handles n (passing j new) = IsTask n j.task_id × (new.task_id ≡ j.task_id)
Handles n (deciding j) = Unit
Handles n finished = ⊥

abbrev pub Fires : ℕ → Runner → Type 0
Fires n outside = ⊥
Fires n (firing is) = All (IsTask n) is
Fires n (handing i j is) = IsTask n i × (j.task_id ≡ i) × All (IsTask n) is
Fires n taking = Unit
Fires n returned = Unit
Fires n (failed e) = ⊥

pub record Shaped (d : JobDispatcher) : Type 0 where
  pub active : d.state ≡ activated
  pub tasks : (i : ℕ) → IsTask d.num_cpus i → Runs i (d.job_tasks i)
  pub inbox : All (Completes d.num_cpus) d.messages
  pub boss : Handles d.num_cpus d.boss
  pub runner : Fires d.num_cpus d.runner

-- A task with one more job in its queue, and with its worker elsewhere.
abbrev pub queued : JobData → JobTask → JobTask
queued j t = record t { messages = t.messages ++ do_job_message j ∷ [] }

abbrev pub with_task : ℕ → JobTask → JobDispatcher → JobDispatcher
with_task i t d = record d { job_tasks = update d.job_tasks i t }

pub data Move (effort : ℕ → ℕ) (d : JobDispatcher) : JobDispatcher → Type 0 where
  rests : d.runner ≡ firing [] → Move effort d (record d { runner = taking })
  fires :
      (i : ℕ) (is : List ℕ) (f : ℕ)
      → d.runner ≡ firing (i ∷ is)
      → d.free ≡ suc f
      → Move effort d (record d {
        last_job_id = u32 (d.last_job_id + 1);
        free = f;
        runner = handing i (next_job effort i d) is;
      })
  hands :
      (i : ℕ) (j : JobData) (is : List ℕ)
      → d.runner ≡ handing i j is
      → Move effort d (record (with_task i (queued j (d.job_tasks i)) d) { runner = firing is })
  ends :
      d.runner ≡ taking
      → 0 < d.credits
      → Move effort d (record d { credits = d.credits - 1; runner = returned })
  listens : d.boss ≡ testing → Move effort d (record d { boss = receiving })
  receives :
      (m : Message) (ms : List Message)
      → d.boss ≡ receiving
      → d.messages ≡ m ∷ ms
      → Move effort d (record d { messages = ms; boss = dispatching m })
  counts :
      (j : JobData)
      → d.boss ≡ dispatching (job_complete_message j)
      → Move effort d
          (record d { completed_job_count = u32 (d.completed_job_count + 1); boss = checking j })
  goes_on :
      (j : JobData)
      → d.boss ≡ checking j
      → d.last_job_id < max_jobs
      → Move effort d (record d { boss = creating j })
  stops :
      (j : JobData)
      → d.boss ≡ checking j
      → max_jobs ≤ d.last_job_id
      → Move effort d (record d { boss = deciding j })
  creates :
      (j : JobData) (f : ℕ)
      → d.boss ≡ creating j
      → d.free ≡ suc f
      → Move effort d (record d {
        last_job_id = u32 (d.last_job_id + 1);
        free = f;
        boss = passing j (next_job effort j.task_id d);
      })
  passes :
      (j new : JobData)
      → d.boss ≡ passing j new
      → Move effort d (record (with_task j.task_id (queued new (d.job_tasks j.task_id)) d) {
        boss = deciding j;
      })
  decides :
      (j : JobData)
      → d.boss ≡ deciding j
      → Move effort d (record d {
        credits = if d.completed_job_count == max_jobs then d.credits + 1 else d.credits;
        free = d.free + 1;
        boss = testing;
      })
  task_listens :
      (i : ℕ)
      → IsTask d.num_cpus i
      → (d.job_tasks i).worker ≡ Task.testing
      → Move effort d (with_task i (record (d.job_tasks i) { worker = Task.receiving }) d)
  task_gets :
      (i : ℕ) (j : JobData) (ms : List Task.Message)
      → IsTask d.num_cpus i
      → (d.job_tasks i).worker ≡ Task.receiving
      → (d.job_tasks i).messages ≡ do_job_message j ∷ ms
      → Move effort d (
          with_task i
            (record (d.job_tasks i) { messages = ms; worker = Task.dispatching (do_job_message j) })
            d)
  task_starts :
      (i : ℕ) (j : JobData)
      → IsTask d.num_cpus i
      → (d.job_tasks i).worker ≡ Task.dispatching (do_job_message j)
      → Move effort d (with_task i (record (d.job_tasks i) { worker = notifying j }) d)
  notifies :
      (i : ℕ) (j : JobData)
      → IsTask d.num_cpus i
      → (d.job_tasks i).worker ≡ notifying j
      → running_count d < Task.queue_elements
      → Move effort d (record (with_task i (record (d.job_tasks i) { worker = Task.testing }) d) {
        messages = d.messages ++ job_complete_message j ∷ [];
      })

-- ===== src/JobDispatcher/Accounts.antt =====
-- Where the jobs of src/examples/JobDispatcher/src/JobDispatcher.cpp are: how many each task has on
-- its way, and how many objects of the pool are lent.
use reiser_rt_core.Prelude.{ℕ, ◌+◌, List, [], ◌∷◌, length}
use reiser_rt_core.Prelude.Occurrences.{same, occurrences}
use reiser_rt_core.Prelude.Families.{total}
use reiser_rt_core.JobTask as Task
use reiser_rt_core.JobTask.{JobData, JobTask, do_job_message, notifying}
use reiser_rt_core.JobDispatcher.{
  JobDispatcher, Message, tickler, job_complete_message, Boss, dispatching, checking, creating,
  passing, deciding, Runner, firing, handing, returned,
}

-- The jobs that a task has been given and has not notified.
abbrev pub queue_load : List Task.Message → ℕ
queue_load [] = 0
queue_load (Task.tickler ∷ ms) = queue_load ms
queue_load (do_job_message j ∷ ms) = 1 + queue_load ms

abbrev pub worker_load : Task.Worker → ℕ
worker_load (Task.dispatching (do_job_message j)) = 1
worker_load (notifying j) = 1
worker_load _ = 0

abbrev pub load : JobTask → ℕ
load t = queue_load t.messages + worker_load t.worker

-- What stands in the dispatcher for task `i`: a completed job that may bring it another one, that
-- other job, and a first job that is still to be fired.
abbrev pub message_owed : ℕ → Message → ℕ
message_owed i tickler = 0
message_owed i (job_complete_message j) = same j.task_id i

abbrev pub inbox_owed : ℕ → List Message → ℕ
inbox_owed i [] = 0
inbox_owed i (m ∷ ms) = message_owed i m + inbox_owed i ms

abbrev pub boss_owed : ℕ → Boss → ℕ
boss_owed i (dispatching m) = message_owed i m
boss_owed i (checking j) = same j.task_id i
boss_owed i (creating j) = same j.task_id i
boss_owed i (passing j new) = same j.task_id i
boss_owed i _ = 0

abbrev pub runner_owed : ℕ → Runner → ℕ
runner_owed i (firing is) = occurrences i is
runner_owed i (handing k j is) = same k i + occurrences i is
runner_owed i _ = 0

abbrev pub owed : ℕ → JobDispatcher → ℕ
owed i d =
    load (d.job_tasks i) + inbox_owed i d.messages + boss_owed i d.boss + runner_owed i d.runner

-- The jobs that are fired and not counted as completed.
abbrev pub boss_in_flight : Boss → ℕ
boss_in_flight (dispatching _) = 1
boss_in_flight (passing _ _) = 1
boss_in_flight _ = 0

abbrev pub runner_in_flight : Runner → ℕ
runner_in_flight (handing _ _ _) = 1
runner_in_flight _ = 0

abbrev pub task_loads : JobDispatcher → ℕ
task_loads d = total load d.num_cpus d.job_tasks

abbrev pub in_flight : JobDispatcher → ℕ
in_flight d = task_loads d + length d.messages + boss_in_flight d.boss + runner_in_flight d.runner

-- The objects of the pool: with the jobs in flight, the one of the message in the boss's hands.
abbrev pub boss_lent : Boss → ℕ
boss_lent (dispatching _) = 1
boss_lent (checking _) = 1
boss_lent (creating _) = 1
boss_lent (passing _ _) = 2
boss_lent (deciding _) = 1
boss_lent _ = 0

abbrev pub lent : JobDispatcher → ℕ
lent d = task_loads d + length d.messages + boss_lent d.boss + runner_in_flight d.runner

-- The tasks whose first job is still to be fired.
abbrev pub left : Runner → ℕ
left (firing is) = length is
left (handing _ _ is) = length is
left _ = 0

-- A handler has counted its job and not yet looked whether it was the last one.
abbrev pub undecided : Boss → ℕ
undecided (checking _) = 1
undecided (creating _) = 1
undecided (passing _ _) = 1
undecided (deciding _) = 1
undecided _ = 0

abbrev pub about_to_create : Boss → ℕ
about_to_create (creating _) = 1
about_to_create _ = 0

abbrev pub is_returned : Runner → ℕ
is_returned returned = 1
is_returned _ = 0

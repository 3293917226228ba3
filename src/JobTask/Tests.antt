-- ===== src/JobTask/Tests.antt =====
-- Tasks of src/examples/JobDispatcher/src/JobTask.cpp at work.
use reiser_rt_core.Prelude.{◌≡◌, ◌≢◌, refl, true, List, [], ◌∷◌, arith}
use reiser_rt_core.Outcome.{returns, throws, fault, client}
use reiser_rt_core.JobTask.{
  JobData, State, activated, Message, do_job_message, Worker, testing, receiving, notifying,
  finished, JobTask, waits, running_count, queue_elements, construct,
  register_job_complete_notifier, activate, deactivate, destruct, do_job, joins, work, works,
}
use reiser_rt_core.JobTask.Lifecycle.{
  Lives, made, registers, activates, does, steps, reactivation_faults, destruct-joins,
  deactivate_strands,
}

-- A task with its number, its messages and its worker.
abbrev task : State → List Message → Worker → JobTask
task s ms w = record { task_id = 5; state = s; messages = ms; worker = w; has_notifier = true }

abbrev job : JobData
job = record { estimated_effort_m_secs = 12000; task_id = 5; job_id = 9 }

reactivation_faults_example : (activate (deactivate (task activated [] receiving)).0).0 ≡ fault
reactivation_faults_example = reactivation_faults (task activated [] receiving) (omega arith) refl

-- A task whose worker is in the notifier, with one more job in its queue.
abbrev busy : JobTask
busy = task activated (do_job_message job ∷ []) (notifying job)

busy-Lives : Lives busy
unfolding construct register_job_complete_notifier activate do_job work
busy-Lives = does job (
    steps (returns tt)
      (steps (returns tt) (steps (returns tt) (does job (activates (registers (made 5)))))))

destruct-joins_example :
    ((destruct busy).1 ≢ waits)
    × (joins (works 4 (λ _. throws (client 1)) (destruct busy).0) ≡ true)
destruct-joins_example = destruct-joins busy (λ _. throws (client 1)) busy-Lives (λ i e. cc)

abbrev full : JobTask
full = let m = do_job_message job in task activated (m ∷ m ∷ m ∷ m ∷ []) testing

deactivate_strands_example :
    let (t, posting) = deactivate full in
    (posting ≡ waits)
    × (running_count (works 3 (λ _. returns tt) t) ≡ queue_elements)
    × ((works 3 (λ _. returns tt) t).worker ≡ finished)
deactivate_strands_example = deactivate_strands full (λ _. returns tt) 2 (omega arith) refl refl

-- A posted job goes to the notifier: from its queue in three steps.
do_job-works :
    (works 3 (λ _. returns tt) (do_job job (task activated [] testing)).0).worker ≡ notifying job
unfolding do_job works work
do_job-works = refl

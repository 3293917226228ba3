-- ===== src/JobDispatcher/Startup.antt =====
-- How the client of src/examples/JobDispatcher/src/main.cpp makes a dispatcher, starts and stops
-- it. `order` is the order in which the unordered map of tasks is gone through.
use reiser_rt_core.Prelude.{
  ℕ, zero, suc, ◌+◌, ◌^◌, List, [], ◌∷◌, ◌++◌, ltb, leb, ◌==◌, ◌&&◌, if◌then◌else◌,
}
use reiser_rt_core.Prelude.Families.{update}
use reiser_rt_core.Prelude.Words.{u32}
use reiser_rt_core.Outcome.{Outcome, returns, throws, fault}
use reiser_rt_core.JobTask as Task
use reiser_rt_core.JobTask.{
  State, defunct, constructed, activating, activated, underlying, JobTask, Posting, posted, waits,
  skipped, register_job_complete_notifier,
}
use reiser_rt_core.JobDispatcher.{
  JobDispatcher, tickler, Boss, absent, testing, outside, firing, running_count, pool_elements,
}

-- The loop of the constructor, with the rounds left: the tasks' numbers from `i` on.
unfoldable pub ids_from : ℕ → ℕ → ℕ → List ℕ
ids_from zero i num_cpus = []
ids_from (suc rounds) i num_cpus =
    let rest = ids_from rounds (u32 (i + 1)) num_cpus in if num_cpus == i then [] else i ∷ rest

-- The keys of `jobTasks`.
unfoldable pub task_ids : ℕ → List ℕ
task_ids num_cpus = ids_from (2 ^ 32) 1 num_cpus

-- The constructor. `job_tasks` gives a task at every number; the map has those of `task_ids`.
unfoldable pub construct : ℕ → JobDispatcher
construct num_cpus = record {
  num_cpus = num_cpus;
  state = constructed;
  completed_job_count = 0;
  last_job_id = 0;
  free = pool_elements num_cpus;
  messages = [];
  boss = absent;
  credits = 0;
  job_tasks = λ i. register_job_complete_notifier (Task.construct i);
  runner = outside;
}

-- The loop of `activate` over the tasks.
unfoldable pub activate_tasks : List ℕ → (ℕ → JobTask) → Outcome (Unit {0}) × (ℕ → JobTask)
activate_tasks [] tasks = (returns tt, tasks)
activate_tasks (i ∷ is) tasks =
    let (o, t) = Task.activate (tasks i) in
    elim o [
      | returns _ ↦ activate_tasks is (update tasks i t)
      | throws e ↦ (throws e, update tasks i t)
      | fault ↦ (fault, update tasks i t)
    ]

-- `activate` behind its loop.
activate_finish :
    Outcome (Unit {0}) × (ℕ → JobTask) → JobDispatcher → Outcome (Unit {0}) × JobDispatcher
activate_finish (returns _, tasks) d = (
  returns tt,
  record d {
    job_tasks = tasks;
    state = if underlying d.state == underlying activating then activated else d.state;
  },
)
activate_finish (throws e, tasks) d = (throws e, record d { job_tasks = tasks })
activate_finish (fault, tasks) d = (fault, record d { job_tasks = tasks })

-- `activate` from its start of the thread on: the program ends if the thread is joinable.
activate_rest : Boss → List ℕ → JobDispatcher → Outcome (Unit {0}) × JobDispatcher
activate_rest absent order d =
    activate_finish (activate_tasks order d.job_tasks) (record d { boss = testing })
activate_rest _ order d = (fault, d)

-- `activate`, with no other call between its two exchanges of the state.
unfoldable pub activate : List ℕ → JobDispatcher → Outcome (Unit {0}) × JobDispatcher
unfolding activate_rest activate_finish
activate order d =
    if underlying d.state == underlying constructed
    then activate_rest d.boss order (record d { state = activating })
    else (returns tt, d)

-- The loop of `deactivate` over the tasks, up to one that waits.
unfoldable pub deactivate_tasks : List ℕ → (ℕ → JobTask) → (ℕ → JobTask) × Posting
deactivate_tasks [] tasks = (tasks, posted)
deactivate_tasks (i ∷ is) tasks =
    let (t, p) = Task.deactivate (tasks i) in
    elim p [
      | posted ↦ deactivate_tasks is (update tasks i t)
      | skipped ↦ deactivate_tasks is (update tasks i t)
      | waits ↦ (update tasks i t, waits)
    ]

-- `messageQueue.emplace<TicklerMessage>`
abbrev tickle : JobDispatcher → JobDispatcher × Posting
tickle d =
    if ltb (running_count d) Task.queue_elements
    then (record d { messages = d.messages ++ tickler ∷ [] }, posted)
    else (d, waits)

-- `deactivate` behind its loop.
deactivate_finish : (ℕ → JobTask) × Posting → JobDispatcher → JobDispatcher × Posting
deactivate_finish (tasks, waits) d = (record d { job_tasks = tasks }, waits)
deactivate_finish (tasks, posted) d = tickle (record d { job_tasks = tasks; state = constructed })
deactivate_finish (tasks, skipped) d = tickle (record d { job_tasks = tasks; state = constructed })

unfoldable pub deactivate : List ℕ → JobDispatcher → JobDispatcher × Posting
unfolding deactivate_finish
deactivate order d =
    if ltb (underlying d.state) (underlying activating)
    then (d, skipped)
    else deactivate_finish (deactivate_tasks order d.job_tasks) d

-- The destructor up to its join.
unfoldable pub destruct : JobDispatcher → JobDispatcher × Posting
destruct d =
    let gone = record d { state = defunct } in
    if leb (underlying activating) (underlying d.state) && (running_count d == 0)
    then tickle gone
    else (gone, skipped)

-- The call of `runJobs`.
abbrev pub run_jobs : List ℕ → JobDispatcher → JobDispatcher
run_jobs order d = record d { runner = firing order }

-- ===== src/JobDispatcher.antt =====
-- src/examples/JobDispatcher/src/JobDispatcher.cpp: a dispatcher that fires one job at each of its
-- tasks, and at each completed job another one, until 128 are fired. `effort` is what the random
-- generator of JobData.cpp gives for each job.
pub mod Accounts
pub mod Moves
pub mod Shapes
pub mod Owing
pub mod Counting
pub mod Places
pub mod Next
pub mod Sound
pub mod Measure
pub mod Completion
pub mod Startup
pub mod Ids
pub mod Starting
pub mod Client
mod Tests
use reiser_rt_core.Prelude.{
  ℕ, zero, suc, ◌+◌, ◌-◌, ◌*◌, ◌^◌, ◌≡◌, List, [], ◌∷◌, ◌++◌, Bool, true, false, Option, none, some,
  length, ltb, leb, ◌==◌, ◌&&◌, if◌then◌else◌, built,
}
use reiser_rt_core.Prelude.Families.{update}
use reiser_rt_core.Prelude.Words.{u32}
use reiser_rt_core.Outcome.{Exception, Outcome, returns, throws, fault, ring_buffer_underflow}
use reiser_rt_core.RingBufferSimple.{num_bits_for_ne}
use reiser_rt_core.JobTask as Task
use reiser_rt_core.JobTask.{
  JobData, State, defunct, constructed, activating, activated, underlying, JobTask, do_job_message,
  notifying, Posting, posted, waits, skipped, do_job, work,
}

abbrev pub max_jobs : ℕ
max_jobs = 128

pub data Message : Type 0 where
  tickler : Message
  job_complete_message : JobData → Message

-- Where the thread of `messageQueueProc` stands: there is none; at the test of the loop; in
-- `getAndDispatch` before it has a message; before the dispatch of one; in `onJobCompleteMessage`
-- before the test for more jobs, before the creation of the next one, in `doJob` with it, and
-- before the test for the last one; behind the loop.
pub data Boss : Type 0 where
  absent testing receiving : Boss
  dispatching : Message → Boss
  checking creating : JobData → Boss
  passing : JobData → JobData → Boss
  deciding : JobData → Boss
  finished : Boss

-- Where the client's thread stands: outside `runJobs`; in it, at the head of the loop with tasks
-- left; in `doJob` with a job for a task; in the take of the semaphore; behind it; or it was left
-- by an exception.
pub data Runner : Type 0 where
  outside : Runner
  firing : List ℕ → Runner
  handing : ℕ → JobData → List ℕ → Runner
  taking returned : Runner
  failed : Exception → Runner

-- `free` counts the blocks that the pool can lend, `credits` is the count of the completion
-- semaphore. The message queue is a queue of four messages, like a task's.
pub record JobDispatcher : Type 0 where
  pub num_cpus : ℕ
  pub state : State
  pub completed_job_count : ℕ
  pub last_job_id : ℕ
  pub free : ℕ
  pub messages : List Message
  pub boss : Boss
  pub credits : ℕ
  pub job_tasks : ℕ → JobTask
  pub runner : Runner

abbrev pub boss_in_hand : Boss → ℕ
boss_in_hand absent = 0
boss_in_hand testing = 0
boss_in_hand receiving = 0
boss_in_hand finished = 0
boss_in_hand _ = 1

abbrev pub running_count : JobDispatcher → ℕ
running_count d = length d.messages + boss_in_hand d.boss

-- How many blocks the pool of `numCPUs << 1` objects has.
unfoldable pub pool_elements : ℕ → ℕ
pool_elements num_cpus = 2 ^ num_bits_for_ne (u32 (num_cpus * 2))

-- `pool.createObj`, which throws if no block is free.
unfoldable pub next_job : (ℕ → ℕ) → ℕ → JobDispatcher → JobData
next_job effort i d = record {
  estimated_effort_m_secs = effort (u32 (d.last_job_id + 1));
  task_id = i;
  job_id = u32 (d.last_job_id + 1);
}

-- `++lastJobId` and `createObj` in `runJobs`, with so many blocks free.
fire : ℕ → (ℕ → ℕ) → ℕ → List ℕ → JobDispatcher → JobDispatcher
fire zero effort i is d = record d {
  last_job_id = u32 (d.last_job_id + 1);
  runner = failed ring_buffer_underflow;
}
fire (suc f) effort i is d = record d {
  last_job_id = u32 (d.last_job_id + 1);
  free = f;
  runner = handing i (next_job effort i d) is;
}

-- `doJob` in `runJobs`; a job that is not posted is destroyed.
hand : Posting → ℕ → JobTask → List ℕ → JobDispatcher → Option JobDispatcher
hand posted i t is d = some (record d { job_tasks = update d.job_tasks i t; runner = firing is })
hand skipped i t is d = some (record d { free = d.free + 1; runner = firing is })
hand waits i t is d = none

-- One step of `runJobs`; `none` if the thread waits, or is not in it any more.
run_at : Runner → (ℕ → ℕ) → JobDispatcher → Option JobDispatcher
run_at outside effort d = none
run_at (firing []) effort d = some (record d { runner = taking })
run_at (firing (i ∷ is)) effort d = some (fire d.free effort i is d)
run_at (handing i j is) effort d = let (t, p) = do_job j (d.job_tasks i) in hand p i t is d
run_at taking effort d =
    if ltb 0 d.credits then some (record d { credits = d.credits - 1; runner = returned }) else none
run_at returned effort d = none
run_at (failed e) effort d = none

unfoldable pub runner_step : (ℕ → ℕ) → JobDispatcher → Option JobDispatcher
unfolding run_at fire hand next_job
runner_step effort d = run_at d.runner effort d

-- `getAndDispatch` takes the oldest message; it waits while there is none.
receive : List Message → JobDispatcher → Option JobDispatcher
receive [] d = none
receive (m ∷ ms) d = some (record d { messages = ms; boss = dispatching m })

-- The dispatch of a message, up to the test for more jobs.
dispatch : Message → JobDispatcher → JobDispatcher
dispatch tickler d = record d { boss = testing }
dispatch (job_complete_message j) d = record d {
  completed_job_count = u32 (d.completed_job_count + 1);
  boss = checking j;
}

-- `++lastJobId` and `createObj` in `onJobCompleteMessage`, with so many blocks free. The loop takes
-- an exception for the end of its task, and the message goes with its job.
create : ℕ → (ℕ → ℕ) → JobData → JobDispatcher → JobDispatcher
create zero effort j d = record d {
  last_job_id = u32 (d.last_job_id + 1);
  free = d.free + 1;
  state = defunct;
  boss = testing;
}
create (suc f) effort j d = record d {
  last_job_id = u32 (d.last_job_id + 1);
  free = f;
  boss = passing j (next_job effort (d.job_tasks j.task_id).task_id d);
}

-- `doJob` in `onJobCompleteMessage`.
pass : Posting → JobData → JobTask → JobDispatcher → Option JobDispatcher
pass posted j t d =
    some (record d { job_tasks = update d.job_tasks j.task_id t; boss = deciding j })
pass skipped j t d = some (record d { free = d.free + 1; boss = deciding j })
pass waits j t d = none

-- One step of `messageQueueProc`. With its message, the handler's job is destroyed.
boss_at : Boss → (ℕ → ℕ) → JobDispatcher → Option JobDispatcher
boss_at absent effort d = none
boss_at testing effort d =
    if leb (underlying activating) (underlying d.state)
    then some (record d { boss = receiving })
    else some (record d { boss = finished })
boss_at receiving effort d = receive d.messages d
boss_at (dispatching m) effort d = some (dispatch m d)
boss_at (checking j) effort d =
    some (record d { boss = if ltb d.last_job_id max_jobs then creating j else deciding j })
boss_at (creating j) effort d = some (create d.free effort j d)
boss_at (passing j new) effort d = let (t, p) = do_job new (d.job_tasks j.task_id) in pass p j t d
boss_at (deciding j) effort d = some (record d {
  credits = if d.completed_job_count == max_jobs then d.credits + 1 else d.credits;
  free = d.free + 1;
  boss = testing;
})
boss_at finished effort d = none

unfoldable pub boss_step : (ℕ → ℕ) → JobDispatcher → Option JobDispatcher
unfolding boss_at receive dispatch create pass next_job
boss_step effort d = boss_at d.boss effort d

-- A task's thread makes a step of its own.
abbrev works_on : ℕ → JobDispatcher → JobDispatcher
works_on i d = record d { job_tasks = update d.job_tasks i (work (returns tt) (d.job_tasks i)) }

-- `notifyJobCompleteCallback`, which the thread of task `i` calls; a job that is not posted is
-- destroyed.
notify : ℕ → JobData → JobDispatcher → Option JobDispatcher
notify i j d =
    if underlying d.state == underlying activated
    then (if ltb (running_count d) Task.queue_elements
        then some (record (works_on i d) { messages = d.messages ++ job_complete_message j ∷ [] })
        else none)
    else some (record (works_on i d) { free = d.free + 1 })

-- A message of a task to its worker.
task_receives : List Task.Message → ℕ → JobDispatcher → Option JobDispatcher
task_receives [] i d = none
task_receives (_ ∷ _) i d = some (works_on i d)

-- One step of the thread of task `i`.
task_at : Task.Worker → ℕ → JobDispatcher → Option JobDispatcher
task_at Task.absent i d = none
task_at Task.testing i d = some (works_on i d)
task_at Task.receiving i d = task_receives (d.job_tasks i).messages i d
task_at (Task.dispatching Task.tickler) i d = some (works_on i d)
task_at (Task.dispatching (do_job_message j)) i d =
    if (d.job_tasks i).has_notifier
    then some (works_on i d)
    else some (record (works_on i d) { free = d.free + 1 })
task_at (notifying j) i d = notify i j d
task_at Task.finished i d = none

unfoldable pub task_step : ℕ → JobDispatcher → Option JobDispatcher
unfolding task_at notify task_receives
task_step i d = task_at (d.job_tasks i).worker i d

-- ===== src/JobTask.antt =====
-- src/examples/JobDispatcher/src/JobTask.cpp: a task with a state, a message queue and a thread
-- that works on the messages.
pub mod Lifecycle
mod Tests
use reiser_rt_core.Prelude.{
  ℕ, zero, suc, ◌+◌, List, [], ◌∷◌, ◌++◌, Bool, true, false, length, ltb, leb, ◌==◌, ◌&&◌,
  if◌then◌else◌,
}
use reiser_rt_core.Outcome.{Outcome, returns, throws, fault}

-- src/examples/JobDispatcher/src/JobData.hpp
pub record JobData : Type 0 where
  pub estimated_effort_m_secs : ℕ
  pub task_id : ℕ
  pub job_id : ℕ

-- `JobTask::Imple::State`, and its values with one added.
pub data State : Type 0 where
  defunct constructed activating activated : State

abbrev pub underlying : State → ℕ
underlying defunct = 0
underlying constructed = 1
underlying activating = 2
underlying activated = 3

pub data Message : Type 0 where
  tickler : Message
  do_job_message : JobData → Message

-- Where the thread of `messageQueueProc` stands: there is none; at the test of the loop; in
-- `getAndDispatch` before it has a message; in the dispatch of one; in the notifier; behind the
-- loop. From its test on, it is joinable.
pub data Worker : Type 0 where
  absent testing receiving : Worker
  dispatching : Message → Worker
  notifying : JobData → Worker
  finished : Worker

-- The message queue is a queue of four messages: those that wait, oldest first, and the one in the
-- worker's hands.
pub record JobTask : Type 0 where
  pub task_id : ℕ
  pub state : State
  pub messages : List Message
  pub worker : Worker
  pub has_notifier : Bool

abbrev pub queue_elements : ℕ
queue_elements = 4

abbrev pub in_hand : Worker → ℕ
in_hand (dispatching _) = 1
in_hand (notifying _) = 1
in_hand _ = 0

abbrev pub joinable : Worker → Bool
joinable absent = false
joinable _ = true

-- How a call that may post a message comes out: it has posted it; it waits in `emplace` while four
-- messages are there; it has returned with no message posted.
pub data Posting : Type 0 where
  posted waits skipped : Posting

-- `runningCount` of the queue's statistics.
abbrev pub running_count : JobTask → ℕ
running_count t = length t.messages + in_hand t.worker

-- `messageQueue.emplace`
abbrev pub emplace : Message → JobTask → JobTask × Posting
emplace m t =
    if ltb (running_count t) queue_elements
    then (record t { messages = t.messages ++ m ∷ [] }, posted)
    else (t, waits)

unfoldable pub construct : ℕ → JobTask
construct the_task_id = record {
  task_id = the_task_id;
  state = constructed;
  messages = [];
  worker = absent;
  has_notifier = false;
}

unfoldable pub register_job_complete_notifier : JobTask → JobTask
register_job_complete_notifier t =
    if underlying t.state == underlying constructed then record t { has_notifier = true } else t

-- `msgQueueProcThread = std::thread{ … }`: the program ends if the thread is joinable.
start_thread : Worker → Outcome Worker
start_thread absent = returns testing
start_thread _ = fault

-- `activate` behind its first exchange of the state.
activate_rest : Outcome Worker → JobTask → Outcome (Unit {0}) × JobTask
activate_rest (returns w) t = (
  returns tt,
  record t {
    worker = w;
    state = if underlying t.state == underlying activating then activated else t.state;
  },
)
activate_rest (throws e) t = (throws e, t)
activate_rest fault t = (fault, t)

-- `activate`, with no other call between its two exchanges of the state.
unfoldable pub activate : JobTask → Outcome (Unit {0}) × JobTask
unfolding activate_rest start_thread
activate t =
    if underlying t.state == underlying constructed
    then activate_rest (start_thread t.worker) (record t { state = activating })
    else (returns tt, t)

unfoldable pub deactivate : JobTask → JobTask × Posting
deactivate t =
    if ltb (underlying t.state) (underlying activating)
    then (t, skipped)
    else emplace tickler (record t { state = constructed })

unfoldable pub do_job : JobData → JobTask → JobTask × Posting
do_job j t =
    if underlying t.state == underlying activated
    then emplace (do_job_message j) t
    else (t, skipped)

-- The destructor up to its join.
unfoldable pub destruct : JobTask → JobTask × Posting
destruct t =
    let gone = record t { state = defunct } in
    if leb (underlying activating) (underlying t.state) && (running_count t == 0)
    then emplace tickler gone
    else (gone, skipped)

-- The join returns.
abbrev pub joins : JobTask → Bool
joins t = elim t.worker [ absent ↦ true | finished ↦ true | _ ↦ false ]

-- `getAndDispatch` takes the oldest message; it waits while there is none.
receive : List Message → JobTask → JobTask
receive [] t = t
receive (m ∷ ms) t = record t { messages = ms; worker = dispatching m }

-- `dispatch` of a message, up to the notifier: `onDoJobMessage` sleeps, and calls it if there is
-- one.
dispatch : Message → Bool → Worker
dispatch tickler has = testing
dispatch (do_job_message j) has = if has then notifying j else testing

-- The loop takes an exception for the end of its task.
noted : Outcome (Unit {0}) → JobTask → JobTask
noted (returns _) t = record t { worker = testing }
noted (throws _) t = record t { worker = testing; state = defunct }
noted fault t = t

-- One step of `messageQueueProc`; `notified` is what becomes of the call of the notifier.
work_at : Worker → Outcome (Unit {0}) → JobTask → JobTask
work_at absent notified t = t
work_at testing notified t =
    if leb (underlying activating) (underlying t.state)
    then record t { worker = receiving }
    else record t { worker = finished }
work_at receiving notified t = receive t.messages t
work_at (dispatching m) notified t = record t { worker = dispatch m t.has_notifier }
work_at (notifying j) notified t = noted notified t
work_at finished notified t = t

unfoldable pub work : Outcome (Unit {0}) → JobTask → JobTask
unfolding work_at receive dispatch noted
work notified t = work_at t.worker notified t

-- `n` steps, with the outcomes of the calls of the notifier.
pub works : ℕ → (ℕ → Outcome (Unit {0})) → JobTask → JobTask
works zero notified t = t
works (suc n) notified t = works n (λ i. notified (suc i)) (work (notified 0) t)

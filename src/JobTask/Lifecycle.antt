-- ===== src/JobTask/Lifecycle.antt =====
-- The life of a task of src/examples/JobDispatcher/src/JobTask.cpp: how it starts and how it ends.
use reiser_rt_core.Prelude.{
  ◌⊎◌, ℕ, zero, suc, ◌+◌, ◌≤◌, ◌<◌, ◌≡◌, ◌≢◌, append-ne-nil, refl, length-append, [], ◌∷◌, true,
  arith, length,
}
use reiser_rt_core.Outcome.{Outcome, returns, fault}
use reiser_rt_core.JobTask.{
  tickler, JobTask, JobData, constructed, activating, activated, underlying, absent, testing,
  receiving, finished, posted, waits, joinable, running_count, queue_elements, construct, activate,
  deactivate, do_job, destruct, joins, work, works, register_job_complete_notifier,
}

-- A worker that waits for a message on an empty queue has a task that is still active.
abbrev pub Attended : JobTask → Type 0
Attended t = t.worker ≡ receiving → t.messages ≡ [] → underlying activating ≤ underlying t.state

module _ (t : JobTask) (h : Attended t) where
  pub activate-Attended : Attended (activate t).1
  unfolding activate
  activate-Attended = λ e f. ground (arith, h)

  pub deactivate-Attended : Attended (deactivate t).0
  unfolding deactivate
  deactivate-Attended = λ e f. ground (arith, h, append-ne-nil t.messages tickler)

  pub do_job-Attended : (j : JobData) → Attended (do_job j t).0
  unfolding do_job
  do_job-Attended j = λ e f. ground (arith, h)

  pub destruct-Attended : Attended (destruct t).0
  unfolding destruct
  destruct-Attended = λ e f. ground (arith, h, append-ne-nil t.messages tickler)

  pub work-Attended : (o : Outcome (Unit {0})) → Attended (work o t)
  unfolding work
  work-Attended o = λ e f. ground (arith, h)

  -- A task that is not active any more, and whose notifier returns or throws: its thread, if it has
  -- one, is behind its loop within four steps.
  leaves :
      (notified : ℕ → Outcome (Unit {0}))
      → ((i : ℕ) → notified i ≢ fault)
      → underlying t.state < underlying activating
      → joins (works 4 notified t) ≡ true
  unfolding works work
  leaves notified fine gone = ground (arith, h, fine 0, fine 1, fine 2, fine 3)

  -- It takes one more message at most.
  takes_one :
      (notified : ℕ → Outcome (Unit {0}))
      → underlying t.state < underlying activating
      → length t.messages ≤ length (works 4 notified t).messages + 1
  unfolding works work
  takes_one notified gone = ground arith

-- The tasks that calls and steps of the worker, in any order, make of a new one.
pub data Lives : JobTask → Type 0 where
  made : (i : ℕ) → Lives (construct i)
  registers : {t : JobTask} → Lives t → Lives (register_job_complete_notifier t)
  activates : {t : JobTask} → Lives t → Lives (activate t).1
  deactivates : {t : JobTask} → Lives t → Lives (deactivate t).0
  does : {t : JobTask} (j : JobData) → Lives t → Lives (do_job j t).0
  steps : {t : JobTask} (o : Outcome (Unit {0})) → Lives t → Lives (work o t)

register-Attended : (t : JobTask) → Attended t → Attended (register_job_complete_notifier t)
unfolding register_job_complete_notifier
register-Attended t h = λ e f. ground (arith, h)

construct-Attended : (i : ℕ) → Attended (construct i)
unfolding construct
construct-Attended i = λ e f. cc

Lives-Attended : {t : JobTask} → Lives t → Attended t
Lives-Attended (made i) = construct-Attended i
Lives-Attended (registers l) = register-Attended _ (Lives-Attended l)
Lives-Attended (activates l) = activate-Attended _ (Lives-Attended l)
Lives-Attended (deactivates l) = deactivate-Attended _ (Lives-Attended l)
Lives-Attended (does j l) = do_job-Attended _ (Lives-Attended l) j
Lives-Attended (steps o l) = work-Attended _ (Lives-Attended l) o

-- A thread behind its loop does nothing any more.
works-finished :
    (n : ℕ) (notified : ℕ → Outcome (Unit {0})) (t : JobTask)
    → t.worker ≡ finished
    → works n notified t ≡ t
unfolding works work
works-finished zero notified t e = refl
works-finished (suc n) notified t e =
    let stays : work (notified 0) t ≡ t = ground arith in
    rw stays (works-finished n (λ i. notified (suc i)) t e)

-- A task starts once: activate of a constructed task with no thread starts its thread and leaves it
-- activated, of a constructed task with a joinable thread it ends the program, and in every other
-- state it changes nothing.
pub activate_lem :
    (t : JobTask)
    → ((t.state ≡ constructed)
        × (t.worker ≡ absent)
        × (activate t ≡ (returns tt, record t { state = activated; worker = testing })))
      ⊎ ((t.state ≡ constructed) × (t.worker ≢ absent) × ((activate t).0 ≡ fault))
      ⊎ ((t.state ≢ constructed) × (activate t ≡ (returns tt, t)))
unfolding activate
activate_lem t = ground arith

-- A task is not started again: after deactivate of an active task, whose thread is joinable,
-- activate assigns to the joinable thread, which ends the program.
pub reactivation_faults :
    (t : JobTask)
    → underlying activating ≤ underlying t.state
    → joinable t.worker ≡ true
    → (activate (deactivate t).0).0 ≡ fault
unfolding activate deactivate
reactivation_faults t a j = ground arith

-- The destructor ends: after any calls and steps of the worker, on a task whose notifier returns or
-- throws, it does not wait to post its message, and within four steps of the worker its join
-- returns.
pub destruct-joins :
    (t : JobTask) (notified : ℕ → Outcome (Unit {0}))
    → Lives t
    → ((i : ℕ) → notified i ≢ fault)
    → ((destruct t).1 ≢ waits) × (joins (works 4 notified (destruct t).0) ≡ true)
unfolding destruct
destruct-joins t notified h fine =
    (ground arith, leaves _ (destruct-Attended t (Lives-Attended h)) notified fine (ground arith))

stopped :
    (t : JobTask)
    → underlying activating ≤ underlying t.state
    → (deactivate t).1 ≡ posted
    → (underlying (deactivate t).0.state < underlying activating)
      × (length (deactivate t).0.messages ≡ length t.messages + 1)
unfolding deactivate
stopped t a p = ground (arith, length-append t.messages (tickler ∷ []))

-- deactivate stops the thread: after any calls and steps of the worker, on an active task whose
-- notifier returns or throws, if it does not wait, then within four steps of the worker the thread
-- is behind its loop, and it has taken at most one more message.
pub deactivate_stops :
    (t : JobTask) (notified : ℕ → Outcome (Unit {0}))
    → Lives t
    → ((i : ℕ) → notified i ≢ fault)
    → underlying activating ≤ underlying t.state
    → (deactivate t).1 ≡ posted
    → (joins (works 4 notified (deactivate t).0) ≡ true)
      × (length t.messages ≤ length (works 4 notified (deactivate t).0).messages)
deactivate_stops t notified h fine a p = (
  leaves _ (deactivate-Attended t (Lives-Attended h)) notified fine
      (let (gone, _) = stopped t a p in gone),
  let (gone, longer) = stopped t a p in
      omega (
        arith,
        takes_one (deactivate t).0 (deactivate-Attended t (Lives-Attended h)) notified gone,
        longer,
      ),
)

strands_at :
    (t : JobTask) (o : Outcome (Unit {0}))
    → underlying activating ≤ underlying t.state
    → t.worker ≡ testing
    → length t.messages ≡ queue_elements
    → let (t', posting) = deactivate t in
      (posting ≡ waits)
      × ((work o t').worker ≡ finished)
      × (running_count (work o t') ≡ queue_elements)
unfolding deactivate work
strands_at t o a w full = ground arith

-- deactivate of an active task can wait for ever: on a full queue, with the worker at the test of
-- its loop, it waits, and after any number of further steps of the worker the queue is still full,
-- and from the first on the thread has left its loop.
pub deactivate_strands :
    (t : JobTask) (notified : ℕ → Outcome (Unit {0})) (n : ℕ)
    → underlying activating ≤ underlying t.state
    → t.worker ≡ testing
    → length t.messages ≡ queue_elements
    → let (t', posting) = deactivate t in
      (posting ≡ waits)
      × (running_count (works (suc n) notified t') ≡ queue_elements)
      × ((works (suc n) notified t').worker ≡ finished)
unfolding works
deactivate_strands t notified n a w full =
    let (e, left, still) = strands_at t (notified 0) a w full in
    (
      e,
      rw (works-finished n (λ i. notified (suc i)) (work (notified 0) (deactivate t).0) left) still,
      rw (works-finished n (λ i. notified (suc i)) (work (notified 0) (deactivate t).0) left) left,
    )

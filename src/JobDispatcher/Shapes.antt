-- ===== src/JobDispatcher/Shapes.antt =====
-- The moves of src/examples/JobDispatcher/src/JobDispatcher.cpp keep the shapes of its parts.
use mathlib.Core.Logic.{if_pos, if_neg}
use reiser_rt_core.Prelude.{ℕ, ℕ_discrete, ◌≡◌, refl, subst, sym, List, [], ◌∷◌, All, All-append}
use reiser_rt_core.Prelude.Families.{update}
use reiser_rt_core.JobTask as Task
use reiser_rt_core.JobTask.{JobData, JobTask, do_job_message, notifying}
use reiser_rt_core.JobDispatcher.{JobDispatcher, next_job}
use reiser_rt_core.JobDispatcher.Moves.{
  Runs, IsJobOf, WorksFor, IsTask, Completes, Handles, Fires, Shaped, queued, with_task, Move,
  rests, fires, hands, ends, listens, receives, counts, goes_on, stops, creates, passes, decides,
  task_listens, task_gets, task_starts, notifies,
}

update-Runs :
    {n : ℕ} (tasks : ℕ → JobTask) (k : ℕ) (t : JobTask)
    → ((i : ℕ) → IsTask n i → Runs i (tasks i))
    → Runs k t
    → (i : ℕ) → IsTask n i
    → Runs i (update tasks k t i)
update-Runs tasks k t all r i is_task = elim (ℕ_discrete i k) [
  | yes e ↦ rw (if_pos (ℕ_discrete i k) e) (subst (λ m. Runs m t) (sym e) r)
  | no ne ↦ rw (if_neg (ℕ_discrete i k) ne) (all i is_task)
]

queued-Runs : (i : ℕ) (j : JobData) (t : JobTask) → j.task_id ≡ i → Runs i t → Runs i (queued j t)
queued-Runs i j t e r = record {
  known = r.known;
  active = r.active;
  notifies = r.notifies;
  queue = All-append (IsJobOf i) t.messages (do_job_message j ∷ []) r.queue (e, tt);
  worker = r.worker;
}

-- A dispatcher is shaped again after a change of the task `i`.
with_task-Shaped :
    (i : ℕ) (t : JobTask) (d : JobDispatcher) → Shaped d → Runs i t → Shaped (with_task i t d)
with_task-Shaped i t d h r = record {
  active = h.active;
  tasks = update-Runs d.job_tasks i t h.tasks r;
  inbox = h.inbox;
  boss = h.boss;
  runner = h.runner;
}

-- A worker that goes elsewhere, with the messages `ms` left.
moved-Runs :
    (i : ℕ) (t : JobTask) (ms : List Task.Message) (w : Task.Worker)
    → Runs i t
    → All (IsJobOf i) ms
    → WorksFor i w
    → Runs i (record t { messages = ms; worker = w })
moved-Runs i t ms w r q f = record {
  known = r.known;
  active = r.active;
  notifies = r.notifies;
  queue = q;
  worker = f;
}

pub Move-Shaped : {effort : ℕ → ℕ} {d d' : JobDispatcher} → Move effort d d' → Shaped d → Shaped d'
unfolding next_job
Move-Shaped (rests e) h = record {
  active = h.active;
  tasks = h.tasks;
  inbox = h.inbox;
  boss = h.boss;
  runner = tt;
}
Move-Shaped {d} (fires i is f e e') h =
    let g = subst (Fires d.num_cpus) e h.runner in
    record {
      active = h.active;
      tasks = h.tasks;
      inbox = h.inbox;
      boss = h.boss;
      runner = (g.0, refl, g.1);
    }
Move-Shaped {d} (hands i j is e) h =
    let g = subst (Fires d.num_cpus) e h.runner in
    let s = with_task-Shaped i _ d h (queued-Runs i j _ g.1 (h.tasks i g.0)) in
    record { active = s.active; tasks = s.tasks; inbox = s.inbox; boss = s.boss; runner = g.2 }
Move-Shaped (ends e l) h = record {
  active = h.active;
  tasks = h.tasks;
  inbox = h.inbox;
  boss = h.boss;
  runner = tt;
}
Move-Shaped (listens e) h = record {
  active = h.active;
  tasks = h.tasks;
  inbox = h.inbox;
  boss = tt;
  runner = h.runner;
}
Move-Shaped {d} (receives m ms e q) h =
    let g = subst (All (Completes d.num_cpus)) q h.inbox in
    record { active = h.active; tasks = h.tasks; inbox = g.1; boss = g.0; runner = h.runner }
Move-Shaped {d} (counts j e) h = record {
  active = h.active;
  tasks = h.tasks;
  inbox = h.inbox;
  boss = subst (Handles d.num_cpus) e h.boss;
  runner = h.runner;
}
Move-Shaped {d} (goes_on j e l) h = record {
  active = h.active;
  tasks = h.tasks;
  inbox = h.inbox;
  boss = subst (Handles d.num_cpus) e h.boss;
  runner = h.runner;
}
Move-Shaped (stops j e l) h = record {
  active = h.active;
  tasks = h.tasks;
  inbox = h.inbox;
  boss = tt;
  runner = h.runner;
}
Move-Shaped {d} (creates j f e e') h = record {
  active = h.active;
  tasks = h.tasks;
  inbox = h.inbox;
  boss = (subst (Handles d.num_cpus) e h.boss, refl);
  runner = h.runner;
}
Move-Shaped {d} (passes j new e) h =
    let g = subst (Handles d.num_cpus) e h.boss in
    let s =
      with_task-Shaped j.task_id _ d h (queued-Runs j.task_id new _ g.1 (h.tasks j.task_id g.0)) in
    record { active = s.active; tasks = s.tasks; inbox = s.inbox; boss = tt; runner = s.runner }
Move-Shaped (decides j e) h = record {
  active = h.active;
  tasks = h.tasks;
  inbox = h.inbox;
  boss = tt;
  runner = h.runner;
}
Move-Shaped {d} (task_listens i is_task e) h =
    let r = h.tasks i is_task in with_task-Shaped i _ d h (moved-Runs i _ _ _ r r.queue tt)
Move-Shaped {d} (task_gets i j ms is_task e q) h =
    let r = h.tasks i is_task in
    let g = subst (All (IsJobOf i)) q r.queue in
    with_task-Shaped i _ d h (moved-Runs i _ _ _ r g.1 g.0)
Move-Shaped {d} (task_starts i j is_task e) h =
    let r = h.tasks i is_task in
    with_task-Shaped i _ d h (moved-Runs i _ _ _ r r.queue (subst (WorksFor i) e r.worker))
Move-Shaped {d} (notifies i j is_task e l) h =
    let r = h.tasks i is_task in
    let from = subst (WorksFor i) e r.worker in
    let s = with_task-Shaped i _ d h (moved-Runs i _ _ _ r r.queue tt) in
    record {
      active = s.active;
      tasks = s.tasks;
      inbox =
          All-append (Completes d.num_cpus) d.messages _ h.inbox
            (subst (IsTask d.num_cpus) (sym from) is_task, tt);
      boss = s.boss;
      runner = s.runner;
    }

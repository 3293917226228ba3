-- ===== src/JobDispatcher/Sound.antt =====
-- The invariant of src/examples/JobDispatcher/src/JobDispatcher.cpp while its jobs run: no queue of
-- a task and no pool is ever exhausted.
use reiser_rt_core.Prelude.{
  inl, inr, ℕ, ◌+◌, ◌*◌, ◌^◌, ◌≤◌, ◌<◌, ◌≡◌, refl, subst, List, [], ◌∷◌, arith, length, All,
}
use reiser_rt_core.RingBufferSimple.{clamp}
use reiser_rt_core.RingBufferSimple.Sizing.{num_bits_for_ne_least}
use reiser_rt_core.JobTask as Task
use reiser_rt_core.JobTask.{JobData, JobTask, do_job_message, notifying}
use reiser_rt_core.JobDispatcher.{
  JobDispatcher, Message, tickler, job_complete_message, Boss, dispatching, checking, creating,
  passing, Runner, firing, handing, max_jobs, pool_elements,
}
use reiser_rt_core.Prelude.Occurrences.{occurrences}
use reiser_rt_core.JobDispatcher.Accounts.{
  queue_load, load, inbox_owed, boss_owed, runner_owed, owed, left, runner_in_flight, lent,
  task_loads,
}
use reiser_rt_core.JobDispatcher.Moves.{
  Runs, IsJobOf, IsTask, Completes, Handles, Fires, Shaped, Move, rests, fires, hands, ends,
  creates, passes, task_listens, task_gets, task_starts, notifies,
}
use reiser_rt_core.JobDispatcher.Shapes.{Move-Shaped}
use reiser_rt_core.JobDispatcher.Owing.{Move-owed}
use reiser_rt_core.JobDispatcher.Counting.{Counted, Move-Counted}
use reiser_rt_core.JobDispatcher.Places.{
  sum, sum-plus, sum-load, sum-inbox, sum-boss, sum-runner, sum-lt, boss_share,
}
use reiser_rt_core.JobDispatcher.Next.{Roomy}

pub record Sound (d : JobDispatcher) : Type 0 where
  pub shaped : Shaped d
  pub counted : Counted d
  pub spare : load (d.job_tasks 0) ≡ 0
  pub most : (i : ℕ) → IsTask d.num_cpus i → owed i d ≤ 1
  pub least : (i : ℕ) → IsTask d.num_cpus i → d.last_job_id < max_jobs → 1 ≤ owed i d

module _ {effort : ℕ → ℕ} {d : JobDispatcher} where
  Move-last : {d' : JobDispatcher} → Counted d → Move effort d d' → d.last_job_id ≤ d'.last_job_id
  Move-last c (fires i is f e e') = ground arith
  Move-last c (creates j f e e') = ground arith
  Move-last c (rests e) = omega arith
  Move-last c (hands i j is e) = omega arith
  Move-last c (ends e l) = omega arith
  Move-last c _ = omega arith

  pub Move-num_cpus : {d' : JobDispatcher} → Move effort d d' → d'.num_cpus ≡ d.num_cpus
  Move-num_cpus (rests e) = refl
  Move-num_cpus _ = refl

  Move-spare :
      {d' : JobDispatcher}
      → Move effort d d'
      → Shaped d
      → load (d.job_tasks 0) ≡ 0
      → load (d'.job_tasks 0) ≡ 0
  Move-spare (rests e) h z = z
  Move-spare (hands i j is e) h z = let g = subst (Fires d.num_cpus) e h.runner in ground arith
  Move-spare (passes j new e) h z = let g = subst (Handles d.num_cpus) e h.boss in ground arith
  Move-spare (task_listens i t e) h z = ground arith
  Move-spare (task_gets i j ms t e q) h z = ground arith
  Move-spare (task_starts i j t e) h z = ground arith
  Move-spare (notifies i j t e l) h z = ground arith
  Move-spare _ h z = z

  -- Every move keeps the invariant.
  pub Move-Sound : {d' : JobDispatcher} → Move effort d d' → Sound d → Sound d'
  Move-Sound {d'} m s = record {
    shaped = Move-Shaped m s.shaped;
    counted = Move-Counted s.shaped s.counted m;
    spare = Move-spare m s.shaped s.spare;
    most = λ i is_task.
        let is_task' = subst (λ n. IsTask n i) (Move-num_cpus m) is_task in
        elim (Move-owed s.shaped i is_task' m) [
          | inl e ↦ omega (arith, e, s.most i is_task')
          | inr (l, _) ↦ omega (arith, l, s.most i is_task')
        ];
    least = λ i is_task more.
        let is_task' = subst (λ n. IsTask n i) (Move-num_cpus m) is_task in
        let before = Move-last s.counted m in
        elim (Move-owed s.shaped i is_task' m) [
          | inl e ↦ omega (arith, e, s.least i is_task' (omega (arith, before, more)))
          | inr (_, over) ↦ absurd (omega (arith, over, before, more))
        ];
  }

-- The jobs of a task are all that its queue holds.
queue_load-length :
    (i : ℕ) (ms : List Task.Message) → All (IsJobOf i) ms → queue_load ms ≡ length ms
queue_load-length i [] h = refl
queue_load-length i (Task.tickler ∷ ms) h = absurd h.0
queue_load-length i (do_job_message j ∷ ms) h = omega (arith, queue_load-length i ms h.1)

pub Runs-load : (i : ℕ) (t : JobTask) → Runs i t → load t ≡ Task.running_count t
Runs-load i t r = ground (arith, queue_load-length i t.messages r.queue, r.worker)

-- Nothing stands for the place 0, which has no task.
inbox_owed-zero : (n : ℕ) (ms : List Message) → All (Completes n) ms → inbox_owed 0 ms ≡ 0
inbox_owed-zero n [] h = refl
inbox_owed-zero n (tickler ∷ ms) h = absurd h.0
inbox_owed-zero n (job_complete_message j ∷ ms) h = ground (arith, inbox_owed-zero n ms h.1)

occurrences-zero : (n : ℕ) (is : List ℕ) → All (IsTask n) is → occurrences 0 is ≡ 0
occurrences-zero n [] h = refl
occurrences-zero n (k ∷ is) h = ground (arith, occurrences-zero n is h.1)

boss_owed-zero : (n : ℕ) (b : Boss) → Handles n b → boss_owed 0 b ≡ 0
boss_owed-zero n (dispatching (job_complete_message j)) h = ground arith
boss_owed-zero n (dispatching tickler) h = absurd h
boss_owed-zero n (checking j) h = ground arith
boss_owed-zero n (creating j) h = ground arith
boss_owed-zero n (passing j new) h = ground arith
boss_owed-zero n _ h = refl

runner_owed-zero : (n : ℕ) (r : Runner) → Fires n r → runner_owed 0 r ≡ 0
runner_owed-zero n (firing is) h = occurrences-zero n is h
runner_owed-zero n (handing k j is) h = ground (arith, occurrences-zero n is h.2)
runner_owed-zero n _ h = refl

pool_elements-le : (n : ℕ) → 1 ≤ n → n ≤ 2 ^ 19 → n ≤ pool_elements n
unfolding pool_elements clamp
pool_elements-le n h k = ground (arith, num_bits_for_ne_least (n * 2))

module _ {d : JobDispatcher} (s : Sound d) where
  owed_nothing : owed 0 d ≡ 0
  owed_nothing = omega (
    arith,
    s.spare,
    inbox_owed-zero d.num_cpus d.messages s.shaped.inbox,
    boss_owed-zero d.num_cpus d.boss s.shaped.boss,
    runner_owed-zero d.num_cpus d.runner s.shaped.runner,
  )

  owed-sum :
      sum (λ i. owed i d) d.num_cpus
      ≡ task_loads d
        + length d.messages
        + boss_share d.boss
        + (left d.runner + runner_in_flight d.runner)
  owed-sum =
      let n = d.num_cpus in
      let tasks = λ (i : ℕ). load (d.job_tasks i) in
      let inbox = λ (i : ℕ). inbox_owed i d.messages in
      let boss = λ (i : ℕ). boss_owed i d.boss in
      let runner = λ (i : ℕ). runner_owed i d.runner in
      omega (
        arith,
        sum-plus (λ i. tasks i + inbox i + boss i) runner n,
        sum-plus (λ i. tasks i + inbox i) boss n,
        sum-plus tasks inbox n,
        sum-load n d.job_tasks,
        sum-inbox n d.messages s.shaped.inbox,
        sum-boss n d.boss s.shaped.boss,
        sum-runner n d.runner s.shaped.runner,
      )

  -- Fewer jobs are on their way, or still to be fired at first, than there are processors.
  pub places :
      task_loads d
        + length d.messages
        + boss_share d.boss
        + (left d.runner + runner_in_flight d.runner)
      < d.num_cpus
  places = omega (
    arith,
    owed-sum,
    sum-lt (λ i. owed i d) d.num_cpus (omega (arith, s.counted.last_left)) owed_nothing s.most,
  )

  enough_blocks : d.num_cpus ≤ d.free + lent d
  enough_blocks = omega (
    arith,
    s.counted.blocks,
    pool_elements-le d.num_cpus (omega (arith, s.counted.last_left)) s.counted.few,
  )

  free_to_fire : (i : ℕ) (is : List ℕ) → d.runner ≡ firing (i ∷ is) → 0 < d.free
  free_to_fire i is e = ground (arith, places, enough_blocks)

  free_to_create : (j : JobData) → d.boss ≡ creating j → 0 < d.free
  free_to_create j e = ground (arith, places, enough_blocks)

  pub Sound-Roomy : Roomy d
  Sound-Roomy = record {
    queues = λ i is_task.
        omega (arith, Runs-load i (d.job_tasks i) (s.shaped.tasks i is_task), s.most i is_task);
    fire_free = free_to_fire;
    create_free = free_to_create;
  }

-- ===== src/JobDispatcher/Completion.antt =====
-- Every run of src/examples/JobDispatcher/src/JobDispatcher.cpp ends, with all jobs completed.
use reiser_rt_core.Prelude.{
  ◌⊎◌, inl, inr, ℕ, zero, suc, dec_lt, ◌+◌, ◌≤◌, ◌<◌, ◌≡◌, ◌≢◌, refl, ◌∙◌, subst, Option, none,
  some, arith,
}
use reiser_rt_core.Prelude.Families.{total_witness}
use reiser_rt_core.JobDispatcher.{
  JobDispatcher, runner_step, boss_step, task_step, pool_elements, returned, max_jobs,
}
use reiser_rt_core.JobDispatcher.Accounts.{load, task_loads}
use reiser_rt_core.JobDispatcher.Moves.{IsTask, Move}
use reiser_rt_core.JobDispatcher.Next.{Next, runner_next, boss_next, task_next, BossWaits}
use reiser_rt_core.JobDispatcher.Sound.{Sound, Move-Sound, Move-num_cpus, Sound-Roomy}
use reiser_rt_core.JobDispatcher.Measure.{measure, Move-measure}

-- One of the threads makes a step: the one in `runJobs`, the dispatcher's, or a task's.
pub data Step (effort : ℕ → ℕ) (d d' : JobDispatcher) : Type 0 where
  by_runner : runner_step effort d ≡ some d' → Step effort d d'
  by_boss : boss_step effort d ≡ some d' → Step effort d d'
  by_task : (i : ℕ) → IsTask d.num_cpus i → task_step i d ≡ some d' → Step effort d d'

-- `n` steps, of any threads in any order.
pub data Run (effort : ℕ → ℕ) (d : JobDispatcher) : ℕ → JobDispatcher → Type 0 where
  here : Run effort d zero d
  next :
      {n : ℕ} {d' d'' : JobDispatcher}
      → Run effort d n d'
      → Step effort d' d''
      → Run effort d (suc n) d''

chosen :
    {effort : ℕ → ℕ} {d d' : JobDispatcher} {step : Option JobDispatcher} {Reason : Type 0}
    → Next effort d step Reason
    → step ≡ some d'
    → Move effort d d'
chosen {effort} {d} (inl (x, e, m)) e' = subst (Move effort d) (ground arith) m
chosen (inr (e, r)) e' = absurd (ground arith)

module _ {effort : ℕ → ℕ} {d : JobDispatcher} (s : Sound d) where
  pub Step-Move : {d' : JobDispatcher} → Step effort d d' → Move effort d d'
  Step-Move (by_runner e) = chosen (runner_next effort d s.shaped (Sound-Roomy s)) e
  Step-Move (by_boss e) = chosen (boss_next effort d s.shaped (Sound-Roomy s)) e
  Step-Move (by_task i is_task e) = chosen (task_next effort d s.shaped (Sound-Roomy s) i is_task) e

pub Run-Sound :
    {effort : ℕ → ℕ} {d d' : JobDispatcher} {n : ℕ}
    → Sound d
    → Run effort d n d'
    → Sound d' × (n + measure d' ≤ measure d)
Run-Sound s here = (s, omega arith)
Run-Sound s (next r st) =
    let (s', l) = Run-Sound s r in
    let m = Step-Move s' st in
    (Move-Sound m s', omega (arith, l, Move-measure s'.shaped s'.counted m))

pub Run-num_cpus :
    {effort : ℕ → ℕ} {d d' : JobDispatcher} {n : ℕ}
    → Sound d
    → Run effort d n d'
    → d'.num_cpus ≡ d.num_cpus
Run-num_cpus s here = refl
Run-num_cpus s (next r st) = Move-num_cpus (Step-Move (Run-Sound s r).0 st) ∙ Run-num_cpus s r

-- A thread that cannot make a step waits for its reason.
waits_for :
    {effort : ℕ → ℕ} {d : JobDispatcher} {step : Option JobDispatcher} {Reason : Type 0}
    → Next effort d step Reason
    → ((d' : JobDispatcher) → step ≢ some d')
    → Reason
waits_for (inl (x, e, m)) stuck = absurd (stuck x e)
waits_for (inr (e, r)) stuck = r

-- No thread can make a step.
abbrev pub Halted : (ℕ → ℕ) → JobDispatcher → Type 0
Halted effort d = (d' : JobDispatcher) → ¬ Step effort d d'

module _ {effort : ℕ → ℕ} {d : JobDispatcher} (s : Sound d) (halted : Halted effort d) where
  pub boss_idle : BossWaits effort d s.shaped (Sound-Roomy s)
  boss_idle =
      waits_for (boss_next effort d s.shaped (Sound-Roomy s)) (λ d' e. halted d' (by_boss e))

  pub task_idle : (i : ℕ) → IsTask d.num_cpus i → load (d.job_tasks i) ≡ 0
  task_idle i is_task =
      let boss = boss_idle in
      let task =
        waits_for (task_next effort d s.shaped (Sound-Roomy s) i is_task)
          (λ d' e. halted d' (by_task i is_task e)) in
      ground arith

  no_loads : task_loads d ≡ 0
  no_loads = elim (dec_lt 0 (task_loads d)) [
    | yes l ↦ let (i, lt, p) = total_witness load d.num_cpus d.job_tasks l in absurd (busy i lt p)
    | no nl ↦ omega (arith, nl)
  ]
    where
      busy : (i : ℕ) → i < d.num_cpus → 0 < load (d.job_tasks i) → ⊥
      busy zero lt p = omega (arith, p, s.spare)
      busy (suc i) lt p = omega (arith, p, task_idle (suc i) (omega arith, lt))

  -- With at least one task, the thread in `runJobs` is behind the semaphore, all jobs are
  -- completed, and all blocks of the pool are free.
  pub halted-returned :
      2 ≤ d.num_cpus
      → (d.runner ≡ returned)
        × (max_jobs ≤ d.completed_job_count)
        × (d.completed_job_count ≡ d.last_job_id)
        × (d.free ≡ pool_elements d.num_cpus)
  halted-returned two =
      let boss = boss_idle in
      let none_left = no_loads in
      let runner =
        waits_for (runner_next effort d s.shaped (Sound-Roomy s))
          (λ d' e. halted d' (by_runner e)) in
      let c = s.counted in
      let task = task_idle 1 (omega arith, two) in ground (arith, s.least 1 (omega arith, two))

Option-cases {ℓ} : {A : Type ℓ} (o : Option A) → (o ≡ none) ⊎ ((a : A) × (o ≡ some a))
Option-cases none = inl refl
Option-cases (some a) = inr (a, refl)

-- Whether one of the tasks below `m` can make a step.
one_below_goes :
    (d : JobDispatcher) (m : ℕ)
    → ((i : ℕ) × IsTask m i × ((d' : JobDispatcher) × (task_step i d ≡ some d')))
      ⊎ ((i : ℕ) → IsTask m i → task_step i d ≡ none)
one_below_goes d zero = inr (λ i is_task. absurd (omega (arith, is_task)))
one_below_goes d (suc m) = elim (one_below_goes d m) [
  | inl (i, is_task, goes) ↦ inl (i, (is_task.0, omega (arith, is_task)), goes)
  | inr none_below ↦ elim (Option-cases (task_step m d)) [
    | inl e ↦ inr (λ i is_task. elim (dec_lt i m) [
      | yes l ↦ none_below i (is_task.0, l)
      | no nl ↦ subst (λ j. task_step j d ≡ none) (omega (arith, nl, is_task)) e
    ])
    | inr goes ↦ elim (dec_lt 0 m) [
      | yes l ↦ inl (m, (l, omega arith), goes)
      | no nl ↦ inr (λ i is_task. absurd (omega (arith, nl, is_task)))
    ]
  ]
]

-- A thread can make a step, or none can.
someone_goes :
    (effort : ℕ → ℕ) (d : JobDispatcher)
    → ((d' : JobDispatcher) × Step effort d d') ⊎ Halted effort d
someone_goes effort d = elim (Option-cases (runner_step effort d)) [
  | inr (d', e) ↦ inl (d', by_runner e)
  | inl r ↦ elim (Option-cases (boss_step effort d)) [
    | inr (d', e) ↦ inl (d', by_boss e)
    | inl b ↦ elim (one_below_goes d d.num_cpus) [
      | inl (i, is_task, (d', e)) ↦ inl (d', by_task i is_task e)
      | inr t ↦ inr (stuck r b t)
    ]
  ]
]
  where
    stuck :
        runner_step effort d ≡ none
        → boss_step effort d ≡ none
        → ((i : ℕ) → IsTask d.num_cpus i → task_step i d ≡ none)
        → Halted effort d
    stuck r b t d' (by_runner e) = cc
    stuck r b t d' (by_boss e) = cc
    stuck r b t d' (by_task i is_task e) = cc (t i is_task)

-- Every run can be continued to one that cannot go on.
pub can_halt :
    {effort : ℕ → ℕ} {d d' : JobDispatcher} {k : ℕ} (m : ℕ)
    → Sound d
    → Run effort d k d'
    → measure d' ≤ m
    → (l : ℕ) × (e : JobDispatcher) × Run effort d l e × Halted effort e
can_halt {effort} {d} {d'} {k} zero s r h = (
  k,
  d',
  r,
  λ e st.
      let s' = (Run-Sound s r).0 in
      absurd (omega (arith, h, Move-measure s'.shaped s'.counted (Step-Move s' st))),
)
can_halt {effort} {d} {d'} {k} (suc m) s r h = elim (someone_goes effort d') [
  | inr halted ↦ (k, d', r, halted)
  | inl (d'', st) ↦
      let s' = (Run-Sound s r).0 in
      can_halt m s (next r st)
        (omega (arith, h, Move-measure s'.shaped s'.counted (Step-Move s' st)))
]

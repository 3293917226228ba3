-- ===== src/JobDispatcher/Ids.antt =====
-- The numbers of the tasks of src/examples/JobDispatcher/src/JobDispatcher.cpp, in whichever order
-- the map of tasks has them.
use mathlib.Core.List.{Perm, foldr}
use mathlib.Core.List.Perm
use reiser_rt_core.Prelude.{
  ℕ, zero, suc, ℕ_discrete, ◌+◌, ◌-◌, ◌^◌, ◌≤◌, ◌<◌, ◌≡◌, refl, sym, ◌∙◌, List, [], ◌∷◌, ◌&&◌,
  arith, length, All, ltb, leb, if◌then◌else◌,
}
use reiser_rt_core.Prelude.Words.{u32}
use reiser_rt_core.Prelude.Occurrences.{same, occurrences}
use reiser_rt_core.JobDispatcher.Moves.{IsTask}
use reiser_rt_core.JobDispatcher.Places.{sum-occurrences, sum-lt}
use reiser_rt_core.JobDispatcher.Startup.{ids_from, task_ids}

abbrev pub within : ℕ → ℕ → ℕ → ℕ
within k n i = if leb k i && ltb i n then 1 else 0

occurrences-ids_from :
    (i rounds k n : ℕ)
    → n - k ≤ rounds
    → k ≤ n
    → n < 2 ^ 32
    → occurrences i (ids_from rounds k n) ≡ within k n i
unfolding ids_from
occurrences-ids_from i zero k n h l b = ground arith
occurrences-ids_from i (suc rounds) k n h l b = elim (ℕ_discrete n k) [
  | yes e ↦ ground arith
  | no ne ↦
      let e : u32 (k + 1) ≡ k + 1 = ground arith in
      rw e (ground (arith, occurrences-ids_from i rounds (k + 1) n))
]

-- The constructor makes a task for each number from 1 to the number of processors, exclusive.
pub occurrences-task_ids :
    (i n : ℕ) → 1 ≤ n → n < 2 ^ 32 → occurrences i (task_ids n) ≡ within 1 n i
unfolding task_ids
occurrences-task_ids i n l b = occurrences-ids_from i (2 ^ 32) 1 n (omega arith) l b

occurrences-foldr : (i : ℕ) (is : List ℕ) → occurrences i is ≡ foldr (λ k r. same k i + r) 0 is
occurrences-foldr i [] = refl
occurrences-foldr i (k ∷ is) = omega (arith, occurrences-foldr i is)

occurrences-perm : (i : ℕ) {is js : List ℕ} → Perm is js → occurrences i is ≡ occurrences i js
occurrences-perm i {is} {js} p =
    occurrences-foldr i is
    ∙ Perm.foldr-eq (hlevel ℕ_discrete) (λ k r. same k i + r) (λ a b r. omega arith) p 0
    ∙ sym (occurrences-foldr i js)

-- A list that goes through the tasks, each once.
abbrev pub Lists : ℕ → List ℕ → Type 0
Lists n is = (i : ℕ) → occurrences i is ≡ within 1 n i

pub Perm-Lists :
    {n : ℕ} {order : List ℕ} → 1 ≤ n → n < 2 ^ 32 → Perm order (task_ids n) → Lists n order
Perm-Lists {n} l b p i = occurrences-perm i p ∙ occurrences-task_ids i n l b

All-IsTask :
    (n : ℕ) (is : List ℕ) → ((i : ℕ) → 0 < occurrences i is → IsTask n i) → All (IsTask n) is
All-IsTask n [] h = tt
All-IsTask n (k ∷ is) h = (h k (ground arith), All-IsTask n is (λ i l. h i (omega (arith, l))))

module _ (n : ℕ) (is : List ℕ) (lists : Lists n is) where
  pub Lists-IsTask : (i : ℕ) → 0 < occurrences i is → IsTask n i
  Lists-IsTask i l = ground (arith, lists i)

  pub Lists-All : All (IsTask n) is
  Lists-All = All-IsTask n is Lists-IsTask

  pub Lists-length : 0 < n → length is < n
  Lists-length p = omega (
    arith,
    sum-occurrences n is Lists-All,
    sum-lt (λ i. occurrences i is) n p (ground (arith, lists 0)) (λ i t. ground (arith, lists i)),
  )

-- ===== src/Semaphore/Permits.antt =====
-- The function objects that threads pass stay the ones that they were allowed to pass.
use mathlib.Core.Logic.{if_pos, if_neg}
use reiser_rt_core.Prelude.{ℕ_discrete, subst, ℕ, List, [], ◌∷◌}
use reiser_rt_core.Prelude.Families.{update}
use reiser_rt_core.Semaphore.{Notice, Ending, ends, blocks, Segment, abort}
use reiser_rt_core.Semaphore.Threads.{
  Operation, Pc, outside, take_waiting, take_woken, give_waiting, give_woken, after_take,
  after_give, Ran, ran, Wakes, one_taker, no_taker, one_giver, no_giver, all_takers, all_givers,
  Delivers, wake_taker, wake_giver, System, Step, take_call, take_resume, give_call, give_resume,
  abort_call, take_spurious, give_spurious,
}

-- The function object that thread `p` passes in its call is allowed.
abbrev pub Permits : {W : Type 0} → (Operation W → Type 0) → (Operation W → Type 0) → Pc W → Type 0
Permits Takes Gives outside = Unit
Permits Takes Gives (take_waiting op) = Takes op
Permits Takes Gives (take_woken op) = Takes op
Permits Takes Gives (give_waiting op) = Gives op
Permits Takes Gives (give_woken op) = Gives op

module _ {W : Type 0} (Takes Gives : Operation W → Type 0) where
  update-Permits :
      (pc : ℕ → Pc W) (i : ℕ) (p : Pc W)
      → Permits Takes Gives p
      → ((j : ℕ) → Permits Takes Gives (pc j))
      → (j : ℕ) → Permits Takes Gives (update pc i p j)
  update-Permits pc i p h all j = elim (ℕ_discrete j i) [
    | yes e ↦ rw (if_pos (ℕ_discrete j i) e) h
    | no ne ↦ rw (if_neg (ℕ_discrete j i) ne) (all j)
  ]

  wake-Permits :
      (p : Pc W)
      → Permits Takes Gives p
      → Permits Takes Gives (wake_taker p) × Permits Takes Gives (wake_giver p)
  wake-Permits outside h = (tt, tt)
  wake-Permits (take_waiting op) h = (h, h)
  wake-Permits (take_woken op) h = (h, h)
  wake-Permits (give_waiting op) h = (h, h)
  wake-Permits (give_woken op) h = (h, h)

  Wakes-Permits :
      {n : ℕ} {pc r : ℕ → Pc W} {x : Notice}
      → Wakes n pc x r
      → ((j : ℕ) → Permits Takes Gives (pc j))
      → (j : ℕ) → Permits Takes Gives (r j)
  Wakes-Permits (one_taker k op lt e) all =
      update-Permits _ k _ (subst (Permits Takes Gives) e (all k)) all
  Wakes-Permits (no_taker e) all = all
  Wakes-Permits (one_giver k op lt e) all =
      update-Permits _ k _ (subst (Permits Takes Gives) e (all k)) all
  Wakes-Permits (no_giver e) all = all
  Wakes-Permits all_takers all = λ j. (wake-Permits _ (all j)).0
  Wakes-Permits all_givers all = λ j. (wake-Permits _ (all j)).1

  Delivers-Permits :
      (n : ℕ) (xs : List Notice) (pc r : ℕ → Pc W)
      → Delivers n pc xs r
      → ((j : ℕ) → Permits Takes Gives (pc j))
      → (j : ℕ) → Permits Takes Gives (r j)
  Delivers-Permits n [] pc r d all = λ j. rw d (all j)
  Delivers-Permits n (x ∷ xs) pc r (q, w, d) all = Delivers-Permits n xs q r d (Wakes-Permits w all)

  after_take-Permits :
      (op : Operation W) (e : Ending) → Takes op → Permits Takes Gives (after_take op e)
  after_take-Permits op blocks h = h
  after_take-Permits op (ends o) h = tt

  after_give-Permits :
      (op : Operation W) (e : Ending) → Gives op → Permits Takes Gives (after_give op e)
  after_give-Permits op blocks h = h
  after_give-Permits op (ends o) h = tt

  Ran-Permits :
      {n : ℕ} {s t : System W} {i : ℕ} {p : Pc W} {g : Segment W}
      → Ran n s i p g t
      → Permits Takes Gives p
      → ((j : ℕ) → Permits Takes Gives (s.pc j))
      → (j : ℕ) → Permits Takes Gives (t.pc j)
  Ran-Permits {n} {s} {t} {i} {p} {g} (ran d es ew) h all =
      Delivers-Permits n g.notices (update s.pc i p) t.pc d (update-Permits s.pc i p h all)

  -- Only allowed function objects are ever on the way.
  pub Step-Permits :
      {n : ℕ} {s t : System W}
      → Step Takes Gives n s t
      → ((j : ℕ) → Permits Takes Gives (s.pc j))
      → (j : ℕ) → Permits Takes Gives (t.pc j)
  Step-Permits (take_call i op lt e ok r) all = Ran-Permits r (after_take-Permits op _ ok) all
  Step-Permits (take_resume i op lt e r) all =
      Ran-Permits r (after_take-Permits op _ (subst (Permits Takes Gives) e (all i))) all
  Step-Permits (give_call i op lt e ok r) all = Ran-Permits r (after_give-Permits op _ ok) all
  Step-Permits (give_resume i op lt e r) all =
      Ran-Permits r (after_give-Permits op _ (subst (Permits Takes Gives) e (all i))) all
  Step-Permits {n} {s} {t} (abort_call d es ew) all =
      Delivers-Permits n (abort s.semaphore).1 s.pc t.pc d all
  Step-Permits (take_spurious i op lt e et) all =
      rw et (update-Permits _ i _ (subst (Permits Takes Gives) e (all i)) all)
  Step-Permits (give_spurious i op lt e et) all =
      rw et (update-Permits _ i _ (subst (Permits Takes Gives) e (all i)) all)

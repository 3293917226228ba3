-- ===== src/Semaphore/Tallies.antt =====
-- What a change of one thread, and the delivery of notices, do to the numbers of sleeping and of
-- returning threads.
use reiser_rt_core.Prelude.{
  ℕ, zero, suc, ◌+◌, ◌-◌, ◌≤◌, ◌<◌, ◌≡◌, refl, ap, ◌∙◌, List, [], ◌∷◌, arith, ◌==◌, if◌then◌else◌,
}
use reiser_rt_core.Prelude.Families.{
  update, total, total-update, total-le, total-map, total-map_same, total-map_none,
}
use reiser_rt_core.Semaphore.{Notice, signal_take, signal_give, broadcast_take, broadcast_give}
use reiser_rt_core.Semaphore.Threads.{
  Pc, outside, take_waiting, take_woken, give_woken, is_take_waiting, is_take_woken,
  is_give_waiting, is_give_woken, wake_taker, wake_giver, Tally, tally, Wakes, one_taker, no_taker,
  one_giver, no_giver, all_takers, all_givers, Delivers,
}

unfoldable pub after_notice : Notice → Tally → Tally
after_notice signal_take t =
    if t.take_asleep == 0
    then t
    else record t { take_asleep = t.take_asleep - 1; take_back = t.take_back + 1 }
after_notice signal_give t =
    if t.give_asleep == 0
    then t
    else record t { give_asleep = t.give_asleep - 1; give_back = t.give_back + 1 }
after_notice broadcast_take t = record t {
  take_asleep = 0;
  take_back = t.take_asleep + t.take_back;
}
after_notice broadcast_give t = record t {
  give_asleep = 0;
  give_back = t.give_asleep + t.give_back;
}

unfoldable pub after_notices : List Notice → Tally → Tally
after_notices [] t = t
after_notices (x ∷ xs) t = after_notices xs (after_notice x t)

module _ {W : Type 0} where
  -- A thread that goes from `p` to `q` takes its share from one number to another.
  pub record Exchanged (p q : Pc W) (t u : Tally) : Type 0 where
    pub take_asleep : u.take_asleep + is_take_waiting p ≡ is_take_waiting q + t.take_asleep
    pub take_back : u.take_back + is_take_woken p ≡ is_take_woken q + t.take_back
    pub give_asleep : u.give_asleep + is_give_waiting p ≡ is_give_waiting q + t.give_asleep
    pub give_back : u.give_back + is_give_woken p ≡ is_give_woken q + t.give_back

  pub update-Exchanged :
      (n i : ℕ) (pc : ℕ → Pc W) (p q : Pc W)
      → i < n
      → pc i ≡ p
      → Exchanged p q (tally n pc) (tally n (update pc i q))
  unfolding tally
  update-Exchanged n i pc p q h e = rw (← e) (record {
    take_asleep = total-update is_take_waiting n i pc q h;
    take_back = total-update is_take_woken n i pc q h;
    give_asleep = total-update is_give_waiting n i pc q h;
    give_back = total-update is_give_woken n i pc q h;
  })

  Wakes-tally :
      {n : ℕ} {pc r : ℕ → Pc W} {x : Notice}
      → Wakes n pc x r
      → tally n r ≡ after_notice x (tally n pc)
  unfolding after_notice tally
  Wakes-tally {n} {pc} (one_taker j op h e) =
      ground (arith, update-Exchanged n j pc _ (take_woken op) h e)
  Wakes-tally (no_taker h) = ground arith
  Wakes-tally {n} {pc} (one_giver j op h e) =
      ground (arith, update-Exchanged n j pc _ (give_woken op) h e)
  Wakes-tally (no_giver h) = ground arith
  Wakes-tally {n} {pc} all_takers = ground (
    arith,
    total-map_none is_take_waiting wake_taker (λ p. ground arith) n pc,
    total-map is_take_woken is_take_waiting is_take_woken wake_taker (λ p. ground arith) n pc,
    total-map_same is_give_waiting wake_taker (λ p. ground arith) n pc,
    total-map_same is_give_woken wake_taker (λ p. ground arith) n pc,
  )
  Wakes-tally {n} {pc} all_givers = ground (
    arith,
    total-map_none is_give_waiting wake_giver (λ p. ground arith) n pc,
    total-map is_give_woken is_give_waiting is_give_woken wake_giver (λ p. ground arith) n pc,
    total-map_same is_take_waiting wake_giver (λ p. ground arith) n pc,
    total-map_same is_take_woken wake_giver (λ p. ground arith) n pc,
  )

  pub Delivers-tally :
      (n : ℕ) (xs : List Notice) (pc r : ℕ → Pc W)
      → Delivers n pc xs r
      → tally n r ≡ after_notices xs (tally n pc)
  unfolding after_notices
  Delivers-tally n [] pc r d = ap (tally n) d
  Delivers-tally n (x ∷ xs) pc r (q, w, d) =
      Delivers-tally n xs q r d ∙ ap (after_notices xs) (Wakes-tally w)

-- The threads that are inside a call.
abbrev pub crowd : Tally → ℕ
crowd t = t.take_asleep + t.take_back + t.give_asleep + t.give_back

is_inside : {W : Type 0} → Pc W → ℕ
is_inside outside = 0
is_inside _ = 1

is_inside_sum :
    {W : Type 0} (p : Pc W)
    → is_inside p ≡ is_take_waiting p + is_take_woken p + is_give_waiting p + is_give_woken p
unfolding is_inside
is_inside_sum outside = refl
is_inside_sum (take_waiting op) = refl
is_inside_sum _ = refl

is_inside-le : {W : Type 0} (p : Pc W) → is_inside p ≤ 1
unfolding is_inside
is_inside-le outside = omega arith
is_inside-le _ = omega arith

total-inside : {W : Type 0} (n : ℕ) (pc : ℕ → Pc W) → crowd (tally n pc) ≡ total is_inside n pc
unfolding tally total
total-inside zero pc = refl
total-inside (suc n) pc = omega (arith, is_inside_sum (pc n), total-inside n pc)

-- No more threads are inside a call than there are threads.
pub crowd-le : {W : Type 0} (n : ℕ) (pc : ℕ → Pc W) → crowd (tally n pc) ≤ n
crowd-le n pc = omega (arith, total-inside n pc, total-le is_inside is_inside-le n pc)

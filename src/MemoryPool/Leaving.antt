-- ===== src/MemoryPool/Leaving.antt =====
-- From any state, some run takes a thread out of its call of a pool of src/MemoryPoolBase.cpp.
use reiser_rt_core.Prelude.{ℕ, suc, ◌≤◌, ◌<◌, ◌≡◌, ◌≢◌, refl, ap, ◌∙◌, arith}
use reiser_rt_core.Prelude.Families.{update}
use reiser_rt_core.MemoryPool.Threads.{
  load, Pc, outside, has, has_seen, has_counted, put, put_seen, Shared, Step, get_loads,
  get_exchanges, get_fails, clears, put_loads, put_exchanges, put_fails, Reach, here, next,
}
use reiser_rt_core.MemoryPool.Accesses.{exchange-load}
use reiser_rt_core.MemoryPool.Sharing.{Inv}
use reiser_rt_core.MemoryPool.Interleaving.{Step-Inv}
use reiser_rt_core.MemoryPool.Concurrent.{clear_inside}

abbrev pub moves : {n : ℕ} {s t : Shared} → Reach n s t → ℕ
moves here = 0
moves (next r st) = suc (moves r)

-- Some run of at most `k` steps takes thread `i` out of its call, and no other one has moved.
abbrev pub Leaves : (n k i : ℕ) → Shared → Type 0
Leaves n k i s =
    (t : Shared) × (r : Reach n s t) × (moves r ≤ k)
    × (t.pc i ≡ outside)
    × ((j : ℕ) → j ≢ i → t.pc j ≡ s.pc j)

prepend : {n : ℕ} {s t u : Shared} → Step n s t → Reach n t u → Reach n s u
prepend st here = next here st
prepend st (next r st') = next (prepend st r) st'

moves-prepend :
    {n : ℕ} {s t u : Shared} (st : Step n s t) (r : Reach n t u)
    → moves (prepend st r) ≡ suc (moves r)
unfolding prepend
moves-prepend st here = refl
moves-prepend st (next r st') = ap suc (moves-prepend st r)

at_self : (f : ℕ → Pc) (i : ℕ) (p : Pc) → update f i p i ≡ p
at_self f i p = ground arith

at_other : (f : ℕ → Pc) (i j : ℕ) (p : Pc) → j ≢ i → update f i p j ≡ f j
at_other f i j p ne = ground arith

module _ {n i : ℕ} {s : Shared} where
  at_most : {j k : ℕ} → j ≤ k → Leaves n j i s → Leaves n k i s
  at_most h (u, r, few, out, others) = (u, r, omega arith, out, others)

  first :
      {k : ℕ} {t : Shared} (p : Pc)
      → Step n s t
      → t.pc ≡ update s.pc i p
      → Leaves n k i t
      → Leaves n (suc k) i s
  first p st e (u, r, few, out, others) = (
    u,
    prepend st r,
    omega (arith, moves-prepend st r, few),
    out,
    λ j ne. others j ne ∙ ap (λ f. f j) e ∙ at_other s.pc i j p ne,
  )

  last : {t : Shared} → Step n s t → t.pc ≡ update s.pc i outside → Leaves n 1 i s
  last {t} st e =
      first outside st e
        (t, here, omega arith, ap (λ f. f i) e ∙ at_self s.pc i outside, λ j ne. refl)

  module _ (v : Inv n s) (l : i < n) where
    from_counted : {raw : ℕ} → s.pc i ≡ has_counted raw → Leaves n 1 i s
    from_counted {raw} e =
        let (bytes, m) = clear_inside v i raw l e in last (clears i raw bytes l e m) refl

    from_put_seen : s.pc i ≡ put_seen (load s.pool) → Leaves n 1 i s
    from_put_seen e =
        last (put_exchanges i (load s.pool) l e (ap (λ z. z.0) (exchange-load s.pool _))) refl

module _ {n i : ℕ} {s : Shared} (v : Inv n s) (l : i < n) where
  from_got_seen : {raw : ℕ} → s.pc i ≡ has_seen raw (load s.pool) → Leaves n 2 i s
  from_got_seen {raw} e =
      let st = get_exchanges i raw (load s.pool) l e (ap (λ z. z.0) (exchange-load s.pool _)) in
      first (has_counted raw) st refl (from_counted (Step-Inv st v) l (at_self s.pc i _))

module _ {n i : ℕ} {s : Shared} (v : Inv n s) (l : i < n) where
  pub call-Leaves : (p : Pc) → s.pc i ≡ p → Leaves n 3 i s
  call-Leaves outside e = (s, here, omega arith, e, λ j ne. refl)
  call-Leaves (has raw) e =
      let st = get_loads i raw l e in
      first _ st refl (from_got_seen (Step-Inv st v) l (at_self s.pc i _))
  call-Leaves (has_seen raw seen) e =
      let st = get_fails i raw seen l e in
      first _ st refl (from_got_seen (Step-Inv st v) l (at_self s.pc i _))
  call-Leaves (has_counted raw) e = at_most (omega arith) (from_counted v l e)
  call-Leaves put e =
      let st = put_loads i l e in
      at_most (omega arith) (first _ st refl (from_put_seen (Step-Inv st v) l (at_self s.pc i _)))
  call-Leaves (put_seen seen) e =
      let st = put_fails i seen l e in
      at_most (omega arith) (first _ st refl (from_put_seen (Step-Inv st v) l (at_self s.pc i _)))

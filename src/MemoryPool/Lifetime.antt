-- ===== src/MemoryPool/Lifetime.antt =====
-- A pool from its construction through any sequence of calls.
use mathlib.Core.List.{Mem, Nodup, Nodup-cons, Nodup-nil, Nodup-append, not-mem-nil, mem-cons}
use mathlib.Core.List.Perm
use mathlib.Core.HLevel.{⊥_prop}
use mathlib.Core.Logic.{◌↔◌}
use mathlib.Core.Logic.Or
use reiser_rt_core.Prelude.{
  ℕ, zero, suc, ◌+◌, ◌*◌, ◌%◌, ◌^◌, ◌<◌, ◌≡◌, refl, ap, subst, ◌∙◌, List, [], ◌∷◌, ◌++◌, arith,
  length, built, All,
}
use reiser_rt_core.Outcome.{Exception, returns, throws, ring_buffer_underflow}
use reiser_rt_core.MemoryPool.{MemoryPool, pointer_size, construct, get_raw_block, return_raw_block}
use reiser_rt_core.MemoryPool.Ownership.{
  Owns, IsBlock, blocks, sizes-get_raw_block, sizes-return_raw_block,
}
use reiser_rt_core.MemoryPool.Lending.{get_raw_block_lends, get_raw_block_exhausted}
use reiser_rt_core.MemoryPool.Returning.{return_raw_block_regains}
use reiser_rt_core.MemoryPool.Construction.{construct-Owns}

-- A call of a client that returns what it has been lent, once. `lent` lists the blocks that the
-- clients hold.
pub data Step (p : MemoryPool) (lent : List ℕ) (q : MemoryPool) (lent' : List ℕ) : Type 0 where
  lends :
      (a : ℕ)
      → (get_raw_block p).0 ≡ returns a
      → q ≡ (get_raw_block p).1
      → lent' ≡ a ∷ lent
      → Step p lent q lent'
  refuses :
      (x : Exception)
      → (get_raw_block p).0 ≡ throws x
      → q ≡ (get_raw_block p).1
      → lent' ≡ lent
      → Step p lent q lent'
  regains :
      (before : List ℕ) (a : ℕ) (after : List ℕ)
      → lent ≡ before ++ a ∷ after
      → q ≡ (return_raw_block p a).1
      → lent' ≡ before ++ after
      → Step p lent q lent'

pub data Reach (p : MemoryPool) : MemoryPool → List ℕ → Type 0 where
  here : Reach p p []
  next :
      {q r : MemoryPool} {lent lent' : List ℕ}
      → Reach p q lent
      → Step q lent r lent'
      → Reach p r lent'

-- The pool is well-formed, with some free blocks beside the ones lent, and of whole pointers.
pub record Inv (p : MemoryPool) (lent : List ℕ) : Type 0 where
  pub free : List ℕ
  pub owns : Owns p free lent
  pub aligned : p.element_size % pointer_size ≡ 0

lends-Inv :
    (p : MemoryPool) (free lent : List ℕ) (a : ℕ)
    → p.element_size % pointer_size ≡ 0
    → Owns p free lent
    → (get_raw_block p).0 ≡ returns a
    → Inv (get_raw_block p).1 (a ∷ lent)
lends-Inv p [] lent a al h e = cc (e, ap (λ z. z.0) (get_raw_block_exhausted p lent h))
lends-Inv p (b ∷ free) lent a al h e =
    let (o, owns, wiped) = get_raw_block_lends p b free lent 0 al h in
    let same : b ≡ a = cc in
    record {
      free = free;
      owns = subst (λ c. Owns (get_raw_block p).1 free (c ∷ lent)) same owns;
      aligned = rw (sizes-get_raw_block p).0 al;
    }

refuses-Inv :
    (p : MemoryPool) (free lent : List ℕ) (x : Exception)
    → p.element_size % pointer_size ≡ 0
    → Owns p free lent
    → (get_raw_block p).0 ≡ throws x
    → Inv (get_raw_block p).1 lent
refuses-Inv p [] lent x al h e =
    rw (get_raw_block_exhausted p lent h) (record { free = []; owns = h; aligned = al })
refuses-Inv p (b ∷ free) lent x al h e = cc (e, (get_raw_block_lends p b free lent 0 al h).0)

Step-Inv : {p q : MemoryPool} {lent lent' : List ℕ} → Step p lent q lent' → Inv p lent → Inv q lent'
Step-Inv {p} (lends a e eq el) v = rw (eq, el) (lends-Inv p v.free _ a v.aligned v.owns e)
Step-Inv {p} {lent} (refuses x e eq el) v =
    rw (eq, el) (refuses-Inv p v.free _ x v.aligned v.owns e)
Step-Inv {p} (regains before a after el eq el') v =
    let (o, owns, kept) =
      return_raw_block_regains p a v.free before after (subst (Owns p v.free) el v.owns) in
    rw (eq, el')
      (record {
        free = v.free ++ a ∷ [];
        owns = owns;
        aligned = rw (sizes-return_raw_block p a).0 v.aligned;
      })

Reach-Inv : {p q : MemoryPool} {lent : List ℕ} → Inv p [] → Reach p q lent → Inv q lent
Reach-Inv v here = v
Reach-Inv v (next r st) = Step-Inv st (Reach-Inv v r)

not-mem_of_above : (a : ℕ) (xs : List ℕ) → All (λ b. a < b) xs → ¬ Mem a xs
not-mem_of_above a [] h m = not-mem-nil m
not-mem_of_above a (b ∷ xs) h m =
    Or.elim ⊥_prop (mem-cons.0 m) (λ e. absurd (omega arith)) (not-mem_of_above a xs h.1)

above : (size a n i : ℕ) → 0 < size → a < i * size → All (λ b. a < b) (built (λ j. j * size) i n)
above size a zero i pos h = tt
above size a (suc n) i pos h = (h, above size a n (i + 1) pos (omega arith))

-- Blocks that are not empty have different addresses.
pub Nodup-blocks : (size n i : ℕ) → 0 < size → Nodup (built (λ j. j * size) i n)
Nodup-blocks size zero i pos = Nodup-nil
Nodup-blocks size (suc n) i pos = Nodup-cons.1 (
  not-mem_of_above (i * size) _ (above size (i * size) n (i + 1) pos (omega arith)),
  Nodup-blocks size n (i + 1) pos,
)

same_size : {p q : MemoryPool} {lent : List ℕ} → Reach p q lent → q.element_size ≡ p.element_size
same_size here = refl
same_size (next r (lends a e eq el)) =
    ap (λ z. z.element_size) eq ∙ (sizes-get_raw_block _).0 ∙ same_size r
same_size (next r (refuses x e eq el)) =
    ap (λ z. z.element_size) eq ∙ (sizes-get_raw_block _).0 ∙ same_size r
same_size (next r (regains before a after el eq el')) =
    ap (λ z. z.element_size) eq ∙ (sizes-return_raw_block _ a).0 ∙ same_size r

refused_iff :
    (q : MemoryPool) (free lent : List ℕ)
    → q.element_size % pointer_size ≡ 0
    → Owns q free lent
    → ((get_raw_block q).0 ≡ throws ring_buffer_underflow) ↔ (length lent ≡ q.pool_size)
refused_iff q [] lent al h =
    ((λ e. omega (arith, h.all_there)), λ e. ap (λ z. z.0) (get_raw_block_exhausted q lent h))
refused_iff q (b ∷ free) lent al h = (
  (λ e. cc (e, (get_raw_block_lends q b free lent 0 al h).0)),
  λ e. absurd (omega (arith, h.all_there)),
)

-- A new pool, of blocks of a whole number of pointers, not empty and small enough that 2 ^ 20 of
-- them have an address: after any sequence of calls by clients that return only what they hold,
-- the blocks lent are different blocks of the arena, the running count is the number of blocks
-- that are not lent, and a request is refused exactly when all are lent.
pub lent_blocks_distinct :
    (garbage bytes : ℕ → ℕ) (requested size : ℕ) {p q : MemoryPool} {lent : List ℕ}
    → size * 2 ^ 20 < 2 ^ 64
    → 0 < size
    → size % pointer_size ≡ 0
    → construct garbage bytes requested size ≡ returns p
    → Reach p q lent
    → Nodup lent
      × All (IsBlock q) lent
      × (q.running_count + length lent ≡ q.pool_size)
      × (((get_raw_block q).0 ≡ throws ring_buffer_underflow) ↔ (length lent ≡ q.pool_size))
lent_blocks_distinct garbage bytes requested size {p} {q} {lent} fits pos aligned c r =
    let (p', c', owns, e, n) = construct-Owns garbage bytes requested size fits in
    let same : p' ≡ p = cc in
    let v : Inv q lent =
      Reach-Inv
        (subst (λ z. Inv z []) same
          (record { free = blocks p'; owns = owns; aligned = rw e aligned }))
        r in
    let eq : q.element_size ≡ size = same_size r ∙ (subst (λ z. z.element_size ≡ size) same e) in
    (
      (Nodup-append.0 (
          Perm.nodup (Perm.symm v.owns.shares)
            (Nodup-blocks q.element_size q.pool_size 0 (omega arith)))).1,
      v.owns.lent_blocks,
      omega (arith, v.owns.running, v.owns.all_there),
      refused_iff q v.free lent v.aligned v.owns,
    )

-- ===== src/ObjectPool/Objects.antt =====
-- The objects of a pool, from createObj to the deleter.
use reiser_rt_core.Prelude.{ℕ, ◌+◌, ◌%◌, ◌≤◌, ◌≡◌, refl, none, some, List, [], ◌∷◌, ◌++◌, arith}
use reiser_rt_core.Prelude.Families.{update}
use reiser_rt_core.Outcome.{Exception, returns, throws}
use reiser_rt_core.MemoryPool.{pointer_size, to_pool, get_raw_block, return_raw_block, wiped}
use reiser_rt_core.MemoryPool.Ownership.{Owns}
use reiser_rt_core.MemoryPool.Lending.{get_raw_block_lends}
use reiser_rt_core.MemoryPool.Returning.{return_raw_block_regains}
use reiser_rt_core.ObjectPool.{ObjectPool, create_obj, delete_obj}

module _ {T : Type 0} (p : ObjectPool T) (size : ℕ) where
  created_at :
      (base a : ℕ) (t : T)
      → size ≤ p.pool.padded_element_size
      → (get_raw_block p.pool).0 ≡ returns a
      → let m = (get_raw_block p.pool).1 in
        create_obj size base (returns t) p ≡ (
          returns (a + base),
          record {
            pool = m;
            objects = update (wiped p.objects a m.padded_element_size) (a + base) (some t);
          },
        )
  unfolding create_obj
  created_at base a t fits e = ground arith

  create_failed :
      (a : ℕ) (x : Exception)
      → size ≤ p.pool.padded_element_size
      → (get_raw_block p.pool).0 ≡ returns a
      → (return_raw_block (get_raw_block p.pool).1 a).0 ≡ returns tt
      → ((create_obj size 0 (throws x) p).0 ≡ throws x)
        × ((create_obj size 0 (throws x) p).1.pool
            ≡ (return_raw_block (get_raw_block p.pool).1 a).1)
  unfolding create_obj
  create_failed a x fits e r = ground arith

deleted_at :
    {T : Type 0} (q : ObjectPool T) (a : ℕ) (t : T)
    → q.objects a ≡ some t
    → (return_raw_block q.pool a).0 ≡ returns tt
    → delete_obj to_pool a q ≡ (
      returns tt,
      record { pool = (return_raw_block q.pool a).1; objects = update q.objects a none },
    )
unfolding delete_obj
deleted_at q a t e r = ground arith

module _ {T : Type 0} (p : ObjectPool T) (size a : ℕ) (free lent : List ℕ)
    (aligned : p.pool.element_size % pointer_size ≡ 0) (fits : size ≤ p.pool.padded_element_size)
    (h : Owns p.pool (a ∷ free) lent) where
  -- Blocks of a whole number of pointers, one of them free, and an object that fits and whose base
  -- lies at its start: createObj returns the address of the oldest free block, where the object is
  -- alive, and the deleter then destroys the object and makes the block the last free one.
  pub create_delete :
      (t : T)
      → let (o, p1) = create_obj size 0 (returns t) p in
        let (d, p2) = delete_obj to_pool a p1 in
        (o ≡ returns a)
        × Owns p1.pool free (a ∷ lent)
        × (p1.objects a ≡ some t)
        × (d ≡ returns tt)
        × Owns p2.pool (free ++ a ∷ []) lent
        × (p2.objects a ≡ none)
  create_delete t =
      let (e, owns, w) = get_raw_block_lends p.pool a free lent a aligned h in
      let (r, back, kept) = return_raw_block_regains (get_raw_block p.pool).1 a free [] lent owns in
      let z : a + 0 ≡ a = omega arith in
      let p1 : ObjectPool T = record {
        pool = (get_raw_block p.pool).1;
        objects =
            update (wiped p.objects a (get_raw_block p.pool).1.padded_element_size) a (some t);
      } in
      let alive : p1.objects a ≡ some t = ground arith in
      rw (created_at p size 0 a t fits e, z, deleted_at p1 a t alive r)
        (refl, owns, alive, refl, back, ground arith)

  -- Blocks of a whole number of pointers, one of them free, and an object that fits and whose
  -- constructor throws: createObj throws the same, and the block is the last free one.
  pub create_obj_throws :
      (x : Exception)
      → let (o, q) = create_obj size 0 (throws x) p in
        (o ≡ throws x) × Owns q.pool (free ++ a ∷ []) lent
  create_obj_throws x =
      let (e, owns, w) = get_raw_block_lends p.pool a free lent a aligned h in
      let (r, back, kept) = return_raw_block_regains (get_raw_block p.pool).1 a free [] lent owns in
      let (o, q) = create_failed p size a x fits e r in (o, rw q back)

-- ===== src/ObjectPool.antt =====
-- src/ObjectPool.hpp and src/ObjectPoolDeleter.hpp: objects made in the blocks of a memory pool,
-- and the deleter of the smart pointers to them. An address is an offset into the arena of the
-- pool.
pub mod Objects
mod Tests
use reiser_rt_core.Prelude.{ℕ, ◌+◌, Option, none, some, ltb, if◌then◌else◌}
use reiser_rt_core.Prelude.Families.{update}
use reiser_rt_core.Outcome.{Outcome, returns, throws, fault, object_pool_element_size_error}
use reiser_rt_core.MemoryPool as Memory
use reiser_rt_core.MemoryPool.{
  MemoryPool, get_raw_block, return_raw_block, wiped, MemoryPoolDeleterBase, no_pool, to_pool,
}

-- `objects` says which object lies at an address, if one is alive there.
pub record ObjectPool (T : Type 0) : Type 0 where
  pub pool : MemoryPool
  pub objects : ℕ → Option T

module _ {T : Type 0} where
  constructed : Outcome MemoryPool → Outcome (ObjectPool T)
  constructed (returns p) = returns (record { pool = p; objects = λ _. none })
  constructed (throws e) = throws e
  constructed fault = fault

  -- The constructor; `size_of` is the size of `T`.
  unfoldable pub construct : (ℕ → ℕ) → (ℕ → ℕ) → ℕ → ℕ → ℕ → Outcome (ObjectPool T)
  unfolding constructed
  construct garbage bytes requested min_type_alloc_size size_of = constructed (
      Memory.construct garbage bytes requested
        (if ltb min_type_alloc_size size_of then size_of else min_type_alloc_size))

  -- What a call in a `noexcept` destructor or deleter leaves, on the way out with `o`.
  returned :
      {B : Type 0}
      → Outcome B
      → Outcome (Unit {0}) × MemoryPool
      → ObjectPool T
      → Outcome B × ObjectPool T
  returned o (returns _, m) p = (o, record p { pool = m })
  returned o (_, m) p = (fault, record p { pool = m })

  -- The object made on a raw block: its constructor ends as `cook` says, and the `T` lies `base`
  -- bytes into it. If it throws, `RawMemoryManager` returns the block.
  made_on : ℕ → ℕ → Outcome T → ObjectPool T → Outcome ℕ × ObjectPool T
  unfolding returned
  made_on base raw (returns t) p =
      (returns (raw + base), record p { objects = update p.objects (raw + base) (some t) })
  made_on base raw (throws e) p = returned (throws e) (return_raw_block p.pool raw) p
  made_on base raw fault p = (fault, p)

  created : ℕ → Outcome T → Outcome ℕ × MemoryPool → ObjectPool T → Outcome ℕ × ObjectPool T
  unfolding made_on
  created base cook (returns raw, m) p =
      made_on base raw cook
        (record { pool = m; objects = wiped p.objects raw m.padded_element_size })
  created base cook (throws e, m) p = (throws e, record p { pool = m })
  created base cook (fault, m) p = (fault, record p { pool = m })

  -- `createObj` of an object of `size` bytes.
  unfoldable pub create_obj : ℕ → ℕ → Outcome T → ObjectPool T → Outcome ℕ × ObjectPool T
  unfolding created
  create_obj size base cook p =
      if ltb p.pool.padded_element_size size
      then (throws object_pool_element_size_error, p)
      else created base cook (get_raw_block p.pool) p

  -- The call operator of the deleter: the destructor, which does not throw, runs with or without a
  -- pool; of an address where no object is alive it is undefined.
  delete_finish : MemoryPoolDeleterBase → ℕ → ObjectPool T → Outcome (Unit {0}) × ObjectPool T
  unfolding returned
  delete_finish no_pool a p = (returns tt, p)
  delete_finish to_pool a p = returned (returns tt) (return_raw_block p.pool a) p

  unfoldable pub delete_obj :
      MemoryPoolDeleterBase → ℕ → ObjectPool T → Outcome (Unit {0}) × ObjectPool T
  unfolding delete_finish
  delete_obj deleter a p = elim (p.objects a) [
    | some t ↦ delete_finish deleter a (record p { objects = update p.objects a none })
    | none ↦ (fault, p)
  ]

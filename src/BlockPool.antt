-- ===== src/BlockPool.antt =====
-- src/BlockPool.hpp and src/BlockPoolDeleter.hpp: arrays of elements made in the blocks of a memory
-- pool, and the deleter of the smart pointers to them.
pub mod Elements
pub mod Arrays
mod Tests
use reiser_rt_core.Prelude.{
  built, get_elem?, ◌+◌, ℕ, zero, suc, ◌*◌, ◌/◌, Option, [], ◌∷◌, none, some, List, Bool, true,
  false,
}
use mathlib.Core.Option as Option
use reiser_rt_core.Prelude.Words.{u64}
use reiser_rt_core.Prelude.Families.{update}
use reiser_rt_core.Outcome.{Outcome, returns, throws, fault}
use reiser_rt_core.MemoryPool as Memory
use reiser_rt_core.MemoryPool.{
  MemoryPool, get_raw_block, return_raw_block, wiped, MemoryPoolDeleterBase, no_pool, to_pool,
}

-- `arrays` says which elements lie at an address, if an array is alive there.
pub record BlockPool (T : Type 0) : Type 0 where
  pub pool : MemoryPool
  pub elements_per_block : ℕ
  pub arrays : ℕ → Option (List T)

-- What `getBlock` asks of the element type.
pub data ElementKind : Type 0 where
  is_scalar is_nothrow_default_constructible may_throw : ElementKind

-- The `n` bytes from an address on.
abbrev pub bytes_at : List ℕ → ℕ → ℕ → List (Option ℕ)
bytes_at arena a n = built (get_elem? arena) a n

module _ {T : Type 0} where
  constructed : ℕ → Outcome MemoryPool → Outcome (BlockPool T)
  constructed n (returns p) =
      returns (record { pool = p; elements_per_block = n; arrays = λ _. none })
  constructed n (throws e) = throws e
  constructed n fault = fault

  -- The constructor; `size_of` is the size of `T`.
  unfoldable pub construct : (ℕ → ℕ) → (ℕ → ℕ) → ℕ → ℕ → ℕ → Outcome (BlockPool T)
  unfolding constructed
  construct garbage bytes requested elements_per_block size_of =
      constructed elements_per_block
        (Memory.construct garbage bytes requested (u64 (size_of * elements_per_block)))

  -- What a call in a `noexcept` destructor or deleter leaves, on the way out with `o`.
  returned :
      {B : Type 0}
      → Outcome B
      → Outcome (Unit {0}) × MemoryPool
      → BlockPool T
      → Outcome B × BlockPool T
  returned o (returns _, m) p = (o, record p { pool = m })
  returned o (_, m) p = (fault, record p { pool = m })

  -- `new T[ n ]` with the rounds left, from the element `i` on: the constructor of the element `i`
  -- ends as `cook i` says. If one throws, the elements made so far are destroyed, and the throw
  -- goes on.
  unfoldable pub make_elements : (ℕ → Outcome T) → ℕ → ℕ → Outcome (List T)
  make_elements cook zero i = returns []
  make_elements cook (suc n) i = elim (cook i) [
    | returns x ↦
        let rest = make_elements cook n (i + 1) in
        elim rest [ returns xs ↦ returns (x ∷ xs) | throws e ↦ throws e | fault ↦ fault ]
    | throws e ↦ throws e
    | fault ↦ fault
  ]

  -- The `n` scalars of `size_of` bytes from an address on; `scalar` says what bytes are of type
  -- `T`.
  abbrev pub scalars_at : (List (Option ℕ) → T) → List ℕ → ℕ → ℕ → ℕ → List T
  scalars_at scalar arena a size_of n =
      built (λ i. scalar (bytes_at arena (a + i * size_of) size_of)) 0 n

  -- What the elements of the array on a raw block are made of: the bytes that are there for a
  -- scalar type, and else `new T[ elementsPerBlock ]`.
  unfoldable pub cooked_elements :
      ElementKind → (List (Option ℕ) → T) → ℕ → (ℕ → Outcome T) → ℕ → BlockPool T → Outcome (List T)
  cooked_elements is_scalar scalar size_of cook raw p =
      returns (scalars_at scalar p.pool.arena raw size_of p.elements_per_block)
  cooked_elements _ scalar size_of cook raw p = make_elements cook p.elements_per_block 0

  -- The array made on a raw block. Of the types that may throw, `RawMemoryManager` returns the
  -- block; where the type promises not to throw, a throw ends the program.
  made_on : ElementKind → Outcome (List T) → ℕ → BlockPool T → Outcome ℕ × BlockPool T
  unfolding returned
  made_on kind (returns xs) raw p =
      (returns raw, record p { arrays = update p.arrays raw (some xs) })
  made_on may_throw (throws e) raw p = returned (throws e) (return_raw_block p.pool raw) p
  made_on kind _ raw p = (fault, p)

  got_raw :
      ElementKind
      → (List (Option ℕ) → T)
      → ℕ
      → (ℕ → Outcome T)
      → Outcome ℕ × MemoryPool
      → BlockPool T
      → Outcome ℕ × BlockPool T
  unfolding made_on cooked_elements
  got_raw kind scalar size_of cook (returns raw, m) p =
      let q = record p { pool = m; arrays = wiped p.arrays raw m.padded_element_size } in
      made_on kind (cooked_elements kind scalar size_of cook raw q) raw q
  got_raw kind scalar size_of cook (throws e, m) p = (throws e, record p { pool = m })
  got_raw kind scalar size_of cook (fault, m) p = (fault, record p { pool = m })

  -- `getBlock`; `size_of` is the size of `T`.
  unfoldable pub get_block :
      ElementKind
      → (List (Option ℕ) → T)
      → ℕ
      → (ℕ → Outcome T)
      → BlockPool T
      → Outcome ℕ × BlockPool T
  unfolding got_raw
  get_block kind scalar size_of cook p = got_raw kind scalar size_of cook (get_raw_block p.pool) p

  -- `BlockPoolDeleter::getNumElements`; `size_of` is the size of `T`.
  abbrev pub get_num_elements : MemoryPoolDeleterBase → ℕ → BlockPool T → ℕ
  get_num_elements no_pool size_of p = 0
  get_num_elements to_pool size_of p = p.pool.element_size / size_of

  -- The loop of the deleter over the elements from its pointer on: the ones that it destroys, in
  -- this order. Behind the last one it is undefined.
  unfoldable pub destroy_elements : ℕ → List T → Option (List T)
  destroy_elements zero xs = some []
  destroy_elements (suc n) [] = none
  destroy_elements (suc n) (x ∷ xs) = Option.map (λ ys. x ∷ ys) (destroy_elements n xs)

  -- What the deleter destroys of an array: nothing of a scalar type.
  abbrev pub destroy_array : ElementKind → ℕ → Option (List T) → Option (List T)
  destroy_array kind n none = none
  destroy_array is_scalar n (some xs) = some []
  destroy_array _ n (some xs) = destroy_elements n xs

  delete_finish : ℕ → BlockPool T → Option (List T) → Outcome (List T) × BlockPool T
  unfolding returned
  delete_finish a p none = (fault, p)
  delete_finish a p (some xs) =
      returned (returns xs) (return_raw_block p.pool a)
        (record p { arrays = update p.arrays a none })

  -- The call operator of the deleter, which returns here the elements that it has destroyed.
  unfoldable pub delete_block :
      MemoryPoolDeleterBase → ElementKind → ℕ → ℕ → BlockPool T → Outcome (List T) × BlockPool T
  unfolding delete_finish
  delete_block no_pool kind size_of a p = (returns [], p)
  delete_block to_pool kind size_of a p =
      delete_finish a p (destroy_array kind (get_num_elements to_pool size_of p) (p.arrays a))

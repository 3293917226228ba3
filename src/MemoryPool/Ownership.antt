-- ===== src/MemoryPool/Ownership.antt =====
-- Which blocks a pool has free and which it has lent.
use mathlib.Core.List.{Perm}
use reiser_rt_core.Prelude.{
  ℕ, ◌+◌, ◌*◌, ◌≤◌, ◌<◌, ◌≡◌, List, [], ◌∷◌, ◌++◌, arith, length, built, All,
}
use reiser_rt_core.RingBufferSimple.Contents.{Represents}
use reiser_rt_core.MemoryPool.{
  MemoryPool, get_padded_type_alloc_size, get_raw_block, return_raw_block,
}

-- `a` is the address of one of the blocks.
abbrev pub IsBlock : MemoryPool → ℕ → Type 0
IsBlock p a = (i : ℕ) × (i < p.pool_size) × (a ≡ i * p.element_size)

-- The addresses of all blocks.
abbrev pub blocks : MemoryPool → List ℕ
blocks p = built (λ i. i * p.element_size) 0 p.pool_size

-- The pool has the blocks `free` to hand out, in that order, and has lent the blocks `lent`; its
-- counts agree, and together they are all the blocks of its arena.
pub record Owns (p : MemoryPool) (free lent : List ℕ) : Type 0 where
  pub ring : Represents p.ring_buffer free
  pub size : p.pool_size ≡ p.ring_buffer.num_elements
  pub padded : p.padded_element_size ≡ get_padded_type_alloc_size p.element_size
  pub storage : length p.arena ≡ p.element_size * p.pool_size
  pub running : p.running_count ≡ length free
  pub low : p.low_watermark ≤ length free
  pub all_there : length free + length lent ≡ p.pool_size
  pub free_blocks : All (IsBlock p) free
  pub lent_blocks : All (IsBlock p) lent
  pub shares : Perm (free ++ lent) (blocks p)

-- A block lies inside the arena.
pub block_inside :
    (p : MemoryPool) (a : ℕ) → IsBlock p a → a + p.element_size ≤ p.element_size * p.pool_size
block_inside p a (i, lt, e) = grind (arith, e)

-- Pools that agree on the sizes have the same blocks.
pub IsBlock-same :
    (p q : MemoryPool)
    → q.pool_size ≡ p.pool_size
    → q.element_size ≡ p.element_size
    → (xs : List ℕ) → All (IsBlock p) xs
    → All (IsBlock q) xs
IsBlock-same p q e f [] h = tt
IsBlock-same p q e f (x ∷ xs) ((i, lt, at), h) = ((i, rw e lt, rw f at), IsBlock-same p q e f xs h)

-- No call changes the sizes of a pool.
pub sizes-get_raw_block :
    (p : MemoryPool)
    → ((get_raw_block p).1.element_size ≡ p.element_size)
      × ((get_raw_block p).1.pool_size ≡ p.pool_size)
unfolding get_raw_block
sizes-get_raw_block p = ground arith

pub sizes-return_raw_block :
    (p : MemoryPool) (a : ℕ)
    → ((return_raw_block p a).1.element_size ≡ p.element_size)
      × ((return_raw_block p a).1.pool_size ≡ p.pool_size)
unfolding return_raw_block
sizes-return_raw_block p a = ground arith

-- ===== src/MemoryPool/Construction.antt =====
-- A new pool has all its blocks free.
use mathlib.Core.List.{append_assoc, append-nil}
use mathlib.Core.List.Perm
use native.Mathlib.Nat.{mod-eq_of_lt}
use reiser_rt_core.Prelude.{
  ℕ, zero, suc, ◌+◌, ◌*◌, ◌^◌, ◌≤◌, ◌<◌, ◌≡◌, refl, sym, subst, ◌∙◌, List, [], ◌∷◌, ◌++◌, arith,
  length, length-append, built, length-built, built-congr, ap, All,
}
use reiser_rt_core.Prelude.Words.{u32, u64}
use reiser_rt_core.Outcome.{Outcome, returns}
use reiser_rt_core.RingBufferSimple as Ring
use reiser_rt_core.RingBufferSimple.{RingBufferSimple, allocate, num_bits_for_ne}
use reiser_rt_core.RingBufferSimple.Contents.{Represents, elements_bounds}
use reiser_rt_core.RingBufferSimple.Steps.{
  put_appends, num_elements-put, construct-Represents, elements_of_construct, length-allocate,
}
use reiser_rt_core.MemoryPool.{MemoryPool, get_padded_type_alloc_size, stuff, construct}
use reiser_rt_core.MemoryPool.Ownership.{Owns, IsBlock, blocks}

module _ (size : ℕ) where
  stuff_step :
      (n i : ℕ) (r : RingBufferSimple ℕ)
      → (Ring.put r (u64 (i * size))).0 ≡ returns tt
      → stuff size (suc n) i r ≡ stuff size n (i + 1) (Ring.put r (u64 (i * size))).1
  unfolding stuff
  stuff_step n i r e = ground arith

  stuff_fills :
      (n i : ℕ) (r : RingBufferSimple ℕ) (xs : List ℕ)
      → Represents r xs
      → length xs + n ≤ r.num_elements
      → let (o, r') = stuff size n i r in
        (o ≡ returns tt)
        × Represents r' (xs ++ built (λ j. u64 (j * size)) i n)
        × (r'.num_elements ≡ r.num_elements)
  stuff_fills zero i r xs h fits = unfold stuff in (refl, rw append-nil h, refl)
  stuff_fills (suc n) i r xs h fits =
      let (e, h') = put_appends xs (u64 (i * size)) h (omega arith) in
      let (o, h'', same) =
        stuff_fills n (i + 1) (Ring.put r (u64 (i * size))).1 (xs ++ u64 (i * size) ∷ []) h' (
          omega
            (arith, num_elements-put r (u64 (i * size)), length-append xs (u64 (i * size) ∷ []))) in
      rw (stuff_step n i r e) (
        o,
        subst (Represents _)
            (append_assoc xs (u64 (i * size) ∷ []) (built (λ j. u64 (j * size)) (i + 1) n)) h'',
        same ∙ num_elements-put r (u64 (i * size)),
      )

pub All-built :
    (P : ℕ → Type 0) (f : ℕ → ℕ) (n i k : ℕ)
    → i + n ≡ k
    → ((j : ℕ) → j < k → P (f j))
    → All P (built f i n)
All-built P f zero i k e h = tt
All-built P f (suc n) i k e h = (h i (omega arith), All-built P f n (i + 1) k (omega arith) h)

module _ (garbage bytes : ℕ → ℕ) (requested size : ℕ) where
  abbrev new_ring : RingBufferSimple ℕ
  new_ring = Ring.construct garbage requested

  abbrev full_ring : Outcome (Unit {0}) × RingBufferSimple ℕ
  full_ring = stuff size new_ring.num_elements 0 new_ring

  abbrev new_pool : MemoryPool
  new_pool = record {
    ring_buffer = full_ring.1;
    element_size = size;
    padded_element_size = get_padded_type_alloc_size size;
    pool_size = full_ring.1.num_elements;
    running_count = u32 full_ring.1.num_elements;
    low_watermark = u32 full_ring.1.num_elements;
    arena = allocate (u64 (size * full_ring.1.num_elements)) bytes;
  }

  filled :
      (full_ring.0 ≡ returns tt)
      × Represents full_ring.1 (built (λ j. u64 (j * size)) 0 new_ring.num_elements)
      × (full_ring.1.num_elements ≡ new_ring.num_elements)
  filled =
      stuff_fills size new_ring.num_elements 0 new_ring [] (construct-Represents garbage requested)
        (omega arith)

  -- For elements so small that 2 ^ 20 of them have an address, construction succeeds, and gives a
  -- pool with the least power of two of blocks that is not below the clamped request, all free, in
  -- the order of their addresses.
  pub construct-Owns :
      size * 2 ^ 20 < 2 ^ 64
      → (p : MemoryPool) × (construct garbage bytes requested size ≡ returns p)
        × Owns p (blocks p) []
        × (p.element_size ≡ size)
        × (p.pool_size ≡ 2 ^ num_bits_for_ne requested)
  unfolding construct
  construct-Owns h = (
    new_pool,
    ground (arith, filled),
    owns,
    refl,
    (filled.2 ∙ elements_of_construct garbage requested),
  )
    where
      few : (0 < full_ring.1.num_elements) × (full_ring.1.num_elements ≤ 2 ^ 20)
      few = elements_bounds full_ring.1 filled.1.sized

      count : length (blocks new_pool) ≡ full_ring.1.num_elements
      count = length-built (λ i. i * size) 0 full_ring.1.num_elements

      product : size * full_ring.1.num_elements < 2 ^ 64
      product = grind (arith, few, h)

      owns : Owns new_pool (blocks new_pool) []
      owns = record {
        ring =
            subst (Represents full_ring.1)
              (ap (built (λ j. u64 (j * size)) 0) (sym filled.2)
                ∙ built-congr _ (λ j. j * size) full_ring.1.num_elements 0 _ refl
                    (λ j lt. mod-eq_of_lt (grind (arith, few, h))))
              filled.1;
        size = refl;
        padded = refl;
        storage = length-allocate _ bytes ∙ mod-eq_of_lt product;
        running = omega (arith, few, count);
        low = omega (arith, few, count);
        all_there = omega (arith, count);
        free_blocks =
            All-built (IsBlock new_pool) (λ i. i * size) full_ring.1.num_elements 0 _ refl
              (λ j lt. (j, omega arith, refl));
        lent_blocks = tt;
        shares = rw append-nil (Perm.refl (blocks new_pool));
      }

-- ===== src/BlockPool/Tests.antt =====
-- A pool of arrays of src/BlockPool.hpp.
use reiser_rt_core.Prelude.{ℕ, ◌+◌, ◌≡◌, refl, arith, Option, none, some, List, [], ◌∷◌}
use reiser_rt_core.Outcome.{returns}
use reiser_rt_core.MemoryPool.{to_pool}
use reiser_rt_core.MemoryPool.Ownership.{Owns}
use reiser_rt_core.MemoryPool.Tests.{fresh, fresh-Owns, fresh_constructed}
use reiser_rt_core.BlockPool.{BlockPool, may_throw, construct, get_block, delete_block}
use reiser_rt_core.BlockPool.Elements.{made, ended}
use reiser_rt_core.BlockPool.Arrays.{get_delete}

-- Blocks of two elements of 4 bytes.
abbrev pairs : BlockPool ℕ
pairs = record { pool = fresh 8; elements_per_block = 2; arrays = λ _. none }

pairs_constructed : construct {T = ℕ} (λ _. 9) (λ _. 170) 2 2 4 ≡ returns pairs
unfolding construct
pairs_constructed = let c = fresh_constructed in ground arith

abbrev first_byte : List (Option ℕ) → ℕ
first_byte (some b ∷ bs) = b
first_byte _ = 0

get_delete_example :
    let (o, p1) = get_block may_throw first_byte 4 (λ i. returns (i + 5)) pairs in
    let (d, p2) = delete_block to_pool may_throw 4 0 p1 in
    let array = made may_throw first_byte 4 (λ i. i + 5) 2 in
    (o ≡ returns 0)
    × Owns p1.pool (8 ∷ []) (0 ∷ [])
    × (p1.arrays 0 ≡ some array)
    × (d ≡ returns (ended may_throw array))
    × Owns p2.pool (8 ∷ 0 ∷ []) []
    × (p2.arrays 0 ≡ none)
get_delete_example =
    get_delete (λ _. 9) (λ _. 170) 2 2 4 (omega arith) (omega arith) refl pairs_constructed pairs
      (refl, refl) 0 (8 ∷ []) [] fresh-Owns first_byte (λ i. returns (i + 5)) may_throw (λ i. i + 5)
      (λ i l. refl)

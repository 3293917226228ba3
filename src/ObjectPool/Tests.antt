-- ===== src/ObjectPool/Tests.antt =====
-- A pool of numbers of src/ObjectPool.hpp.
use reiser_rt_core.Prelude.{ℕ, ◌≡◌, refl, none, some, [], ◌∷◌, arith}
use reiser_rt_core.Outcome.{returns}
use reiser_rt_core.MemoryPool.{get_padded_type_alloc_size, to_pool}
use reiser_rt_core.MemoryPool.Ownership.{Owns}
use reiser_rt_core.MemoryPool.Tests.{fresh, fresh-Owns}
use reiser_rt_core.ObjectPool.{ObjectPool, create_obj, delete_obj}
use reiser_rt_core.ObjectPool.Objects.{create_delete}

abbrev numbers : ObjectPool ℕ
numbers = record { pool = fresh 8; objects = λ _. none }

create_delete_example :
    let (o, p1) = create_obj 8 0 (returns 42) numbers in
    let (d, p2) = delete_obj to_pool 0 p1 in
    (o ≡ returns 0)
    × Owns p1.pool (8 ∷ []) (0 ∷ [])
    × (p1.objects 0 ≡ some 42)
    × (d ≡ returns tt)
    × Owns p2.pool (8 ∷ 0 ∷ []) []
    × (p2.objects 0 ≡ none)
unfolding get_padded_type_alloc_size
create_delete_example = create_delete numbers 8 0 (8 ∷ []) [] refl (omega arith) fresh-Owns 42

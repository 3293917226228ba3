-- ===== src/MemoryPool/Memory.antt =====
-- Padded sizes, and what `memset` writes.
use reiser_rt_core.Prelude.{
  ltb, leb, ◌&&◌, if◌then◌else◌, ℕ, zero, suc, ◌+◌, ◌-◌, ◌%◌, ◌^◌, ◌≤◌, ◌<◌, ◌≡◌, refl, ap, ◌⊎◌,
  some, List, [], ◌∷◌, arith, length, get_elem?,
}
use reiser_rt_core.MemoryPool.{get_padded_type_alloc_size, pointer_size, fill, memset}

-- The padded size is the least multiple of the pointer size that holds the element.
pub padded_least :
    (size : ℕ)
    → size < 2 ^ 64 - pointer_size
    → let padded = get_padded_type_alloc_size size in
      (padded % pointer_size ≡ 0) × (size ≤ padded) × (padded < size + pointer_size)
unfolding get_padded_type_alloc_size
padded_least size h = (ground arith, ground arith, ground arith)

pub padded_of_multiple :
    (size : ℕ) → size % pointer_size ≡ 0 → get_padded_type_alloc_size size ≡ size
unfolding get_padded_type_alloc_size
padded_of_multiple size h = ground arith

pub length-fill : (bs : List ℕ) (i n v : ℕ) → length (fill bs i n v) ≡ length bs
unfolding fill
length-fill [] i n v = refl
length-fill (b ∷ bs) zero zero v = refl
length-fill (b ∷ bs) zero (suc n) v = ap suc (length-fill bs zero n v)
length-fill (b ∷ bs) (suc i) n v = ap suc (length-fill bs i n v)

pub fill_inside :
    (bs : List ℕ) (i n v j : ℕ)
    → i ≤ j
    → j < i + n
    → j < length bs
    → get_elem? (fill bs i n v) j ≡ some v
unfolding fill
fill_inside [] i n v j lo hi h = absurd (omega arith)
fill_inside (b ∷ bs) zero zero v j lo hi h = absurd (omega arith)
fill_inside (b ∷ bs) zero (suc n) v zero lo hi h = refl
fill_inside (b ∷ bs) zero (suc n) v (suc j) lo hi h =
    fill_inside bs zero n v j (omega arith) (omega arith) (omega arith)
fill_inside (b ∷ bs) (suc i) n v zero lo hi h = absurd (omega arith)
fill_inside (b ∷ bs) (suc i) n v (suc j) lo hi h =
    fill_inside bs i n v j (omega arith) (omega arith) (omega arith)

pub fill_outside :
    (bs : List ℕ) (i n v j : ℕ)
    → (j < i) ⊎ (i + n ≤ j)
    → get_elem? (fill bs i n v) j ≡ get_elem? bs j
unfolding fill
fill_outside [] i n v j h = refl
fill_outside (b ∷ bs) zero zero v j h = refl
fill_outside (b ∷ bs) zero (suc n) v zero h = absurd (omega arith)
fill_outside (b ∷ bs) zero (suc n) v (suc j) h = fill_outside bs zero n v j (omega arith)
fill_outside (b ∷ bs) (suc i) n v zero h = refl
fill_outside (b ∷ bs) (suc i) n v (suc j) h = fill_outside bs i n v j (omega arith)

-- Each byte after a `fill` that stays inside.
pub fill_lem :
    (bs : List ℕ) (i n v j : ℕ)
    → i + n ≤ length bs
    → get_elem? (fill bs i n v) j ≡ (if leb i j && ltb j (i + n) then some v else get_elem? bs j)
fill_lem bs i n v j inside = ground (arith, fill_inside bs i n v j, fill_outside bs i n v j)

pub memset_inside :
    (bytes : List ℕ) (i v n : ℕ)
    → i + n ≤ length bytes
    → memset bytes i v n ≡ some (fill bytes i n v)
unfolding memset
memset_inside bytes i v n h = ground arith

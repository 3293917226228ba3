-- ===== src/MemoryPool/Places.antt =====
-- How often an address is one of a list of blocks, in equal distances.
use reiser_rt_core.Prelude.{
  ℕ, zero, suc, ◌+◌, ◌*◌, ◌≤◌, ◌<◌, ◌≡◌, ℕ_discrete, sym, refl, arith, built,
}
use reiser_rt_core.Prelude.Occurrences.{same, occurrences}

occurrences_below : (a size k i : ℕ) → a < i * size → occurrences a (built (λ j. j * size) i k) ≡ 0
occurrences_below a size zero i h = refl
occurrences_below a size (suc k) i h =
    ground (arith, occurrences_below a size k (i + 1) (omega (arith, h)))

pub same_self : (a : ℕ) → same a a ≡ 1
same_self a = ground arith

-- Blocks that are not empty have different addresses.
pub occurrences-le_one : (a size k i : ℕ) → 0 < size → occurrences a (built (λ j. j * size) i k) ≤ 1
occurrences-le_one a size zero i pos = omega arith
occurrences-le_one a size (suc k) i pos = elim (ℕ_discrete (i * size) a) [
  | yes e ↦ ground (arith, occurrences_below a size k (i + 1) (omega (arith, e)))
  | no ne ↦ ground (arith, occurrences-le_one a size k (i + 1) pos)
]

pub occurrences-built :
    (a : ℕ) (f : ℕ → ℕ) (k i : ℕ)
    → 0 < occurrences a (built f i k)
    → (j : ℕ) × (j < i + k) × (a ≡ f j)
occurrences-built a f zero i h = absurd (omega arith)
occurrences-built a f (suc k) i h = elim (ℕ_discrete (f i) a) [
  | yes e ↦ (i, omega arith, sym e)
  | no ne ↦
      let (j, l, e) = occurrences-built a f k (i + 1) (ground arith) in (j, omega (arith, l), e)
]

-- ===== src/Prelude/Families.antt =====
-- One value for each thread: a change at one thread, and sums over the first `n` threads.
use Prim.Native.Nat.{ℕ, zero, suc, ◌+◌, ◌≤◌, ◌<◌}
use mathlib.Core.Path.{◌≡◌, refl}
use mathlib.Core.Logic.{ite}
use native.Mathlib.Decide.{dec_lt, ℕ_discrete}
use native.Mathlib.Omega.{arith}

abbrev pub update {ℓ} : {A : Type ℓ} → (ℕ → A) → ℕ → A → ℕ → A
update f i a j = ite (ℕ_discrete j i) a (f j)

module _ {ℓ} {A : Type ℓ} where
  unfoldable pub total : (A → ℕ) → ℕ → (ℕ → A) → ℕ
  total w zero f = 0
  total w (suc n) f = w (f n) + total w n f

  total-update_outside :
      (w : A → ℕ) (n i : ℕ) (f : ℕ → A) (a : A) → n ≤ i → total w n (update f i a) ≡ total w n f
  unfolding total
  total-update_outside w zero i f a h = refl
  total-update_outside w (suc n) i f a h = ground (arith, total-update_outside w n i f a)

  -- A change at one thread exchanges its share of the sum.
  pub total-update :
      (w : A → ℕ) (n i : ℕ) (f : ℕ → A) (a : A)
      → i < n
      → total w n (update f i a) + w (f i) ≡ w a + total w n f
  unfolding total
  total-update w zero i f a h = elim h [ ]
  total-update w (suc n) i f a h = elim (ℕ_discrete n i) [
    | yes e ↦ ground (arith, total-update_outside w n i f a)
    | no ne ↦ ground (arith, total-update w n i f a)
  ]

  pub total-le : (w : A → ℕ) → ((a : A) → w a ≤ 1) → (n : ℕ) (f : ℕ → A) → total w n f ≤ n
  unfolding total
  total-le w small zero f = omega arith
  total-le w small (suc n) f = omega (arith, small (f n), total-le w small n f)

  -- The same where it is known of the threads that are summed only.
  pub total-le_below :
      (w : A → ℕ) (n : ℕ) (f : ℕ → A) → ((i : ℕ) → i < n → w (f i) ≤ 1) → total w n f ≤ n
  unfolding total
  total-le_below w zero f small = omega arith
  total-le_below w (suc n) f small =
      let rest = total-le_below w n f (λ i l. small i (omega (arith, l))) in
      omega (arith, rest, small n (omega arith))

  pub total-zero_below :
      (w : A → ℕ) (n : ℕ) (f : ℕ → A) → ((i : ℕ) → i < n → w (f i) ≡ 0) → total w n f ≡ 0
  unfolding total
  total-zero_below w zero f none_there = refl
  total-zero_below w (suc n) f none_there =
      let rest = total-zero_below w n f (λ i l. none_there i (omega (arith, l))) in
      omega (arith, rest, none_there n (omega arith))

  -- A change at every thread, by the change in what each counts for.
  pub total-map :
      (w u v : A → ℕ) (g : A → A)
      → ((a : A) → w (g a) ≡ u a + v a)
      → (n : ℕ) (f : ℕ → A) → total w n (λ j. g (f j)) ≡ total u n f + total v n f
  unfolding total
  total-map w u v g h zero f = omega arith
  total-map w u v g h (suc n) f = omega (arith, h (f n), total-map w u v g h n f)

  pub total-zero : (w : A → ℕ) (n : ℕ) (a : A) → w a ≡ 0 → total w n (λ _. a) ≡ 0
  unfolding total
  total-zero w zero a h = refl
  total-zero w (suc n) a h = omega (arith, h, total-zero w n a h)

  pub total-map_same :
      (w : A → ℕ) (g : A → A)
      → ((a : A) → w (g a) ≡ w a)
      → (n : ℕ) (f : ℕ → A) → total w n (λ j. g (f j)) ≡ total w n f
  unfolding total
  total-map_same w g h zero f = refl
  total-map_same w g h (suc n) f = omega (arith, h (f n), total-map_same w g h n f)

  pub total-map_none :
      (w : A → ℕ) (g : A → A)
      → ((a : A) → w (g a) ≡ 0)
      → (n : ℕ) (f : ℕ → A) → total w n (λ j. g (f j)) ≡ 0
  unfolding total
  total-map_none w g h zero f = refl
  total-map_none w g h (suc n) f = omega (arith, h (f n), total-map_none w g h n f)

  -- Who counts towards a sum that is not zero.
  pub total_witness :
      (w : A → ℕ) (n : ℕ) (f : ℕ → A) → 0 < total w n f → (i : ℕ) × (i < n) × (0 < w (f i))
  unfolding total
  total_witness w zero f h = elim h [ ]
  total_witness w (suc n) f h = elim (dec_lt 0 (w (f n))) [
    | yes p ↦ (n, omega arith, p)
    | no p ↦ let (i, lt, q) = total_witness w n f (omega arith) in (i, omega arith, q)
  ]

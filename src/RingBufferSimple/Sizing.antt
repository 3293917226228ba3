-- ===== src/RingBufferSimple/Sizing.antt =====
-- How many elements a ring gets: `numBitsForNE` and `maskForNB`.
use mathlib.Core.Logic.{dif_pos, dif_neg}
use mathlib.Core.WellFounded.{Acc}
use native.Mathlib.Nat.{pow-suc, pow-le-pow_right}
use native.Mathlib.Bridge.{le_prop}
use reiser_rt_core.Prelude.{ℕ, zero, suc, ◌+◌, ◌-◌, ◌*◌, ◌/◌, ◌^◌, ◌≤◌, ◌<◌, ◌≡◌, arith, dec_lt}
use reiser_rt_core.Prelude.Words.{u32, lt_wf}
use reiser_rt_core.RingBufferSimple.{
  max_elements, half-lt, raw_num_bits_acc, raw_num_bits_for_ne, clamp, num_bits_for_ne,
}

-- `b` binary digits hold `n`, and no fewer do.
pub record IsWidth (n b : ℕ) : Type 0 where
  pub holds : n < 2 ^ b
  pub least : 0 < n → 2 ^ b ≤ 2 * n
  pub small : b ≤ n

u32-suc : {b m : ℕ} → b ≤ m → suc m < 2 ^ 32 → u32 (b + 1) ≡ suc b
u32-suc h k = omega arith

IsWidth-half : (n b : ℕ) → 0 < n → IsWidth (n / 2) b → IsWidth n (suc b)
IsWidth-half n zero h w = record {
  holds = omega (arith, w.holds, pow-suc 2 0);
  least = omega (arith, pow-suc 2 0);
  small = omega arith;
}
IsWidth-half n (suc b) h w = record {
  holds = omega (arith, w.holds, pow-suc 2 (suc b));
  least = omega (arith, w.least, w.small, pow-suc 2 (suc b));
  small = omega (arith, w.small);
}

raw_num_bits_acc-IsWidth : (n : ℕ) (w : Acc ◌<◌ n) → n < 2 ^ 32 → IsWidth n (raw_num_bits_acc n w)
unfolding raw_num_bits_acc
raw_num_bits_acc-IsWidth n (Acc.intro _ smaller) fits = elim (dec_lt 0 n) [
  | yes p ↦
      let half = raw_num_bits_acc-IsWidth (n / 2) (smaller (n / 2) (half-lt n p)) (omega arith) in
      rw (dif_pos (dec_lt 0 n) le_prop p)
        (rw (u32-suc half.small (omega arith)) (IsWidth-half n _ p half))
  | no p ↦
      rw (dif_neg (dec_lt 0 n) p)
        (record { holds = omega arith; least = omega arith; small = omega arith })
]

pub num_bits-IsWidth : (n : ℕ) → n < 2 ^ 32 → IsWidth n (raw_num_bits_for_ne n)
unfolding raw_num_bits_for_ne
num_bits-IsWidth n = raw_num_bits_acc-IsWidth n (lt_wf.apply n)

pub clamp_bounds : (n : ℕ) → (2 ≤ clamp n) × (clamp n ≤ max_elements)
unfolding clamp
clamp_bounds n = ground arith

pub clamp-ge : (n : ℕ) → n ≤ max_elements → n ≤ clamp n
unfolding clamp
clamp-ge n h = ground arith

num_bits_for_ne-IsWidth :
    (requested : ℕ) → IsWidth (clamp requested - 1) (num_bits_for_ne requested)
unfolding num_bits_for_ne
num_bits_for_ne-IsWidth requested =
    let c = clamp_bounds requested in
    let half = num_bits-IsWidth ((clamp requested - 1) / 2) (omega arith) in
    rw (u32-suc half.small (omega arith)) (IsWidth-half (clamp requested - 1) _ (omega arith) half)

-- The number of bits is the least whose power of two is not below the clamped request, and it is
-- between 1 and 20.
pub num_bits_for_ne_least :
    (requested : ℕ)
    → let b = num_bits_for_ne requested in
      (clamp requested ≤ 2 ^ b) × (2 ^ b < 2 * clamp requested) × (1 ≤ b) × (b ≤ 20)
num_bits_for_ne_least requested = (
  omega (arith, w.holds),
  omega (arith, w.least (omega (arith, c.0)), c.0),
  grind (arith, w.holds, c.0),
  few,
)
  where
    c : (2 ≤ clamp requested) × (clamp requested ≤ max_elements)
    c = clamp_bounds requested

    w : IsWidth (clamp requested - 1) (num_bits_for_ne requested)
    w = num_bits_for_ne-IsWidth requested

    few : num_bits_for_ne requested ≤ 20
    few = elim (dec_lt 20 (num_bits_for_ne requested)) [
      | yes more ↦ absurd (
          omega (
            arith,
            w.least (omega (arith, c.0)),
            c.1,
            pow-le-pow_right {n = 2} (omega arith) {i = 21} more,
          ))
      | no most ↦ omega arith
    ]

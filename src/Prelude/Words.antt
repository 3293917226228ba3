-- ===== src/Prelude/Words.antt =====
-- The unsigned integers of the source: `uint32_t` and `uint16_t` arithmetic wraps, and a mask of
-- low bits is a remainder.
use Prim.Native.Nat.{
  ℕ, zero, suc, ◌+◌, ◌-◌, ◌*◌, ◌/◌, ◌%◌, ◌^◌, ◌≤◌, ◌<◌, ◌∣◌, min, bit_and, digits,
}
use Prim.Native.Nat.{bit_and-bitwise}
use mathlib.Core.Path.{◌≡◌, sym, ap, subst, ◌∙◌}
use mathlib.Core.Logic.{◌≢◌}
use mathlib.Core.WellFounded.{Acc, WellFounded}
use native.Mathlib.Decide.{dec_lt}
use native.Mathlib.Nat.{
  pow-suc, one-le-pow, mul-add-mod_self_left, mod-eq_of_lt, div-add-mod, mod-lt, mod-mod_of_dvd,
  mod-add-mod, mod-eq-sub-mod, zero-add, dvd-mul_right,
}
use native.Mathlib.Omega.{arith}

abbrev pub u32 : ℕ → ℕ
u32 n = n % 2 ^ 32

abbrev pub u64 : ℕ → ℕ
u64 n = n % 2 ^ 64

abbrev pub u16 : ℕ → ℕ
u16 n = n % 2 ^ 16

-- uint32_t a - b and ++a. `-` on ℕ stops at 0, so the modulus is added first.
abbrev pub sub32 : ℕ → ℕ → ℕ
sub32 a b = (a + 2 ^ 32 - b) % 2 ^ 32

abbrev pub max32 : ℕ
max32 = 2 ^ 32 - 1

-- The remainder by an even number, from the remainder of the half.
mod-double : (x m : ℕ) → 0 < m → x % (2 * m) ≡ x / 2 % m * 2 + x % 2
mod-double x m h =
    ap (λ (t : ℕ). t % (2 * m)) whole
    ∙ mul-add-mod_self_left (2 * m) (x / 2 / m) (x / 2 % m * 2 + x % 2)
    ∙ mod-eq_of_lt small
  where
    whole : x ≡ 2 * m * (x / 2 / m) + (x / 2 % m * 2 + x % 2)
    whole = omega (arith, div-add-mod (x / 2) m, div-add-mod x 2)

    small : x / 2 % m * 2 + x % 2 < 2 * m
    small = omega (arith, mod-lt (x / 2) h)

zero-mod_pow : (k : ℕ) → 0 % 2 ^ k ≡ 0
zero-mod_pow k = mod-eq_of_lt (one-le-pow k 2 (omega arith))

-- The digits of the mask `2 ^ k - 1` select the lowest `k` digits.
low_digits : (n k a : ℕ) → a ≤ n → digits (λ b. zero) min n a (2 ^ k - 1) ≡ a % 2 ^ k
low_digits zero k zero h = sym (zero-mod_pow k)
low_digits zero k (suc a) h = absurd (omega arith)
low_digits (suc n) k zero h = sym (zero-mod_pow k)
low_digits (suc n) zero (suc a) h = omega (arith, low_digits n 0 (suc a / 2) (omega arith))
low_digits (suc n) (suc k) (suc a) h =
    rw (half_mask, odd_mask, low_digits n k (suc a / 2) (omega arith), doubled)
      (omega (arith, mod-double (suc a) (2 ^ k) positive))
  where
    positive : 0 < 2 ^ k
    positive = one-le-pow k 2 (omega arith)

    doubled : 2 ^ suc k ≡ 2 * 2 ^ k
    doubled = omega (arith, pow-suc 2 k)

    half_mask : (2 ^ suc k - 1) / 2 ≡ 2 ^ k - 1
    half_mask = omega (arith, doubled, positive)

    odd_mask : (2 ^ suc k - 1) % 2 ≡ 1
    odd_mask = omega (arith, doubled, positive)

-- A mask of `k` ones keeps the remainder by `2 ^ k`.
pub bit_and-mask : (a k : ℕ) → bit_and a (2 ^ k - 1) ≡ a % 2 ^ k
bit_and-mask a k = bit_and-bitwise a (2 ^ k - 1) ∙ low_digits a k a (omega arith)

pow-mul_pow : (a b : ℕ) → 2 ^ a * 2 ^ b ≡ 2 ^ (a + b)
pow-mul_pow zero b = rw zero-add (omega arith)
pow-mul_pow (suc a) b =
    let e : suc a + b ≡ suc (a + b) = omega arith in
    rw e (simp pow-suc (omega (arith, pow-mul_pow a b)))

-- `2 ^ k` divides the modulus of `uint32_t`, so wrapping does not disturb the remainder by it.
pub u32-mod_pow : (c k : ℕ) → k ≤ 32 → u32 c % 2 ^ k ≡ c % 2 ^ k
u32-mod_pow c k h =
    mod-mod_of_dvd (2 ^ k) c (subst (λ t. 2 ^ k ∣ t) whole (dvd-mul_right (2 ^ k) (2 ^ (32 - k))))
  where
    whole : 2 ^ k * 2 ^ (32 - k) ≡ 2 ^ 32
    whole =
        let e : k + (32 - k) ≡ 32 = omega arith in pow-mul_pow k (32 - k) ∙ ap (λ (t : ℕ). 2 ^ t) e

-- Fewer than `n` steps forward do not lead back to the same remainder.
pub add-mod-ne : (a d n : ℕ) → 0 < d → d < n → (a + d) % n ≢ a % n
add-mod-ne a d n hd hn = elim (dec_lt (a % n + d) n) [
  | yes p ↦ omega (arith, mod-add-mod a n d, mod-eq_of_lt p)
  | no p ↦ omega (
    arith,
    mod-add-mod a n d,
    mod-eq-sub-mod {n = a % n + d} {m = n} (omega arith),
    mod-eq_of_lt {n = a % n + d - n} {m = n} (omega (arith, mod-lt a {m = n})),
  )
]

Acc-below : (k n : ℕ) → n < k → Acc ◌<◌ n
Acc-below zero n h = elim h [ ]
Acc-below (suc k) n h = Acc.intro n (λ m hm. Acc-below k m (omega arith))

unfoldable pub lt_wf : WellFounded ◌<◌
unfolding Acc-below
lt_wf = record { apply = λ n. Acc-below (suc n) n (omega arith) }

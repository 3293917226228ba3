-- ===== src/RingBufferSimple.antt =====
-- src/RingBufferSimple.hpp: `RingBufferSimpleImple`, to which `RingBufferSimpleBase` and the
-- `RingBufferSimple` templates hand every call on unchanged. Counters are `uint32_t`.
pub mod Sizing
pub mod Contents
pub mod Steps
pub mod Refine
mod Tests
use mathlib.Core.Logic.{dite}
use mathlib.Core.WellFounded.{Acc}
use reiser_rt_core.Prelude.{
  ℕ, zero, suc, ◌+◌, ◌-◌, ◌/◌, ◌^◌, ◌<◌, bit_and, List, [], ◌∷◌, arith, dec_lt, ltb, if◌then◌else◌,
  length, get_elem?, set,
}
use reiser_rt_core.Prelude.Words.{u32, sub32, lt_wf}
use reiser_rt_core.Outcome.{
  Outcome, returns, throws, fault, or_fault, ring_buffer_underflow, ring_buffer_overflow,
}
use reiser_rt_core.BoundedQueue.{Op, puts, gets, Reply, stored, fetched}

abbrev pub max_elements : ℕ
max_elements = 2 ^ 20

pub half-lt : (n : ℕ) → 0 < n → n / 2 < n
half-lt n h = omega arith

-- `_numBitsForNE`, a recursion on `n >> 1`.
raw_num_bits_acc : (n : ℕ) → Acc ◌<◌ n → ℕ
raw_num_bits_acc n (Acc.intro _ smaller) =
    dite (dec_lt 0 n) (λ h. u32 (raw_num_bits_acc (n / 2) (smaller (n / 2) (half-lt n h)) + 1))
      (λ _. 0)

unfoldable pub raw_num_bits_for_ne : ℕ → ℕ
unfolding raw_num_bits_acc lt_wf dec_lt
raw_num_bits_for_ne n = raw_num_bits_acc n (lt_wf.apply n)

-- `maskForNB`. The shift is one of `int`: it is used at 20 bits at most, where it does not
-- overflow.
unfoldable pub mask_for_nb : ℕ → ℕ
mask_for_nb n = if ltb 0 n then 2 ^ n - 1 else 0

-- `numBitsForNE`, with its clamp.
unfoldable pub clamp : ℕ → ℕ
clamp n = if ltb n 2 then 2 else if ltb max_elements n then max_elements else n

unfoldable pub num_bits_for_ne : ℕ → ℕ
num_bits_for_ne requested = u32 (raw_num_bits_for_ne ((clamp requested - 1) / 2) + 1)

pub record RingBufferSimple {ℓ} (A : Type ℓ) : Type ℓ where
  pub get_count : ℕ
  pub put_count : ℕ
  pub num_bits : ℕ
  pub num_elements_mask : ℕ
  pub num_elements : ℕ
  pub element_buf : List A

-- `new ScalarType[n]`: `n` elements whose values are not determined; `garbage` supplies them.
unfoldable pub allocate {ℓ} : {A : Type ℓ} → ℕ → (ℕ → A) → List A
allocate zero garbage = []
allocate (suc n) garbage = garbage n ∷ allocate n garbage

module _ {ℓ} {A : Type ℓ} where
  unfoldable pub construct : (ℕ → A) → ℕ → RingBufferSimple A
  construct garbage requested =
      let bits = num_bits_for_ne requested in
      let mask = mask_for_nb bits in
      record {
        get_count = 2 ^ 32 - 1;
        put_count = 2 ^ 32 - 1;
        num_bits = bits;
        num_elements_mask = mask;
        num_elements = u32 (mask + 1);
        element_buf = allocate (u32 (mask + 1)) garbage;
      }

  unfoldable pub get : RingBufferSimple A → Outcome A × RingBufferSimple A
  get r =
      if ltb num_elements_mask (u32 (sub32 get_count put_count + num_elements))
      then (throws ring_buffer_underflow, r)
      else (
        or_fault (get_elem? element_buf (bit_and (u32 (get_count + 1)) num_elements_mask)),
        record r { get_count = u32 (get_count + 1) },
      )
    where
      open r use {get_count, put_count, num_elements_mask, num_elements, element_buf}

  -- `pElementBuf[ i ] = val`
  store : RingBufferSimple A → ℕ → A → Outcome (Unit {0}) × RingBufferSimple A
  store r i val =
      if ltb i (length r.element_buf)
      then (returns tt, record r { element_buf = set r.element_buf i val })
      else (fault, r)

  unfoldable pub put : RingBufferSimple A → A → Outcome (Unit {0}) × RingBufferSimple A
  unfolding store
  put r val =
      if ltb num_elements_mask (sub32 put_count get_count)
      then (throws ring_buffer_overflow, r)
      else store (record r { put_count = u32 (put_count + 1) })
          (bit_and (u32 (put_count + 1)) num_elements_mask) val
    where
      open r use {get_count, put_count, num_elements_mask}

  -- `getNumBits`, `getSize` and `getMask`.
  abbrev pub get_num_bits : RingBufferSimple A → ℕ
  get_num_bits r = r.num_bits

  abbrev pub get_size : RingBufferSimple A → ℕ
  get_size r = r.num_elements

  abbrev pub get_mask : RingBufferSimple A → ℕ
  get_mask r = r.num_elements_mask

  -- A client's calls in order, with what each returns.
  unfoldable pub run : RingBufferSimple A → List (Op A) → List (Reply A)
  run r [] = []
  run r (puts x ∷ ops) = let (o, s) = put r x in stored o ∷ run s ops
  run r (gets ∷ ops) = let (o, s) = get r in fetched o ∷ run s ops

-- ===== src/RingBufferSimple/Contents.antt =====
-- Which elements a ring holds, and the invariant of its fields.
use native.Mathlib.Nat.{mod-add-mod, mod-lt, one-le-pow, pow-le-pow_right}
use reiser_rt_core.Prelude.{
  ℕ, suc, ◌+◌, ◌-◌, ◌%◌, ◌^◌, ◌≤◌, ◌<◌, bit_and, ◌≡◌, ◌≢◌, ap, sym, ◌∙◌, some, List, [], ◌∷◌, ◌++◌,
  arith, length, get_elem?, set, get_elem?-set_self, get_elem?-set_ne,
}
use reiser_rt_core.Prelude.Words.{u32, sub32, bit_and-mask, u32-mod_pow, add-mod-ne}
use reiser_rt_core.RingBufferSimple.{RingBufferSimple}

-- Going round at `n`, the elements from the one behind counter `c` on are `xs`.
abbrev pub Holds {ℓ} : {A : Type ℓ} → List A → ℕ → ℕ → List A → Type ℓ
Holds buf n c [] = Unit
Holds buf n c (x ∷ xs) = (get_elem? buf ((c + 1) % n) ≡ some x) × Holds buf n (c + 1) xs

-- The constants of a ring fit one another.
pub record IsSized {ℓ} {A : Type ℓ} (r : RingBufferSimple A) : Type 0 where
  pub bits : r.num_bits ≤ 20
  pub elements : r.num_elements ≡ 2 ^ r.num_bits
  pub mask : r.num_elements_mask ≡ 2 ^ r.num_bits - 1
  pub storage : length r.element_buf ≡ r.num_elements

-- The ring `r` is well-formed and holds the elements `xs`, oldest first.
pub record Represents {ℓ} {A : Type ℓ} (r : RingBufferSimple A) (xs : List A) : Type ℓ where
  pub sized : IsSized r
  pub get_range : r.get_count < 2 ^ 32
  pub put_range : r.put_count < 2 ^ 32
  pub count : sub32 r.put_count r.get_count ≡ length xs
  pub fits : length xs ≤ r.num_elements
  pub held : Holds r.element_buf r.num_elements r.get_count xs

next-congr : (n c d : ℕ) → c % n ≡ d % n → (c + 1) % n ≡ (d + 1) % n
next-congr n c d e = sym (mod-add-mod c n 1) ∙ ap (λ (t : ℕ). (t + 1) % n) e ∙ mod-add-mod d n 1

module _ {ℓ} {A : Type ℓ} where
  -- Wrapping a counter does not change the index of its element.
  pub u32-slot :
      (r : RingBufferSimple A) (c : ℕ) → IsSized r → u32 c % r.num_elements ≡ c % r.num_elements
  u32-slot r c s = rw s.elements (u32-mod_pow c r.num_bits (omega (arith, s.bits)))

  -- Masking a wrapped counter gives the index of its element.
  pub slot :
      (r : RingBufferSimple A) (c : ℕ)
      → IsSized r
      → bit_and (u32 c) r.num_elements_mask ≡ c % r.num_elements
  slot r c s =
      ap (bit_and (u32 c)) s.mask
      ∙ bit_and-mask (u32 c) r.num_bits
      ∙ ap (λ (t : ℕ). u32 c % t) (sym s.elements)
      ∙ u32-slot r c s

  pub elements_bounds :
      (r : RingBufferSimple A) → IsSized r → (0 < r.num_elements) × (r.num_elements ≤ 2 ^ 20)
  elements_bounds r s = omega (
    arith,
    s.elements,
    one-le-pow r.num_bits 2 (omega arith),
    pow-le-pow_right {n = 2} (omega arith) s.bits,
  )

  pub Holds-congr :
      (buf : List A) (n c d : ℕ) (xs : List A) → c % n ≡ d % n → Holds buf n c xs → Holds buf n d xs
  Holds-congr buf n c d [] e h = tt
  Holds-congr buf n c d (x ∷ xs) e h =
      let e' = next-congr n c d e in (rw (← e') h.0, Holds-congr buf n (c + 1) (d + 1) xs e' h.1)

  -- A write just behind the last element adds it to them.
  pub Holds-append :
      (buf : List A) (n c i : ℕ) (v : A) (xs : List A)
      → length buf ≡ n
      → length xs < n
      → i ≡ (c + suc (length xs)) % n
      → Holds buf n c xs
      → Holds (set buf i v) n c (xs ++ v ∷ [])
  Holds-append buf n c i v [] e lt at h =
      (rw at (get_elem?-set_self buf ((c + 1) % n) v (omega (arith, mod-lt (c + 1) {m = n}))), tt)
  Holds-append buf n c i v (x ∷ xs) e lt at h = (
    get_elem?-set_ne buf i ((c + 1) % n) v apart ∙ h.0,
    Holds-append buf n (c + 1) i v xs e (omega arith) shifted h.1,
  )
    where
      shifted : i ≡ (c + 1 + suc (length xs)) % n
      shifted = at ∙ ap (λ (t : ℕ). t % n) (omega arith)

      apart : i ≢ (c + 1) % n
      apart p = add-mod-ne (c + 1) (suc (length xs)) n (omega arith) lt (sym shifted ∙ p)

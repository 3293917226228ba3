-- ===== src/BlockPool/Elements.antt =====
-- The elements of an array: how `new` makes them, what cleared memory holds, and how the deleter
-- destroys them.
use reiser_rt_core.Prelude.{
  ℕ, zero, suc, ◌+◌, ◌-◌, ◌*◌, ◌≤◌, ◌<◌, ◌≡◌, length, refl, ap, subst, Option, some, List, [], ◌∷◌,
  arith, built, length-built, get_elem?,
}
use reiser_rt_core.Outcome.{Outcome, Exception, returns, throws}
use reiser_rt_core.BlockPool.{
  ElementKind, is_scalar, is_nothrow_default_constructible, may_throw, make_elements, scalars_at,
  destroy_elements, destroy_array,
}

-- The elements that the deleter destroys of an array: all, unless they are scalars.
abbrev pub ended : {T : Type 0} → ElementKind → List T → List T
ended is_scalar xs = []
ended _ xs = xs

-- A loop of as many rounds as there are elements destroys each one once, in order.
destroy_elements-length :
    {T : Type 0} (xs : List T) (n : ℕ) → n ≡ length xs → destroy_elements n xs ≡ some xs
unfolding destroy_elements
destroy_elements-length [] zero e = refl
destroy_elements-length [] (suc n) e = absurd (omega (arith, e))
destroy_elements-length (x ∷ xs) zero e = absurd (omega (arith, e))
destroy_elements-length (x ∷ xs) (suc n) e =
    rw (destroy_elements-length xs n (omega (arith, e))) refl

pub destroy_array_all :
    {T : Type 0} (kind : ElementKind) (xs : List T) (n : ℕ)
    → n ≡ length xs
    → destroy_array kind n (some xs) ≡ some (ended kind xs)
destroy_array_all is_scalar xs n e = refl
destroy_array_all is_nothrow_default_constructible xs n e = destroy_elements-length xs n e
destroy_array_all may_throw xs n e = destroy_elements-length xs n e

-- Constructors that return make the elements in order.
pub make_elements-built :
    {T : Type 0} (cook : ℕ → Outcome T) (f : ℕ → T) (n i : ℕ)
    → ((j : ℕ) → j < i + n → cook j ≡ returns (f j))
    → make_elements cook n i ≡ returns (built f i n)
unfolding make_elements
make_elements-built cook f zero i h = refl
make_elements-built cook f (suc n) i h =
    let first = h i (omega arith) in
    let rest = make_elements-built cook f n (i + 1) (λ j m. h j (omega (arith, m))) in ground arith

-- With one that throws behind such ones, `new` throws.
pub make_elements-throws :
    {T : Type 0} (cook : ℕ → Outcome T) (f : ℕ → T) (x : Exception) (k n i : ℕ)
    → k < n
    → ((j : ℕ) → j < i + k → cook j ≡ returns (f j))
    → cook (i + k) ≡ throws x
    → make_elements cook n i ≡ throws x
unfolding make_elements
make_elements-throws cook f x k zero i l h e = absurd (omega (arith, l))
make_elements-throws cook f x zero (suc n) i l h e =
    let z : i + 0 ≡ i = omega arith in let e' = subst (λ j. cook j ≡ throws x) z e in ground arith
make_elements-throws cook f x (suc k) (suc n) i l h e =
    let z : i + suc k ≡ i + 1 + k = omega arith in
    let rest =
      make_elements-throws cook f x k n (i + 1) (omega (arith, l)) (λ j m. h j (omega (arith, m)))
        (subst (λ j. cook j ≡ throws x) z e) in
    let first = h i (omega arith) in ground arith

built_constant :
    {A : Type 0} (f : ℕ → A) (c : A) (n i k : ℕ)
    → ((j : ℕ) → i ≤ j → j < i + n → f j ≡ c)
    → built f i n ≡ built (λ _. c) k n
built_constant f c zero i k h = refl
built_constant f c (suc n) i k h =
    rw
      (
        h i (omega arith) (omega arith),
        built_constant f c n (i + 1) (k + 1) (λ j l m. h j (omega (arith, l)) (omega (arith, m))),
      )
      refl

-- What a scalar is of cleared memory.
abbrev pub cleared_scalar : {T : Type 0} → (List (Option ℕ) → T) → ℕ → T
cleared_scalar scalar size_of = scalar (built (λ _. some 0) 0 size_of)

-- The array that `getBlock` makes of `n` elements where their constructors make `f`.
abbrev pub made : {T : Type 0} → ElementKind → (List (Option ℕ) → T) → ℕ → (ℕ → T) → ℕ → List T
made is_scalar scalar size_of f n = built (λ _. cleared_scalar scalar size_of) 0 n
made _ scalar size_of f n = built f 0 n

pub length-made :
    {T : Type 0} (kind : ElementKind) (scalar : List (Option ℕ) → T) (size_of : ℕ) (f : ℕ → T)
    (n : ℕ)
    → length (made kind scalar size_of f n) ≡ n
length-made is_scalar scalar size_of f n = length-built _ 0 n
length-made is_nothrow_default_constructible scalar size_of f n = length-built _ 0 n
length-made may_throw scalar size_of f n = length-built _ 0 n

inside : (i j n size_of : ℕ) → i < n → j < i * size_of + size_of → j < size_of * n
inside i j n size_of l m = grind arith

-- Cleared bytes are cleared scalars.
pub scalars_cleared :
    {T : Type 0} (scalar : List (Option ℕ) → T) (arena : List ℕ) (a size_of n : ℕ)
    → ((j : ℕ) → j < size_of * n → get_elem? arena (a + j) ≡ some 0)
    → scalars_at scalar arena a size_of n ≡ built (λ _. cleared_scalar scalar size_of) 0 n
scalars_cleared scalar arena a size_of n h =
    built_constant _ (cleared_scalar scalar size_of) n 0 0 (λ i l m. ap scalar (
      built_constant (get_elem? arena) (some 0) size_of (a + i * size_of) 0 (λ j l' m'.
        let z : a + (j - a) ≡ j = omega (arith, l') in
        subst (λ b. get_elem? arena b ≡ some 0) z
          (h (j - a) (inside i (j - a) n size_of (omega (arith, m)) (omega (arith, l', m')))))))

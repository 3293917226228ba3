-- ===== src/Prelude/Lists.antt =====
-- Lists measured and indexed by native numbers, under the library's names.
use Prim.Native.Nat.{ℕ, zero, suc, ◌+◌, ◌<◌}
use mathlib.Core.Path.{◌≡◌, refl, ap}
use mathlib.Core.Logic.{◌≢◌}
use mathlib.Core.List.{List, [], ◌∷◌, ◌++◌}
use mathlib.Core.Option.{Option, none, some}
use native.Mathlib.Omega.{arith}

module _ {ℓ} {A : Type ℓ} where
  abbrev pub length : List A → ℕ
  length [] = 0
  length (x ∷ xs) = suc (length xs)

  abbrev pub get_elem? : List A → ℕ → Option A
  get_elem? [] i = none
  get_elem? (x ∷ xs) zero = some x
  get_elem? (x ∷ xs) (suc i) = get_elem? xs i

  -- A write out of bounds changes nothing.
  abbrev pub set : List A → ℕ → A → List A
  set [] i v = []
  set (x ∷ xs) zero v = v ∷ xs
  set (x ∷ xs) (suc i) v = x ∷ set xs i v

  pub length-append : (xs ys : List A) → length (xs ++ ys) ≡ length xs + length ys
  length-append [] ys = omega arith
  length-append (x ∷ xs) ys = omega (arith, length-append xs ys)

  pub append-ne-nil : (xs : List A) (x : A) → xs ++ x ∷ [] ≢ []
  append-ne-nil [] x e = cc
  append-ne-nil (y ∷ xs) x e = cc

  pub length-set : (xs : List A) (i : ℕ) (v : A) → length (set xs i v) ≡ length xs
  length-set [] i v = refl
  length-set (x ∷ xs) zero v = refl
  length-set (x ∷ xs) (suc i) v = ap suc (length-set xs i v)

  pub get_elem?-set_self :
      (xs : List A) (i : ℕ) (v : A) → i < length xs → get_elem? (set xs i v) i ≡ some v
  get_elem?-set_self [] i v h = elim h [ ]
  get_elem?-set_self (x ∷ xs) zero v h = refl
  get_elem?-set_self (x ∷ xs) (suc i) v h = get_elem?-set_self xs i v (omega arith)

  pub get_elem?-set_ne :
      (xs : List A) (i j : ℕ) (v : A) → i ≢ j → get_elem? (set xs i v) j ≡ get_elem? xs j
  get_elem?-set_ne [] i j v h = refl
  get_elem?-set_ne (x ∷ xs) zero zero v h = absurd (h refl)
  get_elem?-set_ne (x ∷ xs) zero (suc j) v h = refl
  get_elem?-set_ne (x ∷ xs) (suc i) zero v h = refl
  get_elem?-set_ne (x ∷ xs) (suc i) (suc j) v h = get_elem?-set_ne xs i j v (λ e. h (ap suc e))

  -- `f i`, `f (i + 1)` and so on, `n` in all.
  abbrev pub built : (ℕ → A) → ℕ → ℕ → List A
  built f i zero = []
  built f i (suc n) = f i ∷ built f (i + 1) n

  pub length-built : (f : ℕ → A) (i n : ℕ) → length (built f i n) ≡ n
  length-built f i zero = refl
  length-built f i (suc n) = ap suc (length-built f (i + 1) n)

  pub built-congr :
      (f g : ℕ → A) (n i k : ℕ)
      → i + n ≡ k
      → ((j : ℕ) → j < k → f j ≡ g j)
      → built f i n ≡ built g i n
  built-congr f g zero i k e h = refl
  built-congr f g (suc n) i k e h =
      rw (h i (omega arith), built-congr f g n (i + 1) k (omega arith) h) refl

  abbrev pub All {κ} : (A → Type κ) → List A → Type κ
  All P [] = Unit
  All P (x ∷ xs) = P x × All P xs

  pub All-append {κ} : (P : A → Type κ) (xs ys : List A) → All P xs → All P ys → All P (xs ++ ys)
  All-append P [] ys h k = k
  All-append P (x ∷ xs) ys h k = (h.0, All-append P xs ys h.1 k)

  -- Taking a list apart at one element.
  pub All-split {κ} :
      (P : A → Type κ) (xs : List A) (x : A) (ys : List A)
      → All P (xs ++ x ∷ ys)
      → P x × All P (xs ++ ys)
  All-split P [] x ys h = h
  All-split P (z ∷ xs) x ys h = let (p, q) = All-split P xs x ys h.1 in (p, (h.0, q))

  pub length_split :
      (xs : List A) (x : A) (ys : List A) → length (xs ++ x ∷ ys) ≡ length (xs ++ ys) + 1
  length_split [] x ys = omega arith
  length_split (z ∷ xs) x ys = omega (arith, length_split xs x ys)

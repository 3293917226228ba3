-- ===== src/Prelude/Occurrences.antt =====
-- How often a number stands in a list.
use Prim.Native.Nat.{ℕ, ◌+◌}
use mathlib.Core.Path.{◌≡◌}
use mathlib.Core.List.{List, [], ◌∷◌, ◌++◌}
use native.Mathlib.Omega.{arith}
use reiser_rt_core.Prelude.Tests.{◌==◌, if◌then◌else◌}

abbrev pub same : ℕ → ℕ → ℕ
same a b = if a == b then 1 else 0

abbrev pub occurrences : ℕ → List ℕ → ℕ
occurrences i [] = 0
occurrences i (k ∷ ks) = same k i + occurrences i ks

pub occurrences-append :
    (i : ℕ) (is js : List ℕ) → occurrences i (is ++ js) ≡ occurrences i is + occurrences i js
occurrences-append i [] js = omega arith
occurrences-append i (k ∷ is) js = omega (arith, occurrences-append i is js)

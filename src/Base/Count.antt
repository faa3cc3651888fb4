-- ===== src/Base/Count.antt =====
-- How often a number stands in a list.
use Prim.Native.Nat.{ℕ, ◌+◌, ◌-◌}
use mathlib.Core.Path.{◌≡◌, refl}
use mathlib.Core.List.{List, [], ◌∷◌, ◌++◌}
use native.Mathlib.Omega.{arith}
use clean_os.Base.Tests.{◌==◌, if◌then◌else◌}

abbrev pub count : ℕ → List ℕ → ℕ
count x [] = 0
count x (y ∷ ys) = (if x == y then 1 else 0) + count x ys

-- The list without the first such number.
unfoldable pub unlink : ℕ → List ℕ → List ℕ
unlink x [] = []
unlink x (y ∷ ys) = if y == x then ys else y ∷ unlink x ys

pub count-append : (x : ℕ) (xs ys : List ℕ) → count x (xs ++ ys) ≡ count x xs + count x ys
count-append x [] ys = omega arith
count-append x (y ∷ xs) ys = omega (arith, count-append x xs ys)

pub count-unlink :
    (x y : ℕ) (xs : List ℕ) → count x (unlink y xs) ≡ count x xs - (if x == y then 1 else 0)
unfolding unlink
count-unlink x y [] = omega arith
count-unlink x y (z ∷ zs) = ground (arith, count-unlink x y zs)

pub unlink_absent : (x : ℕ) (xs : List ℕ) → count x xs ≡ 0 → unlink x xs ≡ xs
unfolding unlink
unlink_absent x [] h = refl
unlink_absent x (y ∷ ys) h = ground (arith, unlink_absent x ys)

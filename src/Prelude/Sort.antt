-- ===== src/Prelude/Sort.antt =====
-- `sort.Slice` and `sort.Ints` on integers: the ascending list of the same integers, here by
-- insertion.
use orthrus.Prelude.Lists.{count, length}
use orthrus.Prelude.Tests.{if◌then◌else◌, ◌==◌}
use Prim.Native.Nat.{ℕ, ◌+◌}
use mathlib.Core.Bool.{Bool}
use mathlib.Core.List.{List, [], ◌∷◌}
use mathlib.Core.Path.{◌≡◌, refl}
use native.Mathlib.Omega.{arith}

abbrev pub sort_insert : (ℕ → ℕ → Bool) → ℕ → List ℕ → List ℕ
sort_insert less x [] = x ∷ []
sort_insert less x (y ∷ ys) = if less y x then y ∷ sort_insert less x ys else x ∷ y ∷ ys

abbrev pub sort : (ℕ → ℕ → Bool) → List ℕ → List ℕ
sort less [] = []
sort less (x ∷ xs) = sort_insert less x (sort less xs)

-- The sum of a function over a list.
abbrev pub total : (ℕ → ℕ) → List ℕ → ℕ
total f [] = 0
total f (x ∷ xs) = f x + total f xs

total-sort_insert :
    (f : ℕ → ℕ) (less : ℕ → ℕ → Bool) (x : ℕ) (xs : List ℕ)
    → total f (sort_insert less x xs) ≡ f x + total f xs
total-sort_insert f less x [] = refl
total-sort_insert f less x (y ∷ ys) = ground (arith, total-sort_insert f less x ys)

-- Sorting keeps every sum, hence every count and the length.
pub total-sort :
    (f : ℕ → ℕ) (less : ℕ → ℕ → Bool) (xs : List ℕ) → total f (sort less xs) ≡ total f xs
total-sort f less [] = refl
total-sort f less (x ∷ xs) =
    omega (arith, total-sort_insert f less x (sort less xs), total-sort f less xs)

pub count-total : (a : ℕ) (xs : List ℕ) → count a xs ≡ total (λ x. if x == a then 1 else 0) xs
count-total a [] = refl
count-total a (x ∷ xs) = omega (arith, count-total a xs)

pub length-total : (xs : List ℕ) → length xs ≡ total (λ x. 1) xs
length-total [] = refl
length-total (x ∷ xs) = omega (arith, length-total xs)

pub count-sort : (a : ℕ) (less : ℕ → ℕ → Bool) (xs : List ℕ) → count a (sort less xs) ≡ count a xs
count-sort a less xs = omega (
  arith,
  count-total a xs,
  count-total a (sort less xs),
  total-sort (λ (x : ℕ). if x == a then 1 else 0) less xs,
)

pub length-sort : (less : ℕ → ℕ → Bool) (xs : List ℕ) → length (sort less xs) ≡ length xs
length-sort less xs =
    omega (arith, length-total xs, length-total (sort less xs), total-sort (λ (x : ℕ). 1) less xs)

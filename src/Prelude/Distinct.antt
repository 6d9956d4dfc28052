-- ===== src/Prelude/Distinct.antt =====
-- Lists of distinct numbers, and how many of them stand in another list.
use Prim.Native.Nat.{ℕ, ◌+◌, ◌≤◌, ◌<◌}
use mathlib.Core.List.{List, [], ◌∷◌}
use mathlib.Core.Path.{◌≡◌, refl}
use native.Mathlib.Omega.{arith}
use orthrus.Prelude.Tests.{◌==◌}
use orthrus.Prelude.Lists.{length, count, count_if, contains, IsDistinct, contains_of_count}

-- Among distinct numbers at most `length ys` stand in `ys`.
count_if_single : (y : ℕ) (xs : List ℕ) → count_if (λ x. x == y) xs ≡ count y xs
count_if_single y [] = refl
count_if_single y (x ∷ xs) = omega (arith, count_if_single y xs)

count_if_cons :
    (y : ℕ) (ys xs : List ℕ)
    → count_if (λ x. contains x (y ∷ ys)) xs ≤ count y xs + count_if (λ x. contains x ys) xs
count_if_cons y ys [] = omega arith
count_if_cons y ys (x ∷ xs) = ground (arith, count_if_cons y ys xs)

count_if_none : (xs : List ℕ) → count_if (λ x. contains x []) xs ≡ 0
count_if_none [] = refl
count_if_none (x ∷ xs) = omega (arith, count_if_none xs)

pub inside-le : (xs ys : List ℕ) → IsDistinct xs → count_if (λ x. contains x ys) xs ≤ length ys
inside-le xs [] d = omega (arith, count_if_none xs)
inside-le xs (y ∷ ys) d = omega (arith, count_if_cons y ys xs, d y, inside-le xs ys d)

inside_all :
    (xs ys : List ℕ)
    → ((a : ℕ) → 0 < count a xs → 0 < count a ys)
    → count_if (λ x. contains x ys) xs ≡ length xs
inside_all [] ys h = refl
inside_all (x ∷ xs) ys h = ground (
  arith,
  h x (ground arith),
  contains_of_count x ys,
  inside_all xs ys (λ a k. h a (ground arith)),
)

-- Distinct numbers that all stand in a list are no more than its elements.
pub length-le_of_subset :
    (xs ys : List ℕ)
    → IsDistinct xs
    → ((a : ℕ) → 0 < count a xs → 0 < count a ys)
    → length xs ≤ length ys
length-le_of_subset xs ys d h = omega (arith, inside-le xs ys d, inside_all xs ys h)

-- ===== src/Prelude/Elements.antt =====
-- The elements of lists by their place.
use Prim.Native.Nat.{ℕ, zero, suc, ◌<◌}
use mathlib.Core.Path.{◌≡◌}
use native.Mathlib.Omega.{arith}
use mathlib.Core.Option.{Option, none, some}
use mathlib.Core.List.{List, [], ◌∷◌, ◌++◌}
use mathlib.Core.Logic.{◌⊎◌, inl, inr}
use orthrus.Prelude.Lists.{get_elem?, length}

pub nothing_there {ℓ} : {A : Type ℓ} {a : A} → ◌≡◌ {A = Option A} none (some a) → 0 < 0
nothing_there e = cc

pub the_same {ℓ} : {A : Type ℓ} {x a : A} → ◌≡◌ {A = Option A} (some x) (some a) → a ≡ x
the_same e = cc

pub get_elem?-lt : (i l : ℕ) (xs : List ℕ) → get_elem? xs i ≡ some l → i < length xs
get_elem?-lt i l [] h = elim (nothing_there h) [ ]
get_elem?-lt zero l (x ∷ xs) h = omega arith
get_elem?-lt (suc i) l (x ∷ xs) h = omega (arith, get_elem?-lt i l xs h)

-- An element of a list with one more at its end.
pub get_elem?-snoc :
    (xs : List ℕ) (x i a : ℕ)
    → get_elem? (xs ++ x ∷ []) i ≡ some a
    → (get_elem? xs i ≡ some a) ⊎ ((a ≡ x) × (i ≡ length xs))
get_elem?-snoc [] x zero a h = inr (the_same h, omega arith)
get_elem?-snoc [] x (suc i) a h = inl h
get_elem?-snoc (y ∷ xs) x zero a h = inl h
get_elem?-snoc (y ∷ xs) x (suc i) a h = elim (get_elem?-snoc xs x i a h) [
  | inl old ↦ inl old
  | inr new ↦ inr (new.0, omega (arith, new.1))
]

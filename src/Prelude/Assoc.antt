-- ===== src/Prelude/Assoc.antt =====
-- The maps of the program, from numbers (`int32`, `int`) to values, as association lists. A write
-- replaces the entry of its key where there is one.
use Prim.Native.Nat.{ℕ}
use mathlib.Core.Path.{◌≡◌, refl}
use mathlib.Core.List.{List, [], ◌∷◌}
use mathlib.Core.Option.{Option, none, some}
use native.Mathlib.Omega.{arith}
use orthrus.Prelude.Tests.{◌==◌, if◌then◌else◌}
use orthrus.Prelude.Lists.{count}

module _ {ℓ} {V : Type ℓ} where
  abbrev pub lookup : ℕ → List (ℕ × V) → Option V
  lookup key [] = none
  lookup key ((k, v) ∷ rest) = if k == key then some v else lookup key rest

  abbrev pub insert : ℕ → V → List (ℕ × V) → List (ℕ × V)
  insert key new [] = (key, new) ∷ []
  insert key new ((k, v) ∷ rest) =
      if k == key then (key, new) ∷ rest else (k, v) ∷ insert key new rest

  abbrev pub delete : ℕ → List (ℕ × V) → List (ℕ × V)
  delete k [] = []
  delete k ((j, w) ∷ m) = if j == k then delete k m else (j, w) ∷ delete k m

  abbrev pub keys : List (ℕ × V) → List ℕ
  keys [] = []
  keys ((j, w) ∷ m) = j ∷ keys m

  pub lookup-insert :
      (key other : ℕ) (new : V) (m : List (ℕ × V))
      → lookup other (insert key new m) ≡ (if key == other then some new else lookup other m)
  lookup-insert key other new [] = refl
  lookup-insert key other new ((k, v) ∷ rest) = ground (arith, lookup-insert key other new rest)

  pub lookup-delete :
      (k j : ℕ) (m : List (ℕ × V)) → lookup j (delete k m) ≡ (if k == j then none else lookup j m)
  lookup-delete k j [] = ground arith
  lookup-delete k j ((i, w) ∷ m) = ground (arith, lookup-delete k j m)

  pub count-keys-insert :
      (k j : ℕ) (v : V) (m : List (ℕ × V))
      → count j (keys (insert k v m)) ≡ (
          if k == j
          then (if count j (keys m) == 0 then 1 else count j (keys m))
          else count j (keys m))
  count-keys-insert k j v [] = ground arith
  count-keys-insert k j v ((i, w) ∷ m) = ground (arith, count-keys-insert k j v m)

  -- A key is in the list exactly when its look-up succeeds.
  pub lookup-eq-none : (k : ℕ) (m : List (ℕ × V)) → count k (keys m) ≡ 0 → lookup k m ≡ none
  lookup-eq-none k [] h = refl
  lookup-eq-none k ((i, w) ∷ m) h = ground (arith, lookup-eq-none k m)

  pub count-keys_of_none : (k : ℕ) (m : List (ℕ × V)) → lookup k m ≡ none → count k (keys m) ≡ 0
  count-keys_of_none k [] h = refl
  count-keys_of_none k ((i, w) ∷ m) h = ground (arith, count-keys_of_none k m)

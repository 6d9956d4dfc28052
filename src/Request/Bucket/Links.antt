-- ===== src/Request/Bucket/Links.antt =====
-- The links that a list without repetitions needs: each element's successor and predecessor in it.
use orthrus.Prelude.{
  not, count-append, ℕ, ◌+◌, ◌≡◌, ◌<◌, refl, true, false, if◌then◌else◌, ◌==◌, ◌&&◌, Option, none,
  some, List, [], ◌∷◌, ◌++◌, arith, count, IsDistinct, length,
}
use orthrus.Request.Bucket.{points, is_nil}

module _ {ℓ} {A : Type ℓ} where
  abbrev pub head : List A → Option A
  head [] = none
  head (x ∷ xs) = some x

  abbrev pub last : List A → Option A
  last [] = none
  last (x ∷ xs) = elim (last xs) [ none ↦ some x | some y ↦ some y ]

abbrev pub next_in : List ℕ → ℕ → Option ℕ
next_in [] r = none
next_in (x ∷ xs) r = if x == r then head xs else next_in xs r

abbrev pub prev_in : List ℕ → ℕ → Option ℕ
prev_in [] r = none
prev_in (x ∷ xs) r = if points (head xs) r then some x else prev_in xs r

abbrev pub erase : ℕ → List ℕ → List ℕ
erase r [] = []
erase r (x ∷ xs) = if x == r then xs else x ∷ erase r xs

pub IsDistinct-tail : (x : ℕ) (xs : List ℕ) → IsDistinct (x ∷ xs) → IsDistinct xs
IsDistinct-tail x xs d a = omega (arith, d a)

pub absent : (x : ℕ) (xs : List ℕ) → IsDistinct (x ∷ xs) → count x xs ≡ 0
absent x xs d = ground (arith, d x)

pub next_in_absent : (xs : List ℕ) (r : ℕ) → count r xs ≡ 0 → next_in xs r ≡ none
next_in_absent [] r h = refl
next_in_absent (x ∷ xs) r h = ground (arith, next_in_absent xs r)

pub head_absent : (xs : List ℕ) (r : ℕ) → count r xs ≡ 0 → points (head xs) r ≡ false
head_absent [] r h = refl
head_absent (x ∷ xs) r h = ground arith

pub prev_in_absent : (xs : List ℕ) (r : ℕ) → count r xs ≡ 0 → prev_in xs r ≡ none
prev_in_absent [] r h = refl
prev_in_absent (x ∷ xs) r h = ground (arith, prev_in_absent xs r, head_absent xs r)

-- Successors and predecessors are elements.
pub next_in_inside : (xs : List ℕ) (r a : ℕ) → count a xs ≡ 0 → points (next_in xs r) a ≡ false
next_in_inside [] r a h = refl
next_in_inside (x ∷ xs) r a h = ground (arith, next_in_inside xs r a, head_absent xs a)

pub prev_in_inside : (xs : List ℕ) (r a : ℕ) → count a xs ≡ 0 → points (prev_in xs r) a ≡ false
prev_in_inside [] r a h = refl
prev_in_inside (x ∷ xs) r a h = ground (arith, prev_in_inside xs r a)

-- The first has no predecessor.
prev_in-head :
    (xs : List ℕ) (r : ℕ) → IsDistinct xs → points (head xs) r ≡ true → prev_in xs r ≡ none
prev_in-head [] r d h = refl
prev_in-head (x ∷ xs) r d h = ground (arith, absent x xs d, head_absent xs r, prev_in_absent xs r)

pub next_in-erase :
    (r : ℕ) (xs : List ℕ) (x : ℕ)
    → IsDistinct xs
    → next_in (erase r xs) x
      ≡ (if x == r then none else (if points (prev_in xs r) x then next_in xs r else next_in xs x))
next_in-erase r [] x d = ground arith
next_in-erase r (y ∷ []) x d = ground arith
next_in-erase r (y ∷ z ∷ zs) x d = ground (
  arith,
  next_in-erase r (z ∷ zs) x (IsDistinct-tail y (z ∷ zs) d),
  absent y (z ∷ zs) d,
  absent z zs (IsDistinct-tail y (z ∷ zs) d),
  next_in_absent (z ∷ zs) r,
  next_in_absent (z ∷ zs) x,
  prev_in-head (z ∷ zs) r (IsDistinct-tail y (z ∷ zs) d),
  prev_in_absent (z ∷ zs) r,
  prev_in_inside (z ∷ zs) r y,
)

pub prev_in-erase :
    (r : ℕ) (xs : List ℕ) (x : ℕ)
    → IsDistinct xs
    → prev_in (erase r xs) x
      ≡ (if x == r then none else (if points (next_in xs r) x then prev_in xs r else prev_in xs x))
prev_in-erase r [] x d = ground arith
prev_in-erase r (y ∷ []) x d = ground arith
prev_in-erase r (y ∷ z ∷ zs) x d = ground (
  arith,
  prev_in-erase r (z ∷ zs) x (IsDistinct-tail y (z ∷ zs) d),
  absent y (z ∷ zs) d,
  absent z zs (IsDistinct-tail y (z ∷ zs) d),
  prev_in_absent (z ∷ zs) r,
  prev_in_absent (z ∷ zs) x,
  prev_in-head (z ∷ zs) r (IsDistinct-tail y (z ∷ zs) d),
  prev_in-head (z ∷ zs) x (IsDistinct-tail y (z ∷ zs) d),
  next_in_inside zs r z,
  head_absent zs z,
  next_in_absent (z ∷ zs) r,
  head_absent zs r,
  head_absent zs x,
  prev_in_absent zs r,
  prev_in_absent zs x,
)

pub count-erase :
    (r : ℕ) (xs : List ℕ) (x : ℕ)
    → IsDistinct xs
    → count x (erase r xs) ≡ (if x == r then 0 else count x xs)
count-erase r [] x d = ground arith
count-erase r (y ∷ ys) x d =
    ground (arith, count-erase r ys x (IsDistinct-tail y ys d), absent y ys d)

pub length-erase : (r : ℕ) (xs : List ℕ) → 0 < count r xs → length (erase r xs) + 1 ≡ length xs
length-erase r [] h = elim h [ ]
length-erase r (y ∷ ys) h = ground (arith, length-erase r ys)

-- All but the first have a predecessor, and all but the last a successor.
pub prev_in_some :
    (y : ℕ) (xs : List ℕ) (r : ℕ) → 0 < count r xs → is_nil (prev_in (y ∷ xs) r) ≡ false
prev_in_some y [] r h = elim h [ ]
prev_in_some y (z ∷ zs) r h = ground (arith, prev_in_some z zs r)

pub head-erase :
    (r : ℕ) (xs : List ℕ)
    → IsDistinct xs
    → 0 < count r xs
    → head (erase r xs) ≡ (if is_nil (prev_in xs r) then next_in xs r else head xs)
head-erase r [] d h = elim h [ ]
head-erase r (y ∷ []) d h = ground arith
head-erase r (y ∷ z ∷ zs) d h =
    ground (arith, prev_in_some y (z ∷ zs) r, prev_in_absent (z ∷ zs) r, absent y (z ∷ zs) d)

pub last-erase :
    (r : ℕ) (xs : List ℕ)
    → IsDistinct xs
    → 0 < count r xs
    → last (erase r xs) ≡ (if is_nil (next_in xs r) then prev_in xs r else last xs)
last-erase r [] d h = elim h [ ]
last-erase r (y ∷ []) d h = ground arith
last-erase r (y ∷ z ∷ []) d h = ground arith
last-erase r (y ∷ z ∷ w ∷ ws) d h = ground (
  arith,
  last-erase r (z ∷ w ∷ ws) (IsDistinct-tail y (z ∷ w ∷ ws) d),
  prev_in_some z (w ∷ ws) r,
  absent y (z ∷ w ∷ ws) d,
)

pub last_absent : (xs : List ℕ) (r : ℕ) → count r xs ≡ 0 → points (last xs) r ≡ false
last_absent [] r h = refl
last_absent (x ∷ []) r h = ground arith
last_absent (x ∷ y ∷ ys) r h = ground (arith, last_absent (y ∷ ys) r)

pub next_in-snoc :
    (xs : List ℕ) (r x : ℕ)
    → IsDistinct xs
    → count r xs ≡ 0
    → next_in (xs ++ r ∷ []) x ≡ (if points (last xs) x then some r else next_in xs x)
next_in-snoc [] r x d h = ground arith
next_in-snoc (y ∷ []) r x d h = ground arith
next_in-snoc (y ∷ z ∷ zs) r x d h = ground (
  arith,
  next_in-snoc (z ∷ zs) r x (IsDistinct-tail y (z ∷ zs) d),
  absent y (z ∷ zs) d,
  last_absent (z ∷ zs) y,
)

pub prev_in-snoc :
    (xs : List ℕ) (r x : ℕ)
    → count r xs ≡ 0
    → prev_in (xs ++ r ∷ []) x ≡ (if x == r then last xs else prev_in xs x)
prev_in-snoc [] r x h = ground arith
prev_in-snoc (y ∷ []) r x h = ground arith
prev_in-snoc (y ∷ z ∷ zs) r x h =
    ground (arith, prev_in-snoc (z ∷ zs) r x, prev_in_absent (z ∷ zs) r)

pub last-snoc : (xs : List ℕ) (r : ℕ) → last (xs ++ r ∷ []) ≡ some r
last-snoc [] r = refl
last-snoc (y ∷ ys) r = rw (last-snoc ys r, last) refl

-- An element has a predecessor or a successor or is the first; nothing else has.
pub outside_links :
    (xs : List ℕ) (r : ℕ)
    → IsDistinct xs
    → (is_nil (next_in xs r) && is_nil (prev_in xs r) && not (points (head xs) r))
      ≡ (count r xs == 0)
outside_links [] r d = refl
outside_links (y ∷ ys) r d =
    ground
      (arith, prev_in_some y ys r, absent y ys d, next_in_absent ys r, prev_in_absent (y ∷ ys) r)

pub erase_absent : (r : ℕ) (xs : List ℕ) → count r xs ≡ 0 → erase r xs ≡ xs
erase_absent r [] h = refl
erase_absent r (y ∷ ys) h = ground (arith, erase_absent r ys)

-- Two lists, one behind the other.
pub next_in-append :
    (xs ys : List ℕ) (r : ℕ)
    → IsDistinct (xs ++ ys)
    → next_in (xs ++ ys) r ≡ (
        if points (last xs) r
        then head ys
        else (if is_nil (next_in xs r) then next_in ys r else next_in xs r))
next_in-append [] ys r d = refl
next_in-append (x ∷ []) ys r d = ground (arith, absent x ys d, next_in_absent ys r)
next_in-append (x ∷ y ∷ xs) ys r d = ground (
  arith,
  next_in-append (y ∷ xs) ys r (IsDistinct-tail x ((y ∷ xs) ++ ys) d),
  absent x ((y ∷ xs) ++ ys) d,
  count-append x (y ∷ xs) ys,
  last_absent (y ∷ xs) r,
  last_absent (y ∷ xs) x,
)

pub prev_in-append :
    (xs ys : List ℕ) (r : ℕ)
    → IsDistinct (xs ++ ys)
    → prev_in (xs ++ ys) r ≡ (
        if points (head ys) r
        then last xs
        else (if is_nil (prev_in xs r) then prev_in ys r else prev_in xs r))
prev_in-append [] ys r d = ground (arith, prev_in-head ys r d)
prev_in-append (x ∷ []) ys r d = ground arith
prev_in-append (x ∷ y ∷ xs) ys r d = ground (
  arith,
  prev_in-append (y ∷ xs) ys r (IsDistinct-tail x ((y ∷ xs) ++ ys) d),
  absent y (xs ++ ys) (IsDistinct-tail x ((y ∷ xs) ++ ys) d),
  count-append y xs ys,
  head_absent ys y,
)

pub last-append : (xs : List ℕ) (y : ℕ) (ys : List ℕ) → last (xs ++ y ∷ ys) ≡ last (y ∷ ys)
last-append [] y ys = refl
last-append (x ∷ xs) y ys = ground (arith, last-append xs y ys)

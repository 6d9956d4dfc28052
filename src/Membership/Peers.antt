-- ===== src/Membership/Peers.antt =====
-- The simulated crashes of membership/membership.go.
use orthrus.Prelude.{
  ℕ, zero, suc, ◌+◌, ◌-◌, ◌≤◌, ◌<◌, ◌≡◌, refl, Bool, not, some, List, [], ◌∷◌, length, count_if,
  count, contains, IsDistinct, keep, length-keep, take, drop, total, count-total, length-total,
  count-sort, if◌then◌else◌, ◌==◌, lt32, sort, arith, ltb, Bool-cases, inl, inr, ◌||◌,
  contains_of_count, contains-eq-false, length-drop,
}
use orthrus.Membership.{
  Identity, Membership, Faulty, ids_of, init_node_identities, correct_peers, all_node_ids,
}

count_if-total : (p : ℕ → Bool) (xs : List ℕ) → count_if p xs ≡ total (λ x. if p x then 1 else 0) xs
count_if-total p [] = refl
count_if-total p (x ∷ xs) = omega (arith, count_if-total p xs)

count_if-take-drop :
    (p : ℕ → Bool) (n : ℕ) (xs : List ℕ)
    → count_if p xs ≡ count_if p (take n xs) + count_if p (drop n xs)
count_if-take-drop p zero xs = omega arith
count_if-take-drop p (suc n) [] = omega arith
count_if-take-drop p (suc n) (x ∷ xs) = omega (arith, count_if-take-drop p n xs)

count-take-drop : (a n : ℕ) (xs : List ℕ) → count a xs ≡ count a (take n xs) + count a (drop n xs)
count-take-drop a zero xs = omega arith
count-take-drop a (suc n) [] = omega arith
count-take-drop a (suc n) (x ∷ xs) = omega (arith, count-take-drop a n xs)

-- Among distinct numbers, those that stand in a given part and those that stand in the rest.
outside_none :
    (ys xs : List ℕ)
    → ((a : ℕ) → count a xs ≤ count a ys)
    → count_if (λ x. not (contains x ys)) xs ≡ 0
outside_none ys [] h = refl
outside_none ys (x ∷ xs) h =
    ground (arith, h x, contains_of_count x ys, outside_none ys xs (λ a. omega (arith, h a)))

outside_all :
    (ys xs : List ℕ)
    → ((a : ℕ) → 0 < count a xs → count a ys ≡ 0)
    → count_if (λ x. not (contains x ys)) xs ≡ length xs
outside_all ys [] h = refl
outside_all ys (x ∷ xs) h = ground (
  arith,
  h x (ground arith),
  contains-eq-false x ys,
  outside_all ys xs (λ a k. h a (ground arith)),
)

outside_take :
    (n : ℕ) (xs : List ℕ)
    → IsDistinct xs
    → count_if (λ x. not (contains x (take n xs))) xs ≡ length xs - n
outside_take n xs d = omega (
  arith,
  count_if-take-drop (λ x. not (contains x (take n xs))) n xs,
  outside_none (take n xs) (take n xs) (λ a. omega arith),
  outside_all (take n xs) (drop n xs) (λ a k. omega (arith, d a, count-take-drop a n xs)),
  length-drop n xs,
)

module _ (shuffle : List ℕ → List ℕ)
    (permutes : (f : ℕ → ℕ) (xs : List ℕ) → total f (shuffle xs) ≡ total f xs) where
  shuffle_length : (xs : List ℕ) → length (shuffle xs) ≡ length xs
  shuffle_length xs =
      omega (arith, length-total xs, length-total (shuffle xs), permutes (λ x. 1) xs)

  shuffle-IsDistinct : (xs : List ℕ) → IsDistinct xs → IsDistinct (shuffle xs)
  shuffle-IsDistinct xs d a = omega (
    arith,
    d a,
    count-total a xs,
    count-total a (shuffle xs),
    permutes (λ (x : ℕ). if x == a then 1 else 0) xs,
  )

  outside_shuffled :
      (n : ℕ) (xs : List ℕ)
      → IsDistinct xs
      → n ≤ length (shuffle xs)
      → length (keep (λ x. not (contains x (take n (shuffle xs)))) xs) + n ≡ length xs
  outside_shuffled n xs d fits =
      let p : ℕ → Bool = λ x. not (contains x (take n (shuffle xs))) in
      omega (
        arith,
        length-keep p xs,
        count_if-total p xs,
        count_if-total p (shuffle xs),
        permutes (λ (x : ℕ). if p x then 1 else 0) xs,
        outside_take n (shuffle xs) (shuffle-IsDistinct xs d),
        shuffle_length xs,
      )

  -- With distinct node ids, `InitNodeIdentities` leaves exactly the nodes less the configured
  -- failures correct, whatever permutation the shuffle makes.
  pub length-correct_peers :
      (c : Faulty) (own : ℕ) (is : List Identity) (m : Membership)
      → IsDistinct (ids_of is)
      → init_node_identities shuffle c own is ≡ some m
      → length (correct_peers m) + c.failures ≡ length (all_node_ids m)
  unfolding init_node_identities correct_peers all_node_ids
  length-correct_peers c own is m distinct e =
      elim (Bool-cases
        (ltb (length shuffled) c.failures || ltb (length shuffled) c.straggler_cnt)) [
          | inl panic ↦ ground arith
          | inr fits ↦
              ground (arith, outside_shuffled c.failures ids sorted_distinct (ground arith))
        ]
    where
      ids : List ℕ
      ids = sort lt32 (ids_of is)

      shuffled : List ℕ
      shuffled = shuffle ids

      sorted_distinct : IsDistinct ids
      sorted_distinct a = omega (arith, distinct a, count-sort a lt32 (ids_of is))

-- ===== src/Manager/Epoch/Buckets/Once.antt =====
-- Every bucket is assigned to exactly one leader.
use native.Mathlib.Nat.{
  mod-lt, mod-eq_of_lt, mod-le, add-mod-mod, add-mod_right, mod-eq-sub-mod, div-add-mod',
  mul-le-mul_right,
}
use orthrus.Prelude.{
  ℕ, zero, suc, ◌+◌, ◌-◌, ◌*◌, ◌/◌, ◌%◌, ◌≤◌, ◌<◌, ◌≡◌, ◌≢◌, refl, inl, inr, if◌then◌else◌, ◌==◌,
  ◌&&◌, ltb, leb, List, [], ◌∷◌, arith, length, insert, count, total, sort, lt32, total-sort,
  count-sort, Bool-cases, IsDistinct, contains,
}
use orthrus.Manager.Epoch.Buckets.{
  bucket_list, bucket_loop, initial_buckets, init_loop, extra_buckets, own_buckets, assign_buckets,
}
use orthrus.Manager.Epoch.Buckets.Sums.{
  occurrences, occurrences-share_extra, occurrences-own_buckets, count-extra_buckets, total_leaders,
  total_split, bucket_list-insert,
}

member_pos :
    (leaders ids : List ℕ)
    → ((l : ℕ) → 0 < count l leaders → count l ids ≡ 1)
    → 0 < length leaders
    → 0 < length ids
member_pos [] ids h p = elim p [ ]
member_pos (l ∷ ls) [] h p = absurd (ground (arith, h l (ground arith)))
member_pos (l ∷ ls) (i ∷ is) h p = omega arith

mod_gap : (n s b : ℕ) → s < b → b < s + n → b % n ≢ s % n
mod_gap n s b lt gap e = elim (Bool-cases (ltb (s / n) (b / n))) [
  | inl q ↦
      let le : suc (s / n) * n ≤ b / n * n = mul-le-mul_right n (ground arith) in
      omega (arith, div-add-mod' s n, div-add-mod' b n)
  | inr q ↦
      let le : b / n * n ≤ s / n * n = mul-le-mul_right n (ground arith) in
      omega (arith, div-add-mod' s n, div-add-mod' b n)
]

-- The loop reaches each number below `num` that is congruent to its start, once.
count-bucket_loop :
    (fuel s n num b : ℕ)
    → 0 < n
    → num < s + fuel
    → count b (bucket_loop fuel s n num)
      ≡ (if ltb b num && (leb s b && (b % n == s % n)) then 1 else 0)
unfolding bucket_loop
count-bucket_loop zero s n num b pos h = ground arith
count-bucket_loop (suc fuel) s n num b pos h = elim (Bool-cases (ltb s num)) [
  | inr over ↦ ground arith
  | inl more ↦ ground (
    arith,
    count-bucket_loop fuel (s + n) n num b pos (omega arith),
    add-mod_right s n,
    mod_gap n s b,
  )
]

count-initial_buckets :
    (n num epoch idx b : ℕ)
    → 0 < n
    → count b (initial_buckets n num epoch idx)
      ≡ (if ltb b num && ((idx + epoch) % n == b % n) then 1 else 0)
unfolding initial_buckets
count-initial_buckets n num epoch idx b pos =
    let s : ℕ = (idx + epoch) % n in
    ground (
      arith,
      count-bucket_loop (suc num) s n num b pos,
      mod-eq_of_lt {n = s} {m = n} (mod-lt (idx + epoch) pos),
      mod-le b n,
    )

-- The sum of `g` over the `n` numbers from `i` on.
abbrev sum_range : (ℕ → ℕ) → ℕ → ℕ → ℕ
sum_range g i zero = 0
sum_range g i (suc n) = g i + sum_range g (suc i) n

sum_range_single :
    (g : ℕ → ℕ) (j i n : ℕ)
    → ((k : ℕ) → i ≤ k → k < i + n → g k ≡ (if k == j then 1 else 0))
    → sum_range g i n ≡ (if leb i j && ltb j (i + n) then 1 else 0)
sum_range_single g j i zero h = ground arith
sum_range_single g j i (suc n) h = ground (
  arith,
  h i (omega arith) (omega arith),
  sum_range_single g j (suc i) n (λ k lo hi. h k (omega arith) (omega arith)),
)

sum_range_zero : (g : ℕ → ℕ) (i n : ℕ) → ((k : ℕ) → g k ≡ 0) → sum_range g i n ≡ 0
sum_range_zero g i zero h = refl
sum_range_zero g i (suc n) h = omega (arith, h i, sum_range_zero g (suc i) n h)

-- Which node has a bucket of residue `r` first: rotation by the epoch.
home : ℕ → ℕ → ℕ → ℕ
home n e r = if leb e r then r - e else r + n - e

mod_below_twice : (a n : ℕ) → a < n + n → a % n ≡ (if ltb a n then a else a - n)
mod_below_twice a n h = elim (Bool-cases (ltb a n)) [
  | inl q ↦ ground (arith, mod-eq_of_lt {n = a} {m = n})
  | inr q ↦
      ground
        (arith, mod-eq-sub-mod {n = a} {m = n} (ground arith), mod-eq_of_lt {n = a - n} {m = n})
]

rotation : (n epoch r k : ℕ) → r < n → k < n → ((k + epoch) % n == r) ≡ (k == home n (epoch % n) r)
unfolding home
rotation n epoch r k hr hk =
    let below : epoch % n < n = mod-lt epoch (omega arith) in
    ground (arith, add-mod-mod k epoch n, mod_below_twice (k + epoch % n) n)

home-lt : (n e r : ℕ) → r < n → e < n → home n e r < n
unfolding home
home-lt n e r hr he = ground arith

-- Over all nodes, each bucket is initially in one list.
sum_initial_buckets :
    (n num epoch b : ℕ)
    → 0 < n
    → sum_range (λ i. count b (initial_buckets n num epoch i)) 0 n ≡ (if ltb b num then 1 else 0)
sum_initial_buckets n num epoch b pos = elim (Bool-cases (ltb b num)) [
  | inr q ↦
      rw q (sum_range_zero _ 0 n (λ k. ground (arith, count-initial_buckets n num epoch k b pos)))
  | inl q ↦
      let r : b % n < n = mod-lt b pos in
      let j : ℕ = home n (epoch % n) (b % n) in
      let here : j < n = home-lt n (epoch % n) (b % n) r (mod-lt epoch pos) in
      let one =
        sum_range_single (λ i. count b (initial_buckets n num epoch i)) j 0 n
          (λ k lo hi.
            ground
              (arith, count-initial_buckets n num epoch k b pos, rotation n epoch (b % n) k r)) in
      rw q (ground (arith, one))
]

init_absent :
    (n num epoch idx : ℕ) (ids : List ℕ) (m : List (ℕ × List ℕ)) (i : ℕ)
    → count i ids ≡ 0
    → bucket_list i (init_loop n num epoch idx ids m) ≡ bucket_list i m
unfolding init_loop
init_absent n num epoch idx [] m i h = refl
init_absent n num epoch idx (x ∷ xs) m i h = ground (
  arith,
  init_absent n num epoch (suc idx) xs (insert x (initial_buckets n num epoch idx) m) i,
  bucket_list-insert x i (initial_buckets n num epoch idx) m,
)

-- The nodes' initial lists, node by node.
total_init :
    (n num epoch idx b : ℕ) (ids : List ℕ) (m : List (ℕ × List ℕ))
    → IsDistinct ids
    → total (λ i. count b (bucket_list i (init_loop n num epoch idx ids m))) ids
      ≡ sum_range (λ i. count b (initial_buckets n num epoch i)) idx (length ids)
unfolding init_loop
total_init n num epoch idx b [] m d = refl
total_init n num epoch idx b (x ∷ xs) m d =
    let mine : List ℕ = initial_buckets n num epoch idx in
    let here : bucket_list x (init_loop n num epoch (suc idx) xs (insert x mine m)) ≡ mine =
      ground (
        arith,
        d x,
        init_absent n num epoch (suc idx) xs (insert x mine m) x,
        bucket_list-insert x x mine m,
      ) in
    let rest = total_init n num epoch (suc idx) b xs (insert x mine m) (λ a. ground (arith, d a)) in
    rw here (omega (arith, rest))

-- `assignBuckets`, for distinct nodes and distinct leaders among them, at least one: every bucket
-- below the number of buckets stands once in all the lists together, so it belongs to one leader,
-- and nothing else stands in them.
pub assign_buckets-once :
    (ids leaders : List ℕ) (num epoch b : ℕ)
    → IsDistinct ids
    → IsDistinct leaders
    → ((l : ℕ) → 0 < count l leaders → count l ids ≡ 1)
    → 0 < length leaders
    → occurrences b (assign_buckets ids num epoch leaders) ≡ (if ltb b num then 1 else 0)
unfolding assign_buckets
assign_buckets-once ids leaders num epoch b distinct leaders_distinct members some_leader = omega (
  arith,
  occurrences-share_extra b epoch sorted (extra_buckets ids leaders initial)
      (own_buckets sorted initial []),
  occurrences-own_buckets b sorted initial [] sorted_distinct (λ l h. empty l),
  count-extra_buckets b ids leaders initial,
  total-sort f lt32 leaders,
  total_split f (λ i. contains i leaders) ids,
  total_leaders f leaders ids leaders_distinct members,
  total_init n num epoch 0 b ids [] distinct,
  sum_initial_buckets n num epoch b some_node,
)
  where
    n : ℕ
    n = length ids

    sorted : List ℕ
    sorted = sort lt32 leaders

    initial : List (ℕ × List ℕ)
    initial = init_loop n num epoch 0 ids []

    f : ℕ → ℕ
    f i = count b (bucket_list i initial)

    empty : (l : ℕ) → bucket_list l [] ≡ []
    empty l = unfold bucket_list in refl

    sorted_distinct : IsDistinct sorted
    sorted_distinct a = omega (arith, leaders_distinct a, count-sort a lt32 leaders)

    some_node : 0 < n
    some_node = member_pos leaders ids members some_leader

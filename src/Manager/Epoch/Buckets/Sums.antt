-- ===== src/Manager/Epoch/Buckets/Sums.antt =====
-- How often a bucket stands in all the lists of an assignment together.
use orthrus.Prelude.{
  ℕ, ◌+◌, ◌*◌, ◌<◌, ◌≡◌, refl, ◌∙◌, if◌then◌else◌, ◌==◌, List, [], ◌∷◌, ◌++◌, arith, insert,
  lookup-insert, count, count-append, contains, total, IsDistinct, Bool, contains-eq-false,
}
use orthrus.Manager.Epoch.Buckets.{
  bucket_list, extra_buckets, own_buckets, share_extra, extra_leader,
}

-- The occurrences of bucket `b` in the lists of a map.
abbrev pub occurrences : ℕ → List (ℕ × List ℕ) → ℕ
occurrences b [] = 0
occurrences b ((k, bs) ∷ m) = count b bs + occurrences b m

-- The assigned lists have one key each.
pub occurrences-insert :
    (b k : ℕ) (bs : List ℕ) (m : List (ℕ × List ℕ))
    → occurrences b (insert k bs m) + count b (bucket_list k m) ≡ occurrences b m + count b bs
unfolding bucket_list
occurrences-insert b k bs [] = omega arith
occurrences-insert b k bs ((j, cs) ∷ m) = ground (arith, occurrences-insert b k bs m)

-- Sharing out the extra buckets adds each of them once.
pub occurrences-share_extra :
    (b epoch : ℕ) (sorted extra : List ℕ) (final : List (ℕ × List ℕ))
    → occurrences b (share_extra epoch sorted extra final) ≡ occurrences b final + count b extra
unfolding share_extra
occurrences-share_extra b epoch sorted [] final = omega arith
occurrences-share_extra b epoch sorted (x ∷ xs) final =
    let l = extra_leader epoch sorted x in
    omega (
      arith,
      occurrences-share_extra b epoch sorted xs (insert l (bucket_list l final ++ x ∷ []) final),
      occurrences-insert b l (bucket_list l final ++ x ∷ []) final,
      count-append b (bucket_list l final) (x ∷ []),
    )

pub bucket_list-insert :
    (k j : ℕ) (bs : List ℕ) (m : List (ℕ × List ℕ))
    → bucket_list j (insert k bs m) ≡ (if k == j then bs else bucket_list j m)
unfolding bucket_list
bucket_list-insert k j bs m = ground (arith, lookup-insert k j bs m)

-- The lists of distinct leaders, copied from the initial map into one that has none of them.
pub occurrences-own_buckets :
    (b : ℕ) (ls : List ℕ) (m final : List (ℕ × List ℕ))
    → IsDistinct ls
    → ((l : ℕ) → 0 < count l ls → bucket_list l final ≡ [])
    → occurrences b (own_buckets ls m final)
      ≡ occurrences b final + total (λ l. count b (bucket_list l m)) ls
unfolding own_buckets
occurrences-own_buckets b [] m final d fresh = omega arith
occurrences-own_buckets b (l ∷ ls) m final d fresh =
    let ih =
      occurrences-own_buckets b ls m (insert l (bucket_list l m) final) (λ a. ground (arith, d a))
        (λ k pos. ground (arith, d k, fresh k, bucket_list-insert l k (bucket_list l m) final)) in
    let none_yet : count b (bucket_list l final) ≡ 0 = rw (fresh l (ground arith)) in
    omega (arith, ih, occurrences-insert b l (bucket_list l m) final)

-- The extra buckets are those of the nodes that are not leaders.
pub count-extra_buckets :
    (b : ℕ) (ids leaders : List ℕ) (m : List (ℕ × List ℕ))
    → count b (extra_buckets ids leaders m)
      ≡ total (λ i. if contains i leaders then 0 else count b (bucket_list i m)) ids
unfolding extra_buckets
count-extra_buckets b [] leaders m = refl
count-extra_buckets b (i ∷ is) leaders m = ground (
  arith,
  count-append b (bucket_list i m) (extra_buckets is leaders m),
  count-extra_buckets b is leaders m,
)

-- The sum over the nodes is the sum over the leaders and that over the others.
total_single :
    (f : ℕ → ℕ) (l : ℕ) (ids : List ℕ)
    → total (λ i. if i == l then f i else 0) ids ≡ count l ids * f l
total_single f l [] = omega arith
total_single f l (i ∷ is) = ground (arith, total_single f l is)

total_zero : (ids : List ℕ) → total (λ i. 0) ids ≡ 0
total_zero [] = refl
total_zero (i ∷ is) = omega (arith, total_zero is)

total_cons :
    (f : ℕ → ℕ) (l : ℕ) (ls ids : List ℕ)
    → count l ls ≡ 0
    → total (λ i. if contains i (l ∷ ls) then f i else 0) ids
      ≡ total (λ i. if i == l then f i else 0) ids
        + total (λ i. if contains i ls then f i else 0) ids
total_cons f l ls [] h = omega arith
total_cons f l ls (i ∷ is) h = ground (arith, contains-eq-false l ls h, total_cons f l ls is h)

pub total_leaders :
    (f : ℕ → ℕ) (leaders ids : List ℕ)
    → IsDistinct leaders
    → ((l : ℕ) → 0 < count l leaders → count l ids ≡ 1)
    → total (λ i. if contains i leaders then f i else 0) ids ≡ total f leaders
total_leaders f [] ids d sub = total_zero ids
total_leaders f (l ∷ ls) ids d sub =
    let alone : count l ls ≡ 0 = ground (arith, d l) in
    let once : count l ids ≡ 1 = sub l (ground arith) in
    let single : total (λ i. if i == l then f i else 0) ids ≡ f l =
      total_single f l ids ∙ rw once (omega arith) in
    omega (
      arith,
      total_cons f l ls ids alone,
      single,
      total_leaders f ls ids (λ a. ground (arith, d a)) (λ a h. sub a (ground arith)),
    )

pub total_split :
    (f : ℕ → ℕ) (p : ℕ → Bool) (ids : List ℕ)
    → total f ids
      ≡ total (λ i. if p i then f i else 0) ids + total (λ i. if p i then 0 else f i) ids
total_split f p [] = omega arith
total_split f p (i ∷ is) = ground (arith, total_split f p is)

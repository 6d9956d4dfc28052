-- ===== src/Request/Bucket/Queue.antt =====
-- A bucket holds a queue: its links are those of a list without repetitions.
use orthrus.Prelude.{
  ℕ, ◌≡◌, ◌<◌, refl, inl, inr, true, false, if◌then◌else◌, ◌==◌, Option, none, List, arith, count,
  IsDistinct, Bool-cases, length,
}
use orthrus.Request.Bucket.{
  Heap, Bucket, points, set_next, set_prev, set_next_of, set_prev_of, is_outside, remove_no_lock,
}
use orthrus.Request.Bucket.Links.{
  outside_links, erase_absent, head, last, next_in, prev_in, erase, next_in-erase, prev_in-erase,
  count-erase, length-erase, head-erase, last-erase, next_in_inside, prev_in_inside,
}

pub record IsQueue (h : Heap) (b : Bucket) (xs : List ℕ) : Type 0 where
  pub distinct : IsDistinct xs
  pub first : b.first_request ≡ head xs
  pub final : b.last_request ≡ last xs
  pub counted : b.num_requests ≡ length xs
  pub owned : (r : ℕ) → 0 < count r xs → (h r).bucket ≡ b.id
  pub next : (r : ℕ) → (h r).bucket ≡ b.id → (h r).next ≡ next_in xs r
  pub prev : (r : ℕ) → (h r).bucket ≡ b.id → (h r).prev ≡ prev_in xs r

-- Only the links of one bucket's requests differ.
pub record SameBut (id : ℕ) (h h' : Heap) : Type 0 where
  pub core : (r : ℕ) → h' r ≡ record (h r) { next = (h' r).next; prev = (h' r).prev }
  pub others : (r : ℕ) → ((h r).bucket == id) ≡ false → h' r ≡ h r

pub SameBut-refl : (id : ℕ) (h : Heap) → SameBut id h h
SameBut-refl id h = record { core = λ r. refl; others = λ r n. refl }

pub SameBut-trans : (id : ℕ) (h h1 h2 : Heap) → SameBut id h h1 → SameBut id h1 h2 → SameBut id h h2
SameBut-trans id h h1 h2 a b = record {
  core = λ r. ground (arith, a.core r, b.core r);
  others = λ r n. ground (arith, a.core r, a.others r n, b.others r);
}

-- Another bucket's queue stays what it was.
pub SameBut-IsQueue :
    (id : ℕ) (h h' : Heap) (b : Bucket) (xs : List ℕ)
    → SameBut id h h'
    → (b.id == id) ≡ false
    → IsQueue h b xs
    → IsQueue h' b xs
SameBut-IsQueue id h h' b xs s n q = record {
  distinct = q.distinct;
  first = q.first;
  final = q.final;
  counted = q.counted;
  owned = λ r k. ground (arith, s.core r, q.owned r k);
  next = λ r k. ground (arith, s.core r, s.others r, q.next r);
  prev = λ r k. ground (arith, s.core r, s.others r, q.prev r);
}

-- A request is outside the list exactly when its links and the bucket say so.
pub is_outside_lem :
    (h : Heap) (b : Bucket) (xs : List ℕ) (r : ℕ)
    → IsQueue h b xs
    → (h r).bucket ≡ b.id
    → is_outside h b r ≡ (count r xs == 0)
unfolding is_outside
is_outside_lem h b xs r q own =
    rw (q.next r own, q.prev r own, q.first) (outside_links xs r q.distinct)

-- The writes of `removeNoLock`.
module _ (h : Heap) (r : ℕ) (next prev : Option ℕ) where
  abbrev relinked : Heap
  relinked = set_next r none (set_prev r none (set_next_of prev next (set_prev_of next prev h)))

  next-relinked :
      (x : ℕ)
      → (relinked x).next ≡ (if x == r then none else (if points prev x then next else (h x).next))
  unfolding set_next set_prev set_next_of set_prev_of
  next-relinked x = ground arith

  prev-relinked :
      (x : ℕ)
      → (relinked x).prev ≡ (if x == r then none else (if points next x then prev else (h x).prev))
  unfolding set_next set_prev set_next_of set_prev_of
  prev-relinked x = ground arith

  core-relinked :
      (x : ℕ) → relinked x ≡ record (h x) { next = (relinked x).next; prev = (relinked x).prev }
  unfolding set_next set_prev set_next_of set_prev_of
  core-relinked x = ground arith

  other-relinked :
      (x : ℕ) → (x == r) ≡ false → points next x ≡ false → points prev x ≡ false → relinked x ≡ h x
  unfolding set_next set_prev set_next_of set_prev_of
  other-relinked x a b c = ground arith

-- Removing a request, whether it is in the list or not, erases it from the queue.
pub remove_no_lock-IsQueue :
    (h : Heap) (b : Bucket) (xs : List ℕ) (r : ℕ)
    → IsQueue h b xs
    → (h r).bucket ≡ b.id
    → IsQueue (remove_no_lock h b r).0 (remove_no_lock h b r).1 (erase r xs)
      × SameBut b.id h (remove_no_lock h b r).0
      × ((remove_no_lock h b r).1.id ≡ b.id)
unfolding remove_no_lock
remove_no_lock-IsQueue h b xs r q own = elim (Bool-cases (count r xs == 0)) [
  | inl out ↦
      let o : is_outside h b r ≡ true = ground (arith, is_outside_lem h b xs r q own) in
      rw (o, remove_no_lock, erase_absent r xs (ground arith)) (q, SameBut-refl b.id h, refl)
  | inr inside ↦
      let o : is_outside h b r ≡ false = ground (arith, is_outside_lem h b xs r q own) in
      let some_r : 0 < count r xs = ground arith in
      rw (o, remove_no_lock, q.next r own, q.prev r own)
        (
          record {
            distinct = λ a. ground (arith, count-erase r xs a q.distinct, q.distinct a);
            first = ground (arith, head-erase r xs q.distinct some_r, q.first);
            final = ground (arith, last-erase r xs q.distinct some_r, q.final);
            counted = omega (arith, length-erase r xs some_r, q.counted);
            owned = λ x k. ground (
              arith,
              core-relinked h r (next_in xs r) (prev_in xs r) x,
              count-erase r xs x q.distinct,
              q.owned x,
            );
            next = λ x k. ground (
              arith,
              next-relinked h r (next_in xs r) (prev_in xs r) x,
              core-relinked h r (next_in xs r) (prev_in xs r) x,
              next_in-erase r xs x q.distinct,
              q.next x,
            );
            prev = λ x k. ground (
              arith,
              prev-relinked h r (next_in xs r) (prev_in xs r) x,
              core-relinked h r (next_in xs r) (prev_in xs r) x,
              prev_in-erase r xs x q.distinct,
              q.prev x,
            );
          },
          record {
            core = λ x. core-relinked h r (next_in xs r) (prev_in xs r) x;
            others = λ x n. ground (
              arith,
              other-relinked h r (next_in xs r) (prev_in xs r) x,
              next_in_inside xs r x,
              prev_in_inside xs r x,
              q.owned x,
            );
          },
          refl,
        )
]

pub index-remove_no_lock :
    (h : Heap) (b : Bucket) (r : ℕ) → (remove_no_lock h b r).1.req_index ≡ b.req_index
unfolding remove_no_lock
index-remove_no_lock h b r = ground arith

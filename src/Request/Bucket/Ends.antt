-- ===== src/Request/Bucket/Ends.antt =====
-- Appending to a bucket's queue and putting back at its head.
use orthrus.Prelude.{
  ℕ, ◌+◌, ◌≡◌, ◌<◌, refl, inl, inr, if◌then◌else◌, ◌==◌, Option, some, List, [], ◌∷◌, ◌++◌, arith,
  count, count-append, length-append, Bool-cases, lookup,
}
use orthrus.Request.Bucket.{Heap, Bucket, set_next, set_prev, append, prepend, notify, req_id}
use orthrus.Request.Bucket.Links.{
  last, next_in-snoc, prev_in-snoc, last-snoc, next_in_absent, prev_in_absent,
}
use orthrus.Request.Bucket.Queue.{IsQueue, SameBut, SameBut-refl, is_outside_lem}

last_some : (y : ℕ) (ys : List ℕ) → (l : ℕ) × (last (y ∷ ys) ≡ some l) × (0 < count l (y ∷ ys))
last_some y [] = (y, refl, ground arith)
last_some y (z ∷ zs) = let (l, e, k) = last_some z zs in (l, rw (e, last) refl, ground arith)

-- The result of an operation on a bucket: a queue, other buckets left alone, and the bucket's id.
pub record Queued (h : Heap) (b : Bucket) (o : Option (Heap × Bucket)) (xs : List ℕ) : Type 0 where
  pub heap : Heap
  pub bucket : Bucket
  pub runs : o ≡ some (heap, bucket)
  pub queue : IsQueue heap bucket xs
  pub same : SameBut b.id h heap
  pub id : bucket.id ≡ b.id
  pub index : bucket.req_index ≡ b.req_index

module _ (h : Heap) (b : Bucket) (r : ℕ) (own : (h r).bucket ≡ b.id) where
  append_empty : IsQueue h b [] → Queued h b (append h b r) (r ∷ [])
  unfolding append
  append_empty q = record {
    heap = h;
    bucket = record b {
      first_request = some r;
      last_request = some r;
      num_requests = b.num_requests + 1;
    };
    runs = rw (q.prev r own, q.next r own, q.first, append) refl;
    queue = record {
      distinct = λ a. ground arith;
      first = refl;
      final = refl;
      counted = omega (arith, q.counted);
      owned = λ x k. ground arith;
      next = λ x k. ground (arith, q.next x);
      prev = λ x k. ground (arith, q.prev x);
    };
    same = SameBut-refl b.id h;
    id = refl;
    index = refl;
  }

  append_behind :
      (y : ℕ) (ys : List ℕ)
      → count r (y ∷ ys) ≡ 0
      → IsQueue h b (y ∷ ys)
      → Queued h b (append h b r) ((y ∷ ys) ++ r ∷ [])
  unfolding append set_next set_prev
  append_behind y ys out q =
      let (l, e, k) = last_some y ys in
      record {
        heap = set_prev r (some l) (set_next l (some r) h);
        bucket = record b { last_request = some r; num_requests = b.num_requests + 1 };
        runs = ground (
          arith,
          q.prev r own,
          q.next r own,
          prev_in_absent (y ∷ ys) r out,
          next_in_absent (y ∷ ys) r out,
          q.first,
          q.final,
          e,
        );
        queue = record {
          distinct = λ a. ground (arith, count-append a (y ∷ ys) (r ∷ []), q.distinct a);
          first = q.first;
          final = ground (arith, last-snoc (y ∷ ys) r);
          counted = omega (arith, q.counted, length-append ys (r ∷ []));
          owned = λ x k. ground (arith, count-append x (y ∷ ys) (r ∷ []), q.owned x);
          next = λ x k. rw (next_in-snoc (y ∷ ys) r x q.distinct out, e) (ground (arith, q.next x));
          prev = λ x k. rw (prev_in-snoc (y ∷ ys) r x out, e) (ground (arith, q.prev x));
        };
        same = record { core = λ x. ground arith; others = λ x n. ground (arith, q.owned l k) };
        id = refl;
        index = refl;
      }

  -- Appending a request that the queue does not hold adds it at the end.
  pub append-Queued :
      (xs : List ℕ) → count r xs ≡ 0 → IsQueue h b xs → Queued h b (append h b r) (xs ++ r ∷ [])
  append-Queued [] out q = append_empty q
  append-Queued (y ∷ ys) out q = append_behind y ys out q

pub notify-IsQueue :
    (h : Heap) (b : Bucket) (xs : List ℕ) → IsQueue h b xs → IsQueue h (notify b) xs
unfolding notify
notify-IsQueue h b xs q = elim (Bool-cases b.group) [
  | inl e ↦
      rw (e, notify)
        (record {
          distinct = q.distinct;
          first = q.first;
          final = q.final;
          counted = q.counted;
          owned = q.owned;
          next = q.next;
          prev = q.prev;
        })
  | inr e ↦
      rw (e, notify)
        (record {
          distinct = q.distinct;
          first = q.first;
          final = q.final;
          counted = q.counted;
          owned = q.owned;
          next = q.next;
          prev = q.prev;
        })
]

pub index-notify : (b : Bucket) → (notify b).req_index ≡ b.req_index
unfolding notify
index-notify b = ground arith

pub id-notify : (b : Bucket) → (notify b).id ≡ b.id
unfolding notify
id-notify b = ground arith

module _ (h : Heap) (b : Bucket) (r p : ℕ) (own : (h r).bucket ≡ b.id)
    (known : lookup (req_id (h r).msg.request_id) b.req_index ≡ some p) where
  prepend_held : (xs : List ℕ) → 0 < count r xs → IsQueue h b xs → Queued h b (prepend h b r) xs
  unfolding prepend
  prepend_held xs k q = record {
    heap = h;
    bucket = b;
    runs = rw (known, prepend, is_outside_lem h b xs r q own) (ground arith);
    queue = q;
    same = SameBut-refl b.id h;
    id = refl;
    index = refl;
  }

  prepend_empty : IsQueue h b [] → Queued h b (prepend h b r) (r ∷ [])
  unfolding prepend
  prepend_empty q =
      let b1 : Bucket = record b {
        first_request = some r;
        last_request = some r;
        num_requests = b.num_requests + 1;
      } in
      record {
        heap = h;
        bucket = notify b1;
        runs = rw (known, prepend, is_outside_lem h b [] r q own, q.first) refl;
        queue = notify-IsQueue h b1 (r ∷ []) (record {
          distinct = λ a. ground arith;
          first = refl;
          final = refl;
          counted = omega (arith, q.counted);
          owned = λ x k. ground arith;
          next = λ x k. ground (arith, q.next x);
          prev = λ x k. ground (arith, q.prev x);
        });
        same = SameBut-refl b.id h;
        id = id-notify b1;
        index = index-notify b1;
      }

  prepend_before :
      (y : ℕ) (ys : List ℕ)
      → count r (y ∷ ys) ≡ 0
      → IsQueue h b (y ∷ ys)
      → Queued h b (prepend h b r) (r ∷ y ∷ ys)
  unfolding prepend set_next set_prev
  prepend_before y ys out q =
      let b1 : Bucket = record b { first_request = some r; num_requests = b.num_requests + 1 } in
      let h1 : Heap = set_next r (some y) (set_prev y (some r) h) in
      record {
        heap = h1;
        bucket = notify b1;
        runs = rw (known, prepend, is_outside_lem h b (y ∷ ys) r q own, out, q.first) refl;
        queue = notify-IsQueue h1 b1 (r ∷ y ∷ ys) (record {
          distinct = λ a. ground (arith, q.distinct a);
          first = refl;
          final = ground (arith, q.final);
          counted = omega (arith, q.counted);
          owned = λ x k. ground (arith, q.owned x);
          next = λ x k. ground (arith, q.next x, next_in_absent (y ∷ ys) r out);
          prev = λ x k. ground (arith, q.prev x);
        });
        same = record { core = λ x. ground arith; others = λ x n. ground (arith, q.owned y) };
        id = id-notify b1;
        index = index-notify b1;
      }

  -- Putting back a request that the index knows adds it at the head, unless the queue holds it.
  pub prepend-Queued :
      (xs : List ℕ)
      → IsQueue h b xs
      → Queued h b (prepend h b r) (if count r xs == 0 then r ∷ xs else xs)
  prepend-Queued [] q = prepend_empty q
  prepend-Queued (y ∷ ys) q = elim (Bool-cases (count r (y ∷ ys) == 0)) [
    | inl e ↦ rw e (prepend_before y ys (ground arith) q)
    | inr e ↦ rw e (prepend_held (y ∷ ys) (ground arith) q)
  ]

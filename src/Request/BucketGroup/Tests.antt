-- ===== src/Request/BucketGroup/Tests.antt =====
-- Two buckets, the first with two requests and the second with one, and a batch of two.
use Prim.Native.Nat.{min}
use orthrus.Prelude.{
  ℕ, ◌+◌, ◌≡◌, refl, true, false, if◌then◌else◌, ◌==◌, Option, none, some, List, [], ◌∷◌, arith,
  count, length, IsDistinct,
}
use orthrus.Request.Bucket.{Request, Heap, Bucket}
use orthrus.Request.Bucket.Queue.{IsQueue}
use orthrus.Request.BucketGroup.{NewBatch, cut_batch}
use orthrus.Request.BucketGroup.Batches.{HoldAll, count_all, valid_all, cut_batch_lem}

abbrev request : ℕ → ℕ → Option ℕ → Option ℕ → Request
request bucket n next prev = record {
  msg = record {
    request_id = record { client_id = 7; client_sn = n; sender_id = bucket };
    payload = [];
    payload_random = [];
    pubkey = [];
    signature = [];
    is_contract = 0;
  };
  digest = [];
  bucket = bucket;
  verified = true;
  in_flight = false;
  next = next;
  prev = prev;
}

abbrev heap : Heap
heap r =
    if r == 1
    then request 0 1 (some 2) none
    else if r == 2
    then request 0 2 none (some 1)
    else if r == 3
    then request 1 3 none none
    else request 9 r none none

abbrev bucket : ℕ → ℕ → ℕ → ℕ → Bucket
bucket id num first last = record {
  id = id;
  group = false;
  notified = 0;
  req_index = [];
  num_requests = num;
  first_request = some first;
  last_request = some last;
}

first-IsQueue : IsQueue heap (bucket 0 2 1 2) (1 ∷ 2 ∷ [])
first-IsQueue = record {
  distinct = λ a. ground arith;
  first = refl;
  final = refl;
  counted = refl;
  owned = λ r k. ground arith;
  next = λ r k. ground arith;
  prev = λ r k. ground arith;
}

second-IsQueue : IsQueue heap (bucket 1 1 3 3) (3 ∷ [])
second-IsQueue = record {
  distinct = λ a. ground arith;
  first = refl;
  final = refl;
  counted = refl;
  owned = λ r k. ground arith;
  next = λ r k. ground arith;
  prev = λ r k. ground arith;
}

two-IsDistinct : IsDistinct (0 ∷ 1 ∷ [])
two-IsDistinct a = ground arith

cut_batch_lem_example :
    (r : NewBatch) × (queues : List (List ℕ)) × (cut_batch
        (λ m. true)
        2
        3
        heap
        (bucket 0 2 1 2 ∷ bucket 1 1 3 3 ∷ [])
      ≡ some r)
    × HoldAll r.heap r.buckets queues
    × (length r.requests ≡ min 2 (valid_all (λ q. true) ((1 ∷ 2 ∷ []) ∷ (3 ∷ []) ∷ [])))
    × ((a : ℕ)
        → count_all a queues + count a r.requests ≡ count_all a ((1 ∷ 2 ∷ []) ∷ (3 ∷ []) ∷ []))
cut_batch_lem_example =
    cut_batch_lem (λ m. true) 2 3 heap (bucket 0 2 1 2) (bucket 1 1 3 3 ∷ [])
      ((1 ∷ 2 ∷ []) ∷ (3 ∷ []) ∷ []) two-IsDistinct (first-IsQueue, (second-IsQueue, tt))

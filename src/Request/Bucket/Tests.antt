-- ===== src/Request/Bucket/Tests.antt =====
-- Bucket 0 with requests 1, 2 and 3 in its list, of which the second is not valid, and request 4, which
-- is to be added. Every other address holds a request of another bucket.
use orthrus.Prelude.{
  ℕ, ◌≡◌, refl, Bool, true, false, not, if◌then◌else◌, ◌==◌, Option, none, some, [], ◌∷◌, ◌++◌,
  arith, count, lookup,
}
use orthrus.Protobufs.{ClientRequest}
use orthrus.Request.Bucket.{Request, Heap, Bucket, req_id, int64, remove_no_lock, prepend}
use orthrus.Request.Bucket.Links.{erase}
use orthrus.Request.Bucket.Queue.{IsQueue, SameBut, remove_no_lock-IsQueue}
use orthrus.Request.Bucket.Ends.{Queued, prepend-Queued}
use orthrus.Request.Bucket.Cutting.{remove_first}
use orthrus.Request.Bucket.Cutting.Chain.{Holds}
use orthrus.Request.Bucket.Cutting.Front.{taken, passed, left, remove_first_lem}
use orthrus.Request.Bucket.Ids.{req_id_injective}
use orthrus.Request.Bucket.Index.{add_no_lock}
use orthrus.Request.Bucket.Index.Superset.{IsIndexed, IsAdded, add_no_lock-IsAdded}

abbrev message : ℕ → ClientRequest
message n = record {
  request_id = record { client_id = 7; client_sn = n; sender_id = 0 };
  payload = [];
  payload_random = [];
  pubkey = [];
  signature = [];
  is_contract = 0;
}

abbrev request : ℕ → ℕ → Option ℕ → Option ℕ → Request
request bucket n next prev = record {
  msg = message n;
  digest = n ∷ [];
  bucket = bucket;
  verified = true;
  in_flight = false;
  next = next;
  prev = prev;
}

abbrev heap : Heap
heap r =
    if r == 1
    then request 0 1 (some 2) none
    else if r == 2
    then request 0 2 (some 3) (some 1)
    else if r == 3
    then request 0 3 none (some 2)
    else if r == 4
    then request 0 4 none none
    else request 9 r none none

abbrev bucket : Bucket
bucket = record {
  id = 0;
  group = true;
  notified = 0;
  req_index = (30064771073, 1) ∷ (30064771074, 2) ∷ (30064771075, 3) ∷ [];
  num_requests = 3;
  first_request = some 1;
  last_request = some 3;
}

bucket-IsQueue : IsQueue heap bucket (1 ∷ 2 ∷ 3 ∷ [])
bucket-IsQueue = record {
  distinct = λ a. ground arith;
  first = refl;
  final = refl;
  counted = refl;
  owned = λ r k. ground arith;
  next = λ r k. ground arith;
  prev = λ r k. ground arith;
}

abbrev not_two : ClientRequest → Bool
not_two m = not (m.request_id.client_sn == 2)

remove_no_lock-IsQueue_example :
    IsQueue
      (remove_no_lock heap bucket 2).0
      (remove_no_lock heap bucket 2).1
      (erase 2 (1 ∷ 2 ∷ 3 ∷ []))
    × SameBut 0 heap (remove_no_lock heap bucket 2).0
    × ((remove_no_lock heap bucket 2).1.id ≡ 0)
remove_no_lock-IsQueue_example =
    remove_no_lock-IsQueue heap bucket (1 ∷ 2 ∷ 3 ∷ []) 2 bucket-IsQueue refl

remove_first_lem_example :
    (p : Heap × Bucket) × (remove_first not_two 2 [] heap bucket
      ≡ some (p, [] ++ taken (λ r. not_two (heap r).msg) 2 (1 ∷ 2 ∷ 3 ∷ [])))
    × Holds heap bucket p (
        passed (λ r. not_two (heap r).msg) 2 (1 ∷ 2 ∷ 3 ∷ [])
        ++ left (λ r. not_two (heap r).msg) 2 (1 ∷ 2 ∷ 3 ∷ []))
remove_first_lem_example = remove_first_lem not_two 2 [] heap bucket (1 ∷ 2 ∷ 3 ∷ []) bucket-IsQueue

bucket-IsIndexed : IsIndexed heap bucket (1 ∷ 2 ∷ 3 ∷ [])
unfolding req_id int64
bucket-IsIndexed = record {
  listed = λ r k. ground arith;
  named = λ k r e. (ground arith, ground arith);
}

add_no_lock-IsAdded_example :
    IsAdded heap bucket 4 (1 ∷ 2 ∷ 3 ∷ []) (add_no_lock true false heap bucket 4)
add_no_lock-IsAdded_example =
    add_no_lock-IsAdded true false heap bucket 4 (1 ∷ 2 ∷ 3 ∷ []) refl bucket-IsQueue
      bucket-IsIndexed

three_known : lookup (req_id (heap 3).msg.request_id) bucket.req_index ≡ some 3
unfolding req_id int64
three_known = refl

prepend-Queued_example :
    Queued heap bucket
      (prepend heap bucket 3)
      (if count 3 (1 ∷ 2 ∷ 3 ∷ []) == 0 then 3 ∷ 1 ∷ 2 ∷ 3 ∷ [] else 1 ∷ 2 ∷ 3 ∷ [])
prepend-Queued_example =
    prepend-Queued heap bucket 3 3 refl three_known (1 ∷ 2 ∷ 3 ∷ []) bucket-IsQueue

req_id_injective_example : ◌≡◌ {A = ℕ} 7 7 × ◌≡◌ {A = ℕ} 3 3
req_id_injective_example =
    req_id_injective (message 3).request_id (message 3).request_id (omega arith) (omega arith)
      (omega arith) (omega arith) refl

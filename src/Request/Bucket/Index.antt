-- ===== src/Request/Bucket/Index.antt =====
-- request/bucket.go: adding requests to a bucket by way of its index, and what a checkpoint does to
-- the index. The configuration's `SignRequests` and `VerifyRequestsEarly` are arguments.
pub mod Superset
use orthrus.Prelude.{
  ℕ, zero, suc, ◌+◌, ◌-◌, ◌%◌, Bool, true, false, if◌then◌else◌, ◌==◌, ◌&&◌, ◌||◌, not, Option,
  none, some, List, [], ◌∷◌, ◌++◌, lookup, insert, delete, same_bytes, add32, sub32, lt32,
}
use orthrus.Protobufs.{RequestId, ClientRequest}
use orthrus.Request.Bucket.{Request, Heap, Bucket, req_id, remove_no_lock, append, notify}

-- What `addNoLock` leaves and returns: the stored request, if any, and whether to try again.
pub record Added : Type 0 where
  pub heap : Heap
  pub bucket : Bucket
  pub stored : Option ℕ
  pub retry : Bool

-- `b.append(newReq); b.reqIndex[reqID] = newReq`
unfoldable pub append_indexed : Heap → Bucket → ℕ → Option (Heap × Bucket)
append_indexed h b r = elim (append h b r) [
  | none ↦ none
  | some (h1, b1) ↦
      some (h1, record b1 { req_index = insert (req_id (h r).msg.request_id) r b1.req_index })
]

abbrev unchanged : Heap → Bucket → Option ℕ → Bool → Option Added
unchanged h b stored retry = some (record { heap = h; bucket = b; stored = stored; retry = retry })

-- `addNoLock`; `none` where `append` ends the program.
unfoldable pub add_no_lock : (sign early : Bool) → Heap → Bucket → ℕ → Option Added
unfolding append_indexed
add_no_lock sign early h b r = elim (lookup (req_id (h r).msg.request_id) b.req_index) [
  | some old ↦
      if same_bytes (h old).digest (h r).digest
      then unchanged h b (some old) false
      else if (h old).verified || not sign
      then unchanged h b none false
      else if (h r).verified
      then (let (h1, b1) = remove_no_lock h b old in
          elim (append_indexed h1 b1 r) [
            | none ↦ none
            | some (h2, b2) ↦
                some (record { heap = h2; bucket = b2; stored = some r; retry = false })
          ])
      else unchanged h b none true
  | none ↦
      if sign && early && not (h r).verified
      then unchanged h b none true
      else elim (append_indexed h b r) [
        | none ↦ none
        | some (h1, b1) ↦
            some (record { heap = h1; bucket = notify b1; stored = some r; retry = false })
      ]
]

-- `AddRequests`: the requests that are stored, to be tried again, and failed.
pub record AddedAll : Type 0 where
  pub heap : Heap
  pub bucket : Bucket
  pub added : List ℕ
  pub to_retry : List ℕ
  pub failed : List ℕ

unfoldable pub add_one : AddedAll → ℕ → Added → AddedAll
add_one a r one = elim one.stored [
  | some s ↦ record a { heap = one.heap; bucket = one.bucket; added = a.added ++ s ∷ [] }
  | none ↦
      if one.retry
      then record a { heap = one.heap; bucket = one.bucket; to_retry = a.to_retry ++ r ∷ [] }
      else record a { heap = one.heap; bucket = one.bucket; failed = a.failed ++ r ∷ [] }
]

unfoldable pub add_requests : (sign early : Bool) → AddedAll → List ℕ → Option AddedAll
unfolding add_one
add_requests sign early a [] = some a
add_requests sign early a (r ∷ reqs) = elim (add_no_lock sign early a.heap a.bucket r) [
  | none ↦ none
  | some one ↦ add_requests sign early (add_one a r one) reqs
]

-- `Remove`
unfoldable pub remove : Heap → Bucket → List ℕ → Heap × Bucket
remove h b [] = (h, b)
remove h b (r ∷ reqs) = let (h1, b1) = remove_no_lock h b r in remove h1 b1 reqs

-- `GetBucketNr`: of its arguments, only the sender counts, whose id is not negative.
unfoldable pub get_bucket_nr : (num_buckets sender_id : ℕ) → ℕ
get_bucket_nr num_buckets sender_id = sender_id % num_buckets

-- The loop of `PruneIndex` over one client's watermarks, with the number of rounds first.
unfoldable pub prune_loop : ℕ → (num_buckets client_id client_sn : ℕ) → Heap → Bucket → Bucket
unfolding get_bucket_nr
prune_loop zero num_buckets client_id client_sn h b = b
prune_loop (suc rounds) num_buckets client_id client_sn h b =
    let id = req_id (record { client_id = client_id; client_sn = client_sn; sender_id = 0 }) in
    prune_loop rounds num_buckets client_id (add32 client_sn 1) h (elim (lookup id b.req_index) [
      | none ↦ b
      | some r ↦
          if get_bucket_nr num_buckets (h r).msg.request_id.sender_id == b.id
          then record b { req_index = delete id b.req_index }
          else b
    ])

-- A client and its old and new watermark.
pub record WatermarkRange : Type 0 where
  pub client_id : ℕ
  pub old_wm : ℕ
  pub new_wm : ℕ

unfoldable pub prune_index : (num_buckets : ℕ) → Heap → Bucket → List WatermarkRange → Bucket
unfolding prune_loop
prune_index num_buckets h b [] = b
prune_index num_buckets h b (w ∷ ws) =
    prune_index num_buckets h
      (prune_loop (if lt32 w.old_wm w.new_wm then sub32 w.new_wm w.old_wm else 0) num_buckets
        w.client_id w.old_wm h b)
      ws

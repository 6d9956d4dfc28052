-- ===== src/Request/Batches.antt =====
-- request/request.go, request/batch.go: the requests of all buckets on one heap, and the batches that are
-- made of them, each as the list of its request objects. `none` stands for the end of the program. A
-- buffer's backlog is left out. Batches are verified one request after another, as by
-- `checkSignaturesSequential`; the two other functions find the same.
pub mod Kept
pub mod Flight
pub mod Digests
pub mod Adding
pub mod Messages
mod Tests
use orthrus.Protobufs.{ClientRequest, Batch}
use orthrus.Request.Bucket.{Request, Heap, Bucket, prepend}
use orthrus.Request.Bucket.Index.{Added, add_no_lock, remove}
use orthrus.Request.Buffer.{Buffer, Verdict, new_buffer}
use orthrus.Request.Buffer as Buffer
use orthrus.Request.Digest.{request_digest}
use orthrus.Request.Requests.{Requests}
use orthrus.Prelude.{
  ℕ, zero, suc, ◌+◌, ◌-◌, ◌%◌, ◌==◌, ◌&&◌, ◌||◌, Bool, true, false, not, if◌then◌else◌, Option,
  none, some, List, [], ◌∷◌, ◌++◌, lookup, insert, get_elem?, contains, ltb, half, modulus,
}

-- The configuration, SHA-256 and the check of a signature of a client over a digest.
pub record RequestConfig : Type 0 where
  pub num_buckets : ℕ
  pub window_size : ℕ
  pub sign : Bool
  pub early : Bool
  pub hash : List ℕ → List ℕ
  pub check_sig : List ℕ → ℕ → List ℕ → Bool

pub record RequestStore : Type 0 where
  pub heap : Heap
  pub fresh : ℕ
  pub buckets : List Bucket
  pub buffers : List (ℕ × Buffer)

unfoldable pub set_bucket : ℕ → Bucket → List Bucket → List Bucket
set_bucket i new [] = []
set_bucket zero new (b ∷ rest) = new ∷ rest
set_bucket (suc i) new (b ∷ rest) = b ∷ set_bucket i new rest

-- `Buckets[GetBucketNr(...)]`, which panics for a remainder below 0.
unfoldable pub get_bucket : ℕ → ClientRequest → Option ℕ
get_bucket num_buckets req =
    let sender_id = req.request_id.sender_id in
    if num_buckets == 0
    then none
    else if ltb sender_id half
    then some (sender_id % num_buckets)
    else if (modulus - sender_id) % num_buckets == 0
    then some 0
    else none

unfoldable pub get_buffer : ℕ → List (ℕ × Buffer) → Buffer
get_buffer client_id buffers = elim (lookup client_id buffers) [
  | none ↦ new_buffer client_id
  | some buffer ↦ buffer
]

module _ (config : RequestConfig) where
  -- What `AddRequest` leaves.
  unfoldable pub put : ℕ → Added → RequestStore → RequestStore
  unfolding set_bucket
  put nr added st = record st { heap = added.heap; buckets = set_bucket nr added.bucket st.buckets }

  unfoldable pub verify : ℕ → Heap → Heap
  verify r h q =
      if q == r && config.check_sig (h r).digest (h r).msg.request_id.client_id (h r).msg.signature
      then record (h q) { verified = true }
      else h q

  -- `AddRequest`, and once more with the signature checked, if it asks for that.
  unfoldable pub add_request : ℕ → Bucket → ℕ → RequestStore → Option (RequestStore × Option ℕ)
  unfolding put
  add_request nr b r st = elim (add_no_lock config.sign config.early st.heap b r) [
    | none ↦ none
    | some added ↦ some (put nr added st, added.stored)
  ]

  unfoldable pub add_again : ℕ → Bucket → ℕ → RequestStore → Option (RequestStore × Option ℕ)
  unfolding verify add_request put
  add_again nr b r st = elim (add_no_lock config.sign config.early st.heap b r) [
    | none ↦ none
    | some added ↦
        if added.retry
        then add_request nr added.bucket r (record (put nr added st) { heap = verify r added.heap })
        else some (put nr added st, added.stored)
  ]

  -- `Add`
  unfoldable pub add : ℕ → RequestStore → Option (RequestStore × Option ℕ)
  unfolding add_again get_buffer
  add r st =
      let msg = (st.heap r).msg in
      let buffer = get_buffer msg.request_id.client_id st.buffers in
      elim (Buffer.add config.window_size buffer msg) [
        | Verdict.backlogged ↦ some (st, none)
        | Verdict.ignored ↦ some (st, none)
        | Verdict.within ↦ elim (get_elem? st.buckets (st.heap r).bucket) [
          | none ↦ none
          | some b ↦ add_again (st.heap r).bucket b r st
        ]
      ]

  unfoldable pub new_request : ClientRequest → ℕ → Request
  new_request req nr = record {
    msg = req;
    digest = request_digest config.hash req;
    bucket = nr;
    verified = true;
    in_flight = false;
    next = none;
    prev = none;
  }

  -- The request object at a fresh address, and the buffer of its client.
  unfoldable pub make : ClientRequest → ℕ → RequestStore → RequestStore
  unfolding new_request get_buffer
  make req nr st = record st {
    heap = λ q. if q == st.fresh then new_request req nr else st.heap q;
    fresh = st.fresh + 1;
    buffers =
        insert req.request_id.client_id (get_buffer req.request_id.client_id st.buffers) st.buffers;
  }

  -- `AddReqMsg`
  unfoldable pub add_req_msg : ClientRequest → RequestStore → Option (RequestStore × Option ℕ)
  unfolding make add get_bucket
  add_req_msg req st = elim (get_bucket config.num_buckets req) [
    | none ↦ none
    | some nr ↦ add st.fresh (make req nr st)
  ]

  -- The loop of `NewBatch`.
  unfoldable pub add_all :
      List ClientRequest → RequestStore → Option (RequestStore × Option (List ℕ))
  unfolding add_req_msg
  add_all [] st = some (st, some [])
  add_all (req ∷ reqs) st = elim (add_req_msg req st) [
    | none ↦ none
    | some (st1, none) ↦ some (st1, none)
    | some (st1, some r) ↦ elim (add_all reqs st1) [
      | none ↦ none
      | some (st2, none) ↦ some (st2, none)
      | some (st2, some batch) ↦ some (st2, some (r ∷ batch))
    ]
  ]

  -- `CheckSignatures`
  unfoldable pub check_signatures : List ℕ → Heap → Option Heap
  unfolding verify
  check_signatures [] h = some h
  check_signatures (r ∷ batch) h =
      if (h r).verified
      then check_signatures batch h
      else if config.check_sig (h r).digest (h r).msg.request_id.client_id (h r).msg.signature
      then check_signatures batch (verify r h)
      else none

  unfoldable pub new_batch : RequestStore → Batch → Option (RequestStore × Option (List ℕ))
  unfolding add_all check_signatures
  new_batch st msg = elim (add_all msg.requests st) [
    | none ↦ none
    | some (st1, none) ↦ some (st1, none)
    | some (st1, some batch) ↦
        if config.sign
        then elim (check_signatures batch st1.heap) [
          | none ↦ none
          | some h ↦ some (record st1 { heap = h }, some batch)
        ]
        else some (st1, some batch)
  ]

unfoldable pub messages : Heap → List ℕ → List ClientRequest
messages h [] = []
messages h (r ∷ batch) = (h r).msg ∷ messages h batch

unfoldable pub message : RequestStore → List ℕ → Batch
unfolding messages
message st batch = record { requests = messages st.heap batch }

unfoldable pub has_in_flight : RequestStore → List ℕ → Bool
has_in_flight st [] = false
has_in_flight st (r ∷ batch) = (st.heap r).in_flight || has_in_flight st batch

unfoldable pub set_in_flight : ℕ → Bool → RequestStore → RequestStore
set_in_flight r value st = record st {
  heap = λ q. if q == r then record (st.heap q) { in_flight = value } else st.heap q;
}

unfoldable pub mark_in_flight : RequestStore → List ℕ → RequestStore
unfolding set_in_flight
mark_in_flight st [] = st
mark_in_flight st (r ∷ batch) = mark_in_flight (set_in_flight r true st) batch

-- `CheckBucket`; a request whose bucket cannot be found ends the program there, and is refused here.
unfoldable pub in_buckets : ℕ → RequestStore → List ℕ → List ℕ → Bool
unfolding get_bucket
in_buckets num_buckets st active [] = true
in_buckets num_buckets st active (r ∷ batch) = elim (get_bucket num_buckets (st.heap r).msg) [
  | none ↦ false
  | some nr ↦ contains nr active && in_buckets num_buckets st active batch
]

-- `Resurrect`
unfoldable pub resurrect_one : ℕ → RequestStore → Option RequestStore
unfolding set_in_flight set_bucket
resurrect_one r st =
    let freed = set_in_flight r false st in
    elim (get_elem? st.buckets (st.heap r).bucket) [
      | none ↦ none
      | some b ↦ elim (prepend freed.heap b r) [
        | none ↦ none
        | some (h, b1) ↦
            some (record freed { heap = h; buckets = set_bucket (st.heap r).bucket b1 st.buckets })
      ]
    ]

unfoldable pub resurrect : RequestStore → List ℕ → Option RequestStore
unfolding resurrect_one
resurrect st [] = some st
resurrect st (r ∷ batch) = elim (resurrect_one r st) [
  | none ↦ none
  | some st1 ↦ resurrect st1 batch
]

-- The lists of `RemoveBatch`, by the bucket.
unfoldable pub by_bucket : Heap → List ℕ → List (ℕ × List ℕ) → List (ℕ × List ℕ)
by_bucket h [] to_remove = to_remove
by_bucket h (r ∷ batch) to_remove = by_bucket h batch (
    insert (h r).bucket
      (elim (lookup (h r).bucket to_remove) [ none ↦ r ∷ [] | some reqs ↦ reqs ++ r ∷ [] ])
      to_remove)

unfoldable pub remove_lists : List (ℕ × List ℕ) → RequestStore → RequestStore
unfolding set_bucket
remove_lists [] st = st
remove_lists ((nr, reqs) ∷ to_remove) st = elim (get_elem? st.buckets nr) [
  | none ↦ remove_lists to_remove st
  | some b ↦
      let (h, b1) = remove st.heap b reqs in
      remove_lists to_remove (record st { heap = h; buckets = set_bucket nr b1 st.buckets })
]

-- `RemoveBatch`
unfoldable pub remove_batch : RequestStore → List ℕ → RequestStore
unfolding by_bucket remove_lists
remove_batch st batch = remove_lists (by_bucket st.heap batch []) st

-- What an ordering instance is given.
unfoldable pub request_package : RequestConfig → Requests RequestStore
unfolding new_batch message has_in_flight in_buckets mark_in_flight resurrect remove_batch
request_package config = record {
  new_batch = new_batch config;
  message = message;
  has_in_flight = has_in_flight;
  in_buckets = in_buckets config.num_buckets;
  mark_in_flight = mark_in_flight;
  resurrect = resurrect;
  remove_batch = remove_batch;
}

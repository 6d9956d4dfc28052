-- ===== src/Request/BucketGroup.antt =====
-- request/bucketgroup.go: a batch is cut from the buckets of a segment. The waits for time and for
-- requests are left out: `cut_batch` is `CutBatch` once it holds the locks of the buckets, and its
-- argument `total_requests` is the count that the group has then.
pub mod Step
pub mod Batches
mod Tests
use orthrus.Prelude.{
  ℕ, ◌+◌, ◌-◌, ◌/◌, Bool, true, false, if◌then◌else◌, ◌==◌, Option, none, some, List, [], ◌∷◌,
  length, ltb, leb, add32,
}
use orthrus.Protobufs.{ClientRequest}
use orthrus.Request.Bucket.{Heap, Bucket}
use orthrus.Request.Bucket.Cutting.{remove_first}

-- The heap, the buckets and the batch.
pub record NewBatch : Type 0 where
  pub heap : Heap
  pub buckets : List Bucket
  pub requests : List ℕ

-- The first loop: `initCut` requests from each bucket.
unfoldable pub init_cut_loop :
    (ClientRequest → Bool) → (init_cut : ℕ) → List ℕ → Heap → List Bucket → Option NewBatch
init_cut_loop valid init_cut dest h [] = some (record { heap = h; buckets = []; requests = dest })
init_cut_loop valid init_cut dest h (b ∷ bs) = elim (remove_first valid init_cut dest h b) [
  | none ↦ none
  | some ((h1, b1), d1) ↦ elim (init_cut_loop valid init_cut d1 h1 bs) [
    | none ↦ none
    | some r ↦ some (record r { buckets = b1 ∷ r.buckets })
  ]
]

-- The second loop: what is missing, until nothing is.
unfoldable pub fill_loop :
    (ClientRequest → Bool) → (size : ℕ) → List ℕ → Heap → List Bucket → Option NewBatch
fill_loop valid size dest h [] = some (record { heap = h; buckets = []; requests = dest })
fill_loop valid size dest h (b ∷ bs) = elim (ltb (length dest) size) [
  | false ↦ some (record { heap = h; buckets = b ∷ bs; requests = dest })
  | true ↦ elim (remove_first valid (size - length dest) dest h b) [
    | none ↦ none
    | some ((h1, b1), d1) ↦ elim (fill_loop valid size d1 h1 bs) [
      | none ↦ none
      | some r ↦ some (record r { buckets = b1 ∷ r.buckets })
    ]
  ]
]

unfoldable pub init_cut : (size total_requests num_buckets : ℕ) → ℕ
init_cut size total_requests num_buckets =
    if leb size total_requests then size / num_buckets else total_requests / num_buckets

unfoldable pub cut_batch :
    (ClientRequest → Bool) → (size total_requests : ℕ) → Heap → List Bucket → Option NewBatch
unfolding init_cut
cut_batch valid size total_requests h [] = some (record { heap = h; buckets = []; requests = [] })
cut_batch valid size total_requests h (b ∷ bs) =
    elim (init_cut_loop valid (init_cut size total_requests (length (b ∷ bs))) [] h (b ∷ bs)) [
      | none ↦ none
      | some r ↦ fill_loop valid size r.requests r.heap r.buckets
    ]

-- `CountRequests`
unfoldable pub count_requests : List Bucket → ℕ
count_requests [] = 0
count_requests (b ∷ bs) = b.num_requests + count_requests bs

-- What `RequestAdded` reads of the group: the count, the threshold (nothing where none is set, -1 in
-- the code), and whether the timer runs.
pub record BucketGroup : Type 0 where
  pub total_requests : ℕ
  pub cut_threshold : Option ℕ
  pub timer : Bool

-- `RequestAdded`: the group afterwards, and whether the batch is triggered; stopping the timer succeeds
-- unless it has fired already, which is the last argument.
unfoldable pub request_added : BucketGroup → (fired : Bool) → BucketGroup × Bool
request_added g fired =
    let total = add32 g.total_requests 1 in
    let now = record g { total_requests = total } in
    (
      now,
      if g.timer
          then (elim g.cut_threshold [
            | none ↦ false
            | some t ↦ if total == t then (if fired then false else true) else false
          ])
          else false,
    )

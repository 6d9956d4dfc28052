-- ===== src/Request/Bucket.antt =====
-- request/bucket.go: a bucket of requests, a doubly linked list of objects on a heap with an index
-- beside it. A pointer is an address of the heap, `none` is nil. The Boolean `group` says whether a
-- bucket group waits for the bucket, and `notified` counts the calls of its `RequestAdded`; locks are
-- left out, since each method holds the bucket's lock from its start to its end.
pub mod Links
pub mod Queue
pub mod Ends
pub mod Cutting
pub mod Index
pub mod Ids
mod Tests
use orthrus.Prelude.{
  ℕ, zero, suc, ◌+◌, ◌-◌, ◌*◌, ◌%◌, Bool, true, false, if◌then◌else◌, ◌==◌, ◌&&◌, ◌||◌, not, Option,
  none, some, List, [], ◌∷◌, ◌++◌, lookup, insert, delete, length, ltb, leb, half, modulus,
}
use orthrus.Protobufs.{RequestId, ClientRequest}

-- `Request`. The pointers to the buffer and to the channel of the verifier are not read here.
pub record Request : Type 0 where
  pub msg : ClientRequest
  pub digest : List ℕ
  pub bucket : ℕ
  pub verified : Bool
  pub in_flight : Bool
  pub next : Option ℕ
  pub prev : Option ℕ

abbrev pub Heap : Type 0
Heap = ℕ → Request

pub record Bucket : Type 0 where
  pub id : ℕ
  pub group : Bool
  pub notified : ℕ
  pub req_index : List (ℕ × ℕ)
  pub num_requests : ℕ
  pub first_request : Option ℕ
  pub last_request : Option ℕ

unfoldable pub new_bucket : ℕ → Bucket
new_bucket id = record {
  id = id;
  group = false;
  notified = 0;
  req_index = [];
  num_requests = 0;
  first_request = none;
  last_request = none;
}

-- `p == r` for a pointer and the address of a request.
abbrev pub points : Option ℕ → ℕ → Bool
points none r = false
points (some q) r = q == r

abbrev pub is_nil : Option ℕ → Bool
is_nil none = true
is_nil (some q) = false

-- `p.Next = v` and `p.Prev = v`
unfoldable pub set_next : ℕ → Option ℕ → Heap → Heap
set_next p v h q = if q == p then record (h q) { next = v } else h q

unfoldable pub set_prev : ℕ → Option ℕ → Heap → Heap
set_prev p v h q = if q == p then record (h q) { prev = v } else h q

-- `int64(clID)<<32 + int64(clSN)`, where the conversions keep the sign.
unfoldable pub int64 : ℕ → ℕ
int64 n = if ltb n half then n else n + (modulus * modulus - modulus)

unfoldable pub req_id : RequestId → ℕ
unfolding int64
req_id id = (int64 id.client_id * modulus + int64 id.client_sn) % (modulus * modulus)

-- Neither linked nor first: the test of `removeNoLock` and `Prepend` for a request outside the list.
unfoldable pub is_outside : Heap → Bucket → ℕ → Bool
is_outside h b r = is_nil (h r).next && is_nil (h r).prev && not (points b.first_request r)

-- `if p != nil { p.Next = v }`, and for `Prev`.
unfoldable pub set_next_of : Option ℕ → Option ℕ → Heap → Heap
set_next_of none v h = h
set_next_of (some p) v h = set_next p v h

unfoldable pub set_prev_of : Option ℕ → Option ℕ → Heap → Heap
set_prev_of none v h = h
set_prev_of (some p) v h = set_prev p v h

-- The count goes down by one; the code's would go below zero where no request is counted.
unfoldable pub remove_no_lock : Heap → Bucket → ℕ → Heap × Bucket
unfolding is_outside
remove_no_lock h b r =
    if is_outside h b r
    then (h, b)
    else (let next = (h r).next in
        let prev = (h r).prev in
        let linked = set_next_of prev next (set_prev_of next prev h) in
        (
          set_next r none (set_prev r none linked),
          record b {
            first_request = if is_nil prev then next else b.first_request;
            last_request = if is_nil next then prev else b.last_request;
            num_requests = b.num_requests - 1;
          },
        ))

-- `none` where the code ends the program: the request is linked already, or `LastRequest` is nil.
unfoldable pub append : Heap → Bucket → ℕ → Option (Heap × Bucket)
append h b r =
    if not (is_nil (h r).prev) || not (is_nil (h r).next) then none else elim b.first_request [
      | none ↦ some (
        h,
        record b {
          first_request = some r;
          last_request = some r;
          num_requests = b.num_requests + 1;
        },
      )
      | some f ↦ elim b.last_request [
        | none ↦ none
        | some l ↦ some (
          set_prev r (some l) (set_next l (some r) h),
          record b { last_request = some r; num_requests = b.num_requests + 1 },
        )
      ]
    ]

-- `if b.Group != nil { b.Group.RequestAdded() }`
unfoldable pub notify : Bucket → Bucket
notify b = if b.group then record b { notified = b.notified + 1 } else b

-- `Prepend`; `none` where the code panics.
unfoldable pub prepend : Heap → Bucket → ℕ → Option (Heap × Bucket)
unfolding notify is_outside
prepend h b r = elim (lookup (req_id (h r).msg.request_id) b.req_index) [
  | none ↦ none
  | some q ↦
      if is_outside h b r
      then elim b.first_request [
        | none ↦ some (
          h,
          notify (record b {
            first_request = some r;
            last_request = some r;
            num_requests = b.num_requests + 1;
          }),
        )
        | some f ↦ some (
          set_next r (some f) (set_prev f (some r) h),
          notify (record b { first_request = some r; num_requests = b.num_requests + 1 }),
        )
      ]
      else some (h, b)
]

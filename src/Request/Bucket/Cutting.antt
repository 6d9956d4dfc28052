-- ===== src/Request/Bucket/Cutting.antt =====
-- request/bucket.go: `RemoveFirst` takes requests from the front of a bucket, and puts those that are
-- not valid back with `PrependMultiple`. The argument `valid` is `account.RequestIsValid`.
pub mod Chain
pub mod Front
use orthrus.Prelude.{
  ℕ, zero, suc, ◌+◌, ◌-◌, Bool, true, false, if◌then◌else◌, ◌&&◌, Option, none, some, List, [], ◌∷◌,
  ◌++◌, length, ltb,
}
use orthrus.Protobufs.{ClientRequest}
use orthrus.Request.Bucket.{Request, Heap, Bucket, set_next, set_prev, remove_no_lock}

-- The loop of `PrependMultiple`, which links each request to the next.
unfoldable pub link_loop : List ℕ → Heap → Heap
link_loop [] h = h
link_loop (r ∷ []) h = h
link_loop (r ∷ s ∷ reqs) h = link_loop (s ∷ reqs) (set_prev s (some r) (set_next r (some s) h))

-- `reqs[len(reqs)-1]` of the list that begins with the first argument.
unfoldable pub end_of : ℕ → List ℕ → ℕ
end_of r [] = r
end_of r (s ∷ reqs) = end_of s reqs

unfoldable pub prepend_multiple : Heap → Bucket → List ℕ → Heap × Bucket
unfolding link_loop end_of
prepend_multiple h b [] = (h, b)
prepend_multiple h b (start ∷ reqs) =
    let chain = link_loop (start ∷ reqs) h in
    let end = end_of start reqs in
    let num = b.num_requests + length (start ∷ reqs) in
    elim b.first_request [
      | none ↦ (
        chain,
        record b { first_request = some start; last_request = some end; num_requests = num },
      )
      | some f ↦ (
        set_next end (some f) (set_prev f (some end) chain),
        record b { first_request = some start; num_requests = num },
      )
    ]

-- The variables of the loop of `RemoveFirst`.
pub record Cut : Type 0 where
  pub heap : Heap
  pub bucket : Bucket
  pub dest : List ℕ
  pub pending : List ℕ

-- The loop of `RemoveFirst`, with fuel first; `none` where `FirstRequest` is nil. Each round removes
-- the first request, so that the number of requests is fuel enough.
unfoldable pub remove_first_loop : ℕ → (ClientRequest → Bool) → ℕ → Cut → Option Cut
remove_first_loop zero valid n c = some c
remove_first_loop (suc fuel) valid n c = elim (ltb 0 c.bucket.num_requests && ltb 0 n) [
  | false ↦ some c
  | true ↦ elim c.bucket.first_request [
    | none ↦ none
    | some r ↦
        let (h, b) = remove_no_lock c.heap c.bucket r in
        elim (valid (c.heap r).msg) [
          | true ↦
              remove_first_loop fuel valid (n - 1)
                (record { heap = h; bucket = b; dest = c.dest ++ r ∷ []; pending = c.pending })
          | false ↦
              remove_first_loop fuel valid n
                (record { heap = h; bucket = b; dest = c.dest; pending = c.pending ++ r ∷ [] })
        ]
  ]
]

-- `RemoveFirst`: the heap and the bucket afterwards, and the extended destination.
unfoldable pub remove_first :
    (ClientRequest → Bool) → ℕ → List ℕ → Heap → Bucket → Option ((Heap × Bucket) × List ℕ)
unfolding prepend_multiple
remove_first valid n dest h b =
    elim (remove_first_loop b.num_requests valid n
      (record { heap = h; bucket = b; dest = dest; pending = [] })) [
        | none ↦ none
        | some c ↦ some (prepend_multiple c.heap c.bucket c.pending, c.dest)
      ]

-- ===== src/Request/Buffer.antt =====
-- request/buffer.go: the window of client sequence numbers that are accepted, and how committed
-- requests move it. The goroutine that adds the requests of the backlog again is not run here.
pub mod Watermarks
mod Tests
use orthrus.Prelude.{
  ℕ, zero, suc, Bool, true, false, if◌then◌else◌, ◌==◌, Option, none, some, List, [], ◌∷◌, ◌++◌,
  lookup, insert, delete, length, add32, le32, lt32,
}
use orthrus.Protobufs.{RequestId, ClientRequest, Batch}

pub record Buffer : Type 0 where
  pub client_id : ℕ
  pub low_watermark : ℕ
  pub requests_committed : List (ℕ × Bool)

unfoldable pub new_buffer : ℕ → Buffer
new_buffer client_id = record { client_id = client_id; low_watermark = 0; requests_committed = [] }

-- `Add`: ahead of the window, the request goes to the backlog; below it, it is ignored; within it, it
-- is to be added to its bucket.
pub data Verdict : Type 0 where
  backlogged : Verdict
  ignored : Verdict
  within : Verdict

unfoldable pub add : ℕ → Buffer → ClientRequest → Verdict
add window_size b req =
    if le32 (add32 b.low_watermark window_size) req.request_id.client_sn
    then backlogged
    else if lt32 req.request_id.client_sn b.low_watermark
    then ignored
    else within

-- The requests of one committed batch.
unfoldable pub mark_requests : ℕ → List ClientRequest → List (ℕ × Bool) → List (ℕ × Bool)
mark_requests client_id [] m = m
mark_requests client_id (req ∷ rest) m =
    mark_requests client_id rest
      (if req.request_id.client_id == client_id then insert req.request_id.client_sn true m else m)

unfoldable pub mark_committed : ℕ → List Batch → List (ℕ × Bool) → List (ℕ × Bool)
unfolding mark_requests
mark_committed client_id [] m = m
mark_committed client_id (batch ∷ rest) m =
    mark_committed client_id rest (mark_requests client_id batch.requests m)

-- Go's read of a map: `false` for a missing key.
unfoldable pub is_marked : ℕ → List (ℕ × Bool) → Bool
is_marked sn m = elim (lookup sn m) [ none ↦ false | some committed ↦ committed ]

-- The loop that advances the watermark; the first argument is the fuel.
unfoldable pub advance_loop : ℕ → Buffer → Buffer
advance_loop zero b = b
advance_loop (suc fuel) b = elim (is_marked b.low_watermark b.requests_committed) [
  | false ↦ b
  | true ↦ advance_loop fuel (record b {
    requests_committed = delete b.low_watermark b.requests_committed;
    low_watermark = add32 b.low_watermark 1;
  })
]

-- `AdvanceWatermarks`: each round of the loop deletes an entry, so their number and one more is fuel
-- enough. The second component is the watermark before.
unfoldable pub advance_watermarks : Buffer → List Batch → Buffer × ℕ
advance_watermarks b entries =
    let m = mark_committed b.client_id entries b.requests_committed in
    (advance_loop (suc (length m)) (record b { requests_committed = m }), b.low_watermark)

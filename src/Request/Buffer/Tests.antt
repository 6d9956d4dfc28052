-- ===== src/Request/Buffer/Tests.antt =====
-- Client 4, whose requests 0, 2 and 1 are committed in two batches, beside one of client 7.
use orthrus.Prelude.{ℕ, ◌+◌, ◌≡◌, ◌≤◌, ◌<◌, false, List, [], ◌∷◌, ◌||◌, length, arith, half}
use orthrus.Protobufs.{ClientRequest, Batch}
use orthrus.Request.Buffer.{Buffer, mark_requests, mark_committed, advance_watermarks}
use orthrus.Request.Buffer.Watermarks.{is_committed, delivered, advance_watermarks_lem}

abbrev request : ℕ → ℕ → ClientRequest
request client n = record {
  request_id = record { client_id = client; client_sn = n; sender_id = 0 };
  payload = [];
  payload_random = [];
  pubkey = [];
  signature = [];
  is_contract = 0;
}

abbrev batches : List Batch
batches =
    record { requests = request 4 0 ∷ request 7 3 ∷ request 4 2 ∷ [] }
    ∷ record { requests = request 4 1 ∷ request 4 5 ∷ [] }
    ∷ []

abbrev buffer : Buffer
buffer = record { client_id = 4; low_watermark = 0; requests_committed = [] }

marked_few : 0 + length (mark_committed 4 batches []) < half
unfolding mark_committed mark_requests
marked_few = omega arith

advance_watermarks_lem_example :
    ((sn : ℕ)
      → is_committed (advance_watermarks buffer batches).0 sn
        ≡ (is_committed buffer sn || delivered 4 sn batches))
    × (is_committed
          (advance_watermarks buffer batches).0
          (advance_watermarks buffer batches).0.low_watermark
        ≡ false)
    × (0 ≤ (advance_watermarks buffer batches).0.low_watermark)
    × ((advance_watermarks buffer batches).1 ≡ 0)
advance_watermarks_lem_example = advance_watermarks_lem buffer batches marked_few

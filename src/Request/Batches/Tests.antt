-- ===== src/Request/Batches/Tests.antt =====
-- Two requests of one client in bucket 0, the first of them taken in a batch.
use orthrus.Request.Bucket.{Request, notify, req_id, int64, Bucket, new_bucket, append}
use orthrus.Request.Batches.{
  RequestStore, set_bucket, RequestConfig, new_batch, add_all, add_req_msg, add, add_again,
  add_request, put, verify, make, new_request, get_buffer, get_bucket, check_signatures, message,
}
use orthrus.Protobufs.{Batch}
use orthrus.Request.Bucket.Index.{add_no_lock, append_indexed}
use orthrus.Request.Buffer.{Buffer, new_buffer}
use orthrus.Request.Buffer as Buffer
use orthrus.Request.Digest.{request_digest, request_id_to_bytes, put_uint32}
use orthrus.Request.Batches.Adding.{IsSound}
use orthrus.Request.Batches.Messages.{message-new_batch}
use orthrus.Prelude.{
  zero, suc, ◌<◌, subst, arith, map, lookup, get_elem?, the_same, nothing_there, same_bytes, le32,
  lt32, add32, ◌≡◌, refl, true, false, none, some, [], ◌∷◌, ℕ, List,
}

abbrev taken : Request
taken = record {
  msg = record {
    request_id = record { client_id = 1; client_sn = 0; sender_id = 0 };
    payload = [];
    payload_random = [];
    pubkey = [];
    signature = [];
    is_contract = 0;
  };
  digest = [];
  bucket = 0;
  verified = true;
  in_flight = true;
  next = none;
  prev = none;
}

abbrev store : RequestStore
store = record {
  heap = λ r. taken;
  fresh = 1;
  buckets =
      record {
        id = 0;
        group = false;
        notified = 0;
        req_index = (4294967296, 0) ∷ [];
        num_requests = 0;
        first_request = none;
        last_request = none;
      }
      ∷ [];
  buffers = [];
}

abbrev config : RequestConfig
config = record {
  num_buckets = 1;
  window_size = 8;
  sign = true;
  early = false;
  hash = λ bytes. bytes;
  check_sig = λ digest client_id signature. true;
}

abbrev empty : RequestStore
empty = record { heap = λ r. taken; fresh = 0; buckets = new_bucket 0 ∷ []; buffers = [] }

abbrev one_request : Batch
one_request = record { requests = taken.msg ∷ [] }

unfoldable made :
    (st : RequestStore) × (batch : List ℕ) × (new_batch config empty one_request
      ≡ some (st, some batch))
unfolding new_batch add_all add_req_msg add add_again add_request put verify make new_request
    get_buffer get_bucket set_bucket check_signatures add_no_lock append_indexed append notify
    req_id int64 same_bytes request_digest request_id_to_bytes put_uint32 Buffer.add new_buffer
    new_bucket le32 lt32 add32
made = (_, _, refl)

only_bucket :
    (nr : ℕ) (b : Bucket)
    → get_elem? empty.buckets nr ≡ some b
    → (k s : ℕ) → lookup k b.req_index ≡ some s
    → s < 0
unfolding new_bucket
only_bucket zero b e k s p =
    elim (nothing_there (subst (λ c. lookup k c.req_index ≡ some s) (the_same e) p)) [ ]
only_bucket (suc nr) b e k s p = elim (nothing_there e) [ ]

below_none : (a : ℕ) → a < 0 → 0 < 0
below_none a l = omega (arith, l)

empty-IsSound : IsSound config empty
empty-IsSound = record {
  indexed = λ nr b e. record { below = only_bucket nr b e };
  digested = λ a l. elim (below_none a l) [ ];
}

message-new_batch_example :
    (map (request_digest config.hash) (message made.0 made.1).requests
      ≡ map (request_digest config.hash) one_request.requests)
    × IsSound config made.0
message-new_batch_example =
    message-new_batch config one_request empty made.0 made.1 empty-IsSound made.2

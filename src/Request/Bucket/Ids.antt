-- ===== src/Request/Bucket/Ids.antt =====
-- The key of the index tells requests apart.
use orthrus.Prelude.{ap, ℕ, ◌%◌, ◌≡◌, ◌<◌, arith, modulus}
use orthrus.Protobufs.{RequestId}
use orthrus.Request.Bucket.{req_id, int64}

-- The key keeps the client sequence number as its lower half.
req_id-low :
    (id : RequestId)
    → id.client_id < modulus
    → id.client_sn < modulus
    → req_id id % modulus ≡ id.client_sn
unfolding req_id int64
req_id-low id c s = ground arith

-- Requests with the same key have the same client and the same client sequence number, negative ones
-- included.
pub req_id_injective :
    (a b : RequestId)
    → a.client_id < modulus
    → a.client_sn < modulus
    → b.client_id < modulus
    → b.client_sn < modulus
    → req_id a ≡ req_id b
    → (a.client_id ≡ b.client_id) × (a.client_sn ≡ b.client_sn)
unfolding req_id int64
req_id_injective a b ac asn bc bs e =
    let low : a.client_sn ≡ b.client_sn =
      omega (arith, req_id-low a ac asn, req_id-low b bc bs, ap (λ (k : ℕ). k % modulus) e) in
    (ground (arith, low), low)

-- ===== src/Request/Digest.antt =====
-- request/request.go, request/batch.go: the digests of requests and batches. `hash` is SHA-256, which
-- crypto.Hash and crypto.ParallelDataArrayHash call.
use orthrus.Protobufs.{ClientRequest, Batch}
use orthrus.Prelude.{ℕ, ◌/◌, ◌%◌, List, [], ◌∷◌, ◌++◌, map}

-- `binary.LittleEndian.PutUint32`
unfoldable pub put_uint32 : ℕ → List ℕ
put_uint32 n = n % 256 ∷ n / 256 % 256 ∷ n / 65536 % 256 ∷ n / 16777216 % 256 ∷ []

unfoldable pub request_id_to_bytes : ClientRequest → List ℕ
unfolding put_uint32
request_id_to_bytes req = put_uint32 req.request_id.client_sn ++ put_uint32 req.request_id.client_id

module _ (hash : List ℕ → List ℕ) where
  unfoldable pub concat : List (List ℕ) → List ℕ
  concat [] = []
  concat (d ∷ ds) = d ++ concat ds

  -- The goroutines write the hashes to their places.
  unfoldable pub parallel_data_array_hash : List (List ℕ) → List ℕ
  unfolding concat
  parallel_data_array_hash data_array = hash (concat (map hash data_array))

  -- `Digest`
  unfoldable pub request_digest : ClientRequest → List ℕ
  unfolding request_id_to_bytes
  request_digest req = hash (request_id_to_bytes req ++ req.payload ++ req.pubkey)

  unfoldable pub batch_metadata : List ClientRequest → List ℕ
  unfolding request_id_to_bytes
  batch_metadata [] = []
  batch_metadata (req ∷ reqs) = request_id_to_bytes req ++ req.pubkey ++ batch_metadata reqs

  unfoldable pub batch_digest : Batch → List ℕ
  unfolding request_digest batch_metadata parallel_data_array_hash
  batch_digest batch =
      parallel_data_array_hash
        (map request_digest batch.requests ++ hash (batch_metadata batch.requests) ∷ [])

-- ===== src/Request/Requests.antt =====
-- What an ordering instance uses of the request package: a state of the requests, and the batches
-- that are made of them, each as the list of its request objects. `none` is the end of the program.
use orthrus.Protobufs.{Batch}
use orthrus.Prelude.{ℕ, Bool, Option, List}

pub record Requests (R : Type 0) : Type 0 where
  -- `NewBatch`, whose second result is nil for a batch that is not valid.
  pub new_batch : R → Batch → Option (R × Option (List ℕ))
  pub message : R → List ℕ → Batch
  pub has_in_flight : R → List ℕ → Bool
  pub in_buckets : R → List ℕ → List ℕ → Bool
  pub mark_in_flight : R → List ℕ → R
  pub resurrect : R → List ℕ → Option R
  pub remove_batch : R → List ℕ → R

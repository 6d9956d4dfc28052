-- ===== src/Protobufs.antt =====
-- protobufs/request.proto: the messages that the modelled code reads. A field of type `bytes` is
-- the list of its bytes, an `int32` field its bit pattern.
use orthrus.Prelude.{ℕ, List}

pub record RequestId : Type 0 where
  pub client_id : ℕ
  pub client_sn : ℕ
  pub sender_id : ℕ

pub record ClientRequest : Type 0 where
  pub request_id : RequestId
  pub payload : List ℕ
  pub payload_random : List ℕ
  pub pubkey : List ℕ
  pub signature : List ℕ
  pub is_contract : ℕ

pub record Batch : Type 0 where
  pub requests : List ClientRequest

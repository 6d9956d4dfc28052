-- ===== src/Orderer/Agreement.antt =====
-- orderer/pbftinstance.go: the checkpoint of a segment, `handlePBFTCheckpoint` and `catchUp`. A message
-- is its digests; the argument `hash` gives its digest string, and where the code ranges over a map, the
-- order is that of the list.
use orthrus.Orderer.Votes.{PbftBatch}
use orthrus.Prelude.{
  ℕ, ◌+◌, ◌==◌, Bool, false, if◌then◌else◌, Option, none, some, List, [], ◌∷◌, ◌++◌, length, insert,
  lookup, leb, same_bytes,
}

-- `catch_ups` counts the calls of `time.AfterFunc`, each of which hands the instance a PbftCatchUp.
pub record Agreement : Type 0 where
  pub checkpoint_msgs : List (ℕ × List (List ℕ))
  pub checkpoint_digests : List (List ℕ × List ℕ)
  pub checkpoint_timer : Bool
  pub final_digests : Option (List (ℕ × List ℕ))
  pub catch_ups : ℕ

-- `pi.checkpointDigests[digestStr]`.
unfoldable pub nodes_with : List ℕ → List (List ℕ × List ℕ) → List ℕ
nodes_with digest [] = []
nodes_with digest ((d, nodes) ∷ rest) =
    if same_bytes d digest then nodes else nodes_with digest rest

unfoldable pub append_node : List ℕ → ℕ → List (List ℕ × List ℕ) → List (List ℕ × List ℕ)
append_node digest sender_id [] = (digest, sender_id ∷ []) ∷ []
append_node digest sender_id ((d, nodes) ∷ rest) =
    if same_bytes d digest
    then (d, nodes ++ sender_id ∷ []) ∷ rest
    else (d, nodes) ∷ append_node digest sender_id rest

-- The loop that saves the digests; none where the message has too few.
unfoldable pub save_digests :
    List ℕ → List (List ℕ) → List (ℕ × List ℕ) → Option (List (ℕ × List ℕ))
save_digests [] digests saved = some saved
save_digests (sn ∷ sns) [] saved = none
save_digests (sn ∷ sns) (digest ∷ digests) saved = save_digests sns digests (insert sn digest saved)

unfoldable pub ready : Option (List (ℕ × List ℕ)) → Agreement → Option Agreement
ready none a = none
ready (some saved) a =
    some (record a {
      checkpoint_timer = false;
      final_digests = some saved;
      catch_ups = 1 + a.catch_ups;
    })

-- The duplicate test fails the call, with the state as it was.
unfoldable pub handle_pbft_checkpoint :
    (List (List ℕ) → List ℕ) → ℕ → List ℕ → List (List ℕ) → ℕ → Agreement → Option Agreement
unfolding append_node nodes_with ready save_digests
handle_pbft_checkpoint hash quorum sns digests sender_id a =
    elim (lookup sender_id a.checkpoint_msgs) [
      | some m ↦ some a
      | none ↦
          let heard : Agreement = record a {
            checkpoint_digests = append_node (hash digests) sender_id a.checkpoint_digests;
          } in
          if length (nodes_with (hash digests) heard.checkpoint_digests) == quorum
          then ready (save_digests sns digests []) heard
          else some heard
    ]

-- `processSerializedMessages`, for these messages: the sender and the digests of each.
unfoldable pub handle_checkpoints :
    (List (List ℕ) → List ℕ) → ℕ → List ℕ → List (ℕ × List (List ℕ)) → Agreement → Option Agreement
unfolding handle_pbft_checkpoint
handle_checkpoints hash quorum sns [] a = some a
handle_checkpoints hash quorum sns ((sender_id, digests) ∷ ms) a =
    elim (handle_pbft_checkpoint hash quorum sns digests sender_id a) [
      | none ↦ none
      | some later ↦ handle_checkpoints hash quorum sns ms later
    ]

unfoldable pub sources : ℕ → List (List ℕ × List ℕ) → List ℕ
sources quorum [] = []
sources quorum ((d, nodes) ∷ rest) =
    if leb quorum (length nodes) then nodes else sources quorum rest

-- The sequence numbers that `catchUp` fetches, from the sources.
unfoldable pub catch_up_sns : List (ℕ × PbftBatch) → List ℕ
catch_up_sns [] = []
catch_up_sns ((sn, batch) ∷ rest) =
    if batch.committed then catch_up_sns rest else sn ∷ catch_up_sns rest

unfoldable pub fetch_missing : ℕ → Agreement → List (ℕ × PbftBatch) → List ℕ × List ℕ
unfolding sources catch_up_sns
fetch_missing quorum a batches = (sources quorum a.checkpoint_digests, catch_up_sns batches)

-- The instance before it has a message: `init` leaves the final digests nil.
unfoldable pub no_agreement : Bool → Agreement
no_agreement timer = record {
  checkpoint_msgs = [];
  checkpoint_digests = [];
  checkpoint_timer = timer;
  final_digests = none;
  catch_ups = 0;
}

-- ===== src/Checkpoint.antt =====
-- checkpoint/simplecheckpointer.go: a checkpoint becomes stable once a quorum of nodes has sent a
-- message for it. Messages are handled one after another by a single goroutine
-- (`sequentialMessageHandler`); `HandleMessage` only puts them in its channel, so a list of messages
-- is a run. The digest of a message is not read.
pub mod Stable
pub mod Progress
mod Tests
use orthrus.Prelude.{
  ℕ, Bool, true, false, not, if◌then◌else◌, Option, none, some, List, [], ◌∷◌, lookup, insert, keys,
  length, lt32, le32, leb,
}
use orthrus.Log.Checkpoints.{
  StableCheckpoint, Checkpoints, commit_checkpoint, get_checkpoint, is_newer,
}

-- A checkpoint message and its sender (`receivedMessage`).
pub record Received : Type 0 where
  pub sn : ℕ
  pub sender_id : ℕ

-- The checkpointer's map, and the checkpoints of the log that it reads and writes.
pub record State : Type 0 where
  pub pending : List (ℕ × List (ℕ × Bool))
  pub log : Checkpoints

-- `log.GetCheckpoint() == nil || log.GetCheckpoint().Sn < msg.Sn`
unfoldable pub is_current : Option StableCheckpoint → ℕ → Bool
is_current none sn = true
is_current (some c) sn = lt32 c.sn sn

-- The senders registered for a sequence number; a new map where there is none.
unfoldable pub senders_of : ℕ → List (ℕ × List (ℕ × Bool)) → List (ℕ × Bool)
senders_of sn pending = elim (lookup sn pending) [ none ↦ [] | some senders ↦ senders ]

unfoldable pub prune_old : ℕ → List (ℕ × List (ℕ × Bool)) → List (ℕ × List (ℕ × Bool))
prune_old stable [] = []
prune_old stable ((sn, senders) ∷ rest) =
    if le32 sn stable then prune_old stable rest else (sn, senders) ∷ prune_old stable rest

-- One empty proof for each sender.
unfoldable pub dummy_proof : List (ℕ × Bool) → List (ℕ × List ℕ)
dummy_proof [] = []
dummy_proof ((peer, b) ∷ rest) = (peer, []) ∷ dummy_proof rest

-- `sequentialMessageHandler`; the first argument is `membership.Quorum()`.
unfoldable pub handle : ℕ → State → Received → State
unfolding dummy_proof
handle quorum s m =
    if is_current (get_checkpoint s.log) m.sn
    then (let senders = insert m.sender_id true (senders_of m.sn s.pending) in
        let pending = insert m.sn senders s.pending in
        if leb quorum (length senders)
        then record {
          pending = prune_old m.sn pending;
          log = commit_checkpoint s.log (record { sn = m.sn; proof = dummy_proof senders });
        }
        else record { pending = pending; log = s.log })
    else s

unfoldable pub run : ℕ → State → List Received → State
run quorum s [] = s
run quorum s (m ∷ ms) = run quorum (handle quorum s m) ms

-- `NewSimpleCheckpointer`, with a log that has no stable checkpoint.
abbrev pub init : List (List StableCheckpoint) → State
init subscribers = record {
  pending = [];
  log = record { checkpoint = none; subscribers = subscribers };
}

-- `GetPendingCheckpoints`: the sequence numbers for which this node has sent a message.
unfoldable pub pending_checkpoints : ℕ → List (ℕ × List (ℕ × Bool)) → List ℕ
pending_checkpoints own [] = []
pending_checkpoints own ((sn, senders) ∷ rest) = elim (lookup own senders) [
  | some true ↦ sn ∷ pending_checkpoints own rest
  | some false ↦ pending_checkpoints own rest
  | none ↦ pending_checkpoints own rest
]

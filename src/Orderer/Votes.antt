-- ===== src/Orderer/Votes.antt =====
-- orderer/pbftinstance.go: the votes on one batch in one view. `Faults()` is the argument `faults`.
-- Where the code ranges over a map of messages, the order is that of the list.
pub mod Prepared
pub mod Committed
pub mod Quorum
mod Tests
use orthrus.Protobufs.{Batch}
use orthrus.Prelude.{
  same_bytes, ℕ, suc, ◌+◌, ◌*◌, Bool, true, false, if◌then◌else◌, ◌==◌, ◌&&◌, not, Option, none,
  some, List, [], ◌∷◌, ◌++◌, lookup, insert, length, leb, ltb,
}

-- PREPARE, as far as the votes read it.
pub record PbftPrepare : Type 0 where
  pub sn : ℕ
  pub view : ℕ
  pub digest : List ℕ

-- COMMIT; `ts` is the time of its reception.
pub record PbftCommit : Type 0 where
  pub sn : ℕ
  pub view : ℕ
  pub digest : List ℕ
  pub ts : ℕ

-- PRE-PREPARE: the proposal `batch` for a sequence number, and its rank `tn`.
pub record PbftPreprepare : Type 0 where
  pub sn : ℕ
  pub view : ℕ
  pub leader : ℕ
  pub batch : Option Batch
  pub ts : ℕ
  pub aborted : Bool
  pub tn : ℕ

-- A `none` in `commit_msgs` is the explicit nil of a message that has been validated;
-- `view_change_timer` and `has_maps` are whether the timer and the two maps are not nil.
pub record PbftBatch : Type 0 where
  pub prepare_msgs : List (ℕ × PbftPrepare)
  pub commit_msgs : List (ℕ × Option PbftCommit)
  pub valid_commit_msgs : List PbftCommit
  pub last_commit_ts : ℕ
  pub digest : List ℕ
  pub preprepared : Bool
  pub prepared : Bool
  pub committed : Bool
  pub preprepare_msg : Option PbftPreprepare
  pub batch : Option Batch
  pub view_change_timer : Bool
  pub has_maps : Bool

-- The loop of `isPrepared`, which stops once enough messages match.
unfoldable pub matching_loop : ℕ → List ℕ → ℕ → List (ℕ × PbftPrepare) → ℕ
matching_loop enough digest matching [] = matching
matching_loop enough digest matching ((sender_id, prepare) ∷ rest) =
    elim (same_bytes prepare.digest digest) [
      | false ↦ matching_loop enough digest matching rest
      | true ↦ elim (leb enough (suc matching)) [
        | true ↦ suc matching
        | false ↦ matching_loop enough digest (suc matching) rest
      ]
    ]

unfoldable pub is_prepared : ℕ → PbftBatch → Bool
unfolding matching_loop
is_prepared faults batch =
    if not batch.preprepared
    then false
    else if ltb (length batch.prepare_msgs) (2 * faults)
    then false
    else if ltb (matching_loop (2 * faults) batch.digest 0 batch.prepare_msgs) (2 * faults)
    then false
    else true

-- The test of the loop of `CheckCommits`.
unfoldable pub is_valid : List ℕ → Option PbftCommit → Bool
is_valid digest none = false
is_valid digest (some commit) = same_bytes commit.digest digest

-- What the loop of `CheckCommits` writes: the entry that it is at, the valid messages and the time.
pub record Accepted : Type 0 where
  pub commit_msgs : List (ℕ × Option PbftCommit)
  pub valid_commit_msgs : List PbftCommit
  pub last_commit_ts : ℕ

unfoldable pub accept_loop : List ℕ → List PbftCommit → ℕ → List (ℕ × Option PbftCommit) → Accepted
accept_loop digest valid ts [] = record {
  commit_msgs = [];
  valid_commit_msgs = valid;
  last_commit_ts = ts;
}
accept_loop digest valid ts ((peer_id, none) ∷ rest) =
    let after = accept_loop digest valid ts rest in
    record after { commit_msgs = (peer_id, none) ∷ after.commit_msgs }
accept_loop digest valid ts ((peer_id, some commit) ∷ rest) = elim (is_valid digest (some commit)) [
  | false ↦
      let after = accept_loop digest valid ts rest in
      record after { commit_msgs = (peer_id, some commit) ∷ after.commit_msgs }
  | true ↦
      let later = if leb ts commit.ts then commit.ts else ts in
      let after = accept_loop digest (valid ++ commit ∷ []) later rest in
      record after { commit_msgs = (peer_id, none) ∷ after.commit_msgs }
]

-- `CheckCommits`: the batch afterwards, and the result.
unfoldable pub check_commits : ℕ → PbftBatch → PbftBatch × Bool
unfolding accept_loop
check_commits faults batch =
    if not batch.preprepared
    then (batch, false)
    else if not batch.prepared
    then (batch, false)
    else (let a =
          accept_loop batch.digest batch.valid_commit_msgs batch.last_commit_ts batch.commit_msgs in
        (
          record batch {
            commit_msgs = a.commit_msgs;
            valid_commit_msgs = a.valid_commit_msgs;
            last_commit_ts = a.last_commit_ts;
          },
          leb (2 * faults + 1) (length a.valid_commit_msgs),
        ))

-- The registration of a COMMIT by `handleCommit`; nothing for a second one of its sender.
unfoldable pub register_commit : PbftBatch → ℕ → PbftCommit → Option PbftBatch
register_commit batch sender_id commit = elim (lookup sender_id batch.commit_msgs) [
  | some seen ↦ none
  | none ↦ some (record batch { commit_msgs = insert sender_id (some commit) batch.commit_msgs })
]

-- `handleCommit` from its look-up of the batch on: the batch afterwards, and whether it is announced;
-- nothing for a duplicate.
unfoldable pub vote_commit : ℕ → PbftBatch → ℕ → PbftCommit → Option (PbftBatch × Bool)
unfolding register_commit check_commits
vote_commit faults batch sender_id commit = elim (register_commit batch sender_id commit) [
  | none ↦ none
  | some b ↦ some (if b.committed then (b, false) else check_commits faults b)
]

-- The COMMITs of a run, one after another; a duplicate changes nothing.
unfoldable pub vote_all : ℕ → PbftBatch → List (ℕ × PbftCommit) → PbftBatch
vote_all faults batch [] = batch
vote_all faults batch ((sender_id, commit) ∷ rest) =
    elim (vote_commit faults batch sender_id commit) [
      | none ↦ vote_all faults batch rest
      | some r ↦ vote_all faults r.0 rest
    ]

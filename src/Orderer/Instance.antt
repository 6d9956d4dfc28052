-- ===== src/Orderer/Instance.antt =====
-- orderer/pbftinstance.go: the PBFT instance of a segment, and `announce`, which commits its batches
-- in the order of their leader. What the code has other parts do (the messenger, the announcer, the
-- buckets, the timers, the checkpoint of the segment) is appended to `calls`, in the order of the
-- calls. A batch is named by its sequence number, in the map of the current view.
pub mod Announce
mod Tests
pub mod Ready
pub mod Loops
pub mod Finishing
pub mod Waiting
pub mod Handlers
pub mod Progress
pub mod Settled
pub mod Termination
pub mod View
pub mod Deciding
pub mod Carrying
pub mod Starting
use orthrus.Protobufs.{Batch}
use orthrus.Log.{Entry}
use orthrus.Manager.Segments.{Segment}
use orthrus.Orderer.Agreement.{Agreement}
use orthrus.Orderer.Votes.{PbftPrepare, PbftCommit, PbftBatch}
use orthrus.Prelude.{
  ℕ, zero, suc, ◌==◌, ◌||◌, ◌%◌, Bool, true, false, not, if◌then◌else◌, Option, none, some, List,
  [], ◌∷◌, ◌++◌, lookup, insert, contains, sort, get_elem?, length, lt32, add32, ltb,
}

-- The rank that a node has seen, sent to the leader.
pub record HtnMsg : Type 0 where
  pub sn : ℕ
  pub tn : ℕ
  pub view : ℕ
  pub htn : ℕ

pub data Body : Type 0 where
  prepare : PbftPrepare → Body
  commit : PbftCommit → Body
  htn_msg : HtnMsg → Body

pub record ProtocolMessage : Type 0 where
  pub sender_id : ℕ
  pub sn : ℕ
  pub msg : Body

pub data Call : Type 0 where
  enqueue_msg : ProtocolMessage → ℕ → Call
  announcer_announce : Entry → Call
  remove_batch : Batch → Call
  stop_timer : ℕ → Call
  start_timer : ℕ → Call
  enqueue_checkpoint : List (List ℕ) → (receiver_id : ℕ) → Call
  set_checkpoint_timer : Call
  ready_to_propose : Call
  stop_proposing : Call
  resurrect : Batch → Call

-- What does not change while an instance runs. `steps` bounds each loop over sequence numbers, and
-- `hash` gives the digest string of a checkpoint.
pub record Node : Type 0 where
  pub own_id : ℕ
  pub num_nodes : ℕ
  pub faults : ℕ
  pub is_silent : Bool
  pub steps : ℕ
  pub hash : List (List ℕ) → List ℕ

-- `htn` is membership's highest rank.
pub record PbftInstance : Type 0 where
  pub view : ℕ
  pub segment : Segment
  pub batches : List (ℕ × List (ℕ × PbftBatch))
  pub agreement : Agreement
  pub in_view_change : Bool
  pub backlog_msgs : List (ℕ × List ProtocolMessage)
  pub htn_log : List (ℕ × ℕ)
  pub htn_recv : List (ℕ × ℕ)
  pub wait_for_previous_block : List (ℕ × List ℕ)
  pub first_uncommit_sn : List (ℕ × ℕ)
  pub in_ladon_view_change : Bool
  pub htn : ℕ
  pub calls : List Call

-- A nil pointer, or an index out of range, is `panicked`.
pub data Outcome : Type 0 where
  exhausted : Outcome
  panicked : Outcome
  done : PbftInstance → Outcome

-- The entry of a map, and the value that Go gives for a missing key.
unfoldable pub entry_or {ℓ} : {A : Type ℓ} → A → ℕ → List (ℕ × A) → A
entry_or default key m = elim (lookup key m) [ none ↦ default | some a ↦ a ]

unfoldable pub call : Call → PbftInstance → PbftInstance
call c pi = record pi { calls = pi.calls ++ c ∷ [] }

-- `pi.batches[pi.view]`.
unfoldable pub current : PbftInstance → List (ℕ × PbftBatch)
unfolding entry_or
current pi = entry_or [] pi.view pi.batches

unfoldable pub batch_at : PbftInstance → ℕ → Option PbftBatch
batch_at pi sn = lookup sn (current pi)

unfoldable pub set_batch : ℕ → PbftBatch → PbftInstance → PbftInstance
set_batch sn batch pi = record pi {
  batches = insert pi.view (insert sn batch (current pi)) pi.batches;
}

unfoldable pub is_committed : Option PbftBatch → Bool
is_committed none = false
is_committed (some batch) = batch.committed

-- The test of the first loop of `announce`: a proposal or a vote has come for the batch.
unfoldable pub is_valid_block : Option PbftBatch → Bool
is_valid_block none = false
is_valid_block (some batch) =
    (elim batch.preprepare_msg [ none ↦ false | some m ↦ true ])
    || (ltb 0 (length batch.prepare_msgs) || ltb 0 (length batch.commit_msgs))

pub data Search : Type 0 where
  unfinished : Search
  missing : Search
  found : ℕ → Search

-- The first loop of `announce`, from `i` on: an earlier block of the leader that is to be waited for.
unfoldable pub find_previous : ℕ → ℕ → PbftInstance → ℕ → ℕ → Search
find_previous zero num_nodes pi i sn = unfinished
find_previous (suc steps) num_nodes pi i sn = elim (lt32 i sn) [
  | false ↦ missing
  | true ↦ elim (is_valid_block (batch_at pi i)) [
    | true ↦ found i
    | false ↦ find_previous steps num_nodes pi (add32 i num_nodes) sn
  ]
]

unfoldable pub wait_for : ℕ → ℕ → PbftInstance → PbftInstance
unfolding entry_or
wait_for i sn pi =
    let waiting = entry_or [] i pi.wait_for_previous_block in
    record pi {
      wait_for_previous_block =
          insert i (if contains sn waiting then waiting else sn ∷ waiting)
            pi.wait_for_previous_block;
    }

-- `&pbftBatch{committed: true}`.
unfoldable pub empty_committed : PbftBatch
empty_committed = record {
  prepare_msgs = [];
  commit_msgs = [];
  valid_commit_msgs = [];
  last_commit_ts = 0;
  digest = [];
  preprepared = false;
  prepared = false;
  committed = true;
  preprepare_msg = none;
  batch = none;
  view_change_timer = false;
  has_maps = false;
}

unfoldable pub as_committed : Option PbftBatch → PbftBatch
unfolding empty_committed
as_committed none = empty_committed
as_committed (some batch) = record batch { committed = true }

unfoldable pub empty_entry : ℕ → Bool → ℕ → ℕ → Entry
empty_entry sn aborted propose_ts commit_ts = record {
  sn = sn;
  batch = some (record { requests = [] });
  digest = [];
  aborted = aborted;
  suspect = 0;
  propose_ts = propose_ts;
  commit_ts = commit_ts;
}

-- The second loop of `announce`: the empty blocks up to `sn`, none where its steps do not suffice.
unfoldable pub commit_empty : ℕ → ℕ → Bool → ℕ → ℕ → ℕ → ℕ → PbftInstance → Option PbftInstance
unfolding call set_batch as_committed empty_entry
commit_empty zero num_nodes aborted propose_ts commit_ts i sn pi = none
commit_empty (suc steps) num_nodes aborted propose_ts commit_ts i sn pi = elim (lt32 i sn) [
  | false ↦ some pi
  | true ↦ commit_empty steps num_nodes aborted propose_ts commit_ts (add32 i num_nodes) sn (
      set_batch i (as_committed (batch_at pi i))
        (call (announcer_announce (empty_entry i aborted propose_ts commit_ts)) pi))
]

-- The leader that Ladon orders the batch by.
unfoldable pub ladon_leader : PbftBatch → PbftInstance → Option ℕ
ladon_leader batch pi = elim batch.preprepare_msg [
  | none ↦ none
  | some m ↦ if pi.in_ladon_view_change then none else some m.leader
]

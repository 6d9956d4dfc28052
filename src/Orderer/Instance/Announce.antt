-- ===== src/Orderer/Instance/Announce.antt =====
-- orderer/pbftinstance.go: `announce`. The recursion is on fuel, of which the number of uncommitted
-- batches is enough.
use orthrus.Protobufs.{Batch}
use orthrus.Manager.Segments.{Segment}
use orthrus.Orderer.Agreement.{Agreement, handle_pbft_checkpoint}
use orthrus.Orderer.Votes.{PbftBatch}
use orthrus.Prelude.{
  lookup, ◌==◌, ◌+◌, ◌*◌, ℕ, zero, suc, Bool, true, false, if◌then◌else◌, Option, none, some, List,
  [], ◌∷◌, insert, sort, get_elem?, lt32, add32,
}
use orthrus.Orderer.Instance.{
  Call, Node, PbftInstance, Outcome, entry_or, call, batch_at, set_batch, as_committed, Search,
  find_previous, wait_for, commit_empty, ladon_leader,
}

-- `segmentLeader(pi.segment, 0)` for an aborted batch, 0 for another; none out of range.
unfoldable pub suspect_of : Segment → Bool → Option ℕ
suspect_of segment false = some 0
suspect_of segment true = get_elem? segment.leaders 0

-- `setViewChangeTimer`, which leaves a timer that is running.
unfoldable pub set_view_change_timer : ℕ → PbftBatch → PbftInstance → PbftInstance
unfolding call set_batch
set_view_change_timer sn batch pi =
    if batch.view_change_timer
    then pi
    else call (Call.start_timer sn) (set_batch sn (record batch { view_change_timer = true }) pi)

-- Slots of `digests` that stay nil.
unfoldable pub nils : ℕ → List (List ℕ)
nils zero = []
nils (suc n) = [] ∷ nils n

unfoldable pub prepend_digest : List ℕ → Option (List (List ℕ)) → Option (List (List ℕ))
prepend_digest digest none = none
prepend_digest digest (some digests) = some (digest ∷ digests)

-- The digests of the batches in a slice of `len`; none for a nil batch, or an index out of range.
unfoldable pub collect_digests : ℕ → List ℕ → PbftInstance → Option (List (List ℕ))
unfolding nils prepend_digest
collect_digests len [] pi = some (nils len)
collect_digests zero (sn ∷ sns) pi = none
collect_digests (suc len) (sn ∷ sns) pi = elim (batch_at pi sn) [
  | none ↦ none
  | some batch ↦ prepend_digest batch.digest (collect_digests len sns pi)
]

unfoldable pub enqueue_to_followers : ℕ → List (List ℕ) → List ℕ → PbftInstance → PbftInstance
unfolding call
enqueue_to_followers own_id digests [] pi = pi
enqueue_to_followers own_id digests (peer_id ∷ rest) pi =
    enqueue_to_followers own_id digests rest
      (if peer_id == own_id then pi else call (Call.enqueue_checkpoint digests peer_id) pi)

unfoldable pub with_agreement : PbftInstance → Option Agreement → Outcome
with_agreement pi none = Outcome.panicked
with_agreement pi (some a) = Outcome.done (record pi { agreement = a })

-- The own message; that it is a duplicate is fatal.
unfoldable pub own_checkpoint : Node → List (List ℕ) → PbftInstance → Outcome
unfolding with_agreement handle_pbft_checkpoint
own_checkpoint node digests pi = elim (lookup node.own_id pi.agreement.checkpoint_msgs) [
  | some m ↦ Outcome.panicked
  | none ↦ with_agreement pi (
      handle_pbft_checkpoint node.hash (2 * node.faults + 1) pi.segment.sns digests node.own_id
        pi.agreement)
]

unfoldable pub send_checkpoint : Node → PbftInstance → Outcome
unfolding collect_digests enqueue_to_followers own_checkpoint
send_checkpoint node pi = elim (collect_digests pi.segment.len pi.segment.sns pi) [
  | none ↦ Outcome.panicked
  | some digests ↦
      own_checkpoint node digests (enqueue_to_followers node.own_id digests pi.segment.followers pi)
]

-- The timer for the checkpoint of the segment, where there is none yet.
unfoldable pub await_checkpoint : Option (List (ℕ × List ℕ)) → PbftInstance → PbftInstance
unfolding call
await_checkpoint none pi =
    call Call.set_checkpoint_timer
      (record pi { agreement = record pi.agreement { checkpoint_timer = true } })
await_checkpoint (some digests) pi = pi

unfoldable pub then_await : Outcome → Outcome
unfolding await_checkpoint
then_await Outcome.exhausted = Outcome.exhausted
then_await Outcome.panicked = Outcome.panicked
then_await (Outcome.done pi) = Outcome.done (await_checkpoint pi.agreement.final_digests pi)

-- The end of `announce`: the timer of the first uncommitted batch, or the checkpoint.
unfoldable pub finish : Node → List ℕ → PbftInstance → Outcome
unfolding send_checkpoint set_view_change_timer then_await
finish node [] pi = then_await (send_checkpoint node pi)
finish node (sn ∷ sns) pi = elim (batch_at pi sn) [
  | none ↦ Outcome.panicked
  | some batch ↦ elim batch.committed [
    | true ↦ finish node sns pi
    | false ↦ Outcome.done (set_view_change_timer sn batch pi)
  ]
]

unfoldable pub then_finish : Node → Outcome → Outcome
unfolding finish
then_finish node Outcome.exhausted = Outcome.exhausted
then_finish node Outcome.panicked = Outcome.panicked
then_finish node (Outcome.done pi) = finish node pi.segment.sns pi

-- A call of `announce` for the batch of `sn`, with the arguments that each caller gives it.
abbrev pub Announce : Type 0
Announce = PbftInstance → ℕ → Option Batch → Bool → ℕ → ℕ → Outcome

unfoldable pub announce_batch : Announce → PbftInstance → ℕ → Outcome
announce_batch again pi sn = elim (batch_at pi sn) [
  | none ↦ Outcome.panicked
  | some batch ↦ elim batch.preprepare_msg [
    | none ↦ Outcome.panicked
    | some m ↦ again pi sn m.batch m.aborted m.ts batch.last_commit_ts
  ]
]

-- The loop over the blocks that have waited.
unfoldable pub announce_waiting : Announce → List ℕ → Outcome → Outcome
unfolding announce_batch
announce_waiting again [] o = o
announce_waiting again (sn ∷ sns) Outcome.exhausted = Outcome.exhausted
announce_waiting again (sn ∷ sns) Outcome.panicked = Outcome.panicked
announce_waiting again (sn ∷ sns) (Outcome.done pi) =
    announce_waiting again sns (announce_batch again pi sn)

-- `announce` after the batch is announced: the leader's turn moves on, the blocks that have waited are
-- announced, and the timers are set.
unfoldable pub announce_next : Node → Announce → PbftInstance → ℕ → PbftBatch → Outcome
unfolding announce_waiting then_finish entry_or ladon_leader
announce_next node again pi sn batch = elim (ladon_leader batch pi) [
  | none ↦ finish node pi.segment.sns pi
  | some leader ↦ then_finish node (
      announce_waiting again (sort lt32 (entry_or [] sn pi.wait_for_previous_block)) (
        Outcome.done (record pi {
          first_uncommit_sn = insert leader (add32 sn node.num_nodes) pi.first_uncommit_sn;
        })))
]

-- The second half of `announce`, from the marking of the batch on. `RemoveBatch` of a nil batch panics.
unfoldable pub settle :
    Node → Announce → PbftInstance → ℕ → PbftBatch → Option Batch → Bool → ℕ → ℕ → Outcome
unfolding call set_batch as_committed suspect_of announce_next
settle node again pi sn batch req_batch aborted propose_ts commit_ts = elim batch.batch [
  | none ↦ Outcome.panicked
  | some removed ↦ elim (suspect_of pi.segment aborted) [
    | none ↦ Outcome.panicked
    | some suspect ↦
        announce_next node again
          (call
            (Call.announcer_announce (record {
              sn = sn;
              batch = req_batch;
              digest = batch.digest;
              aborted = aborted;
              suspect = suspect;
              propose_ts = propose_ts;
              commit_ts = commit_ts;
            }))
            (call (Call.remove_batch removed) (set_batch sn (as_committed (batch_at pi sn)) pi)))
          sn batch
  ]
]

-- Ladon's part before the marking: an earlier block is waited for, or the empty ones are committed.
unfoldable pub order_before :
    Node → Announce → PbftInstance → ℕ → PbftBatch → Option Batch → Bool → ℕ → ℕ → Outcome
unfolding settle find_previous wait_for commit_empty entry_or ladon_leader
order_before node again pi sn batch req_batch aborted propose_ts commit_ts =
    elim (ladon_leader batch pi) [
      | none ↦ settle node again pi sn batch req_batch aborted propose_ts commit_ts
      | some leader ↦
          let first = entry_or 0 leader pi.first_uncommit_sn in
          elim (find_previous node.steps node.num_nodes pi first sn) [
            | Search.unfinished ↦ Outcome.exhausted
            | Search.found i ↦ Outcome.done (wait_for i sn pi)
            | Search.missing ↦
                elim (commit_empty node.steps node.num_nodes aborted propose_ts commit_ts first sn
                  pi) [
                    | none ↦ Outcome.exhausted
                    | some p ↦ settle node again p sn batch req_batch aborted propose_ts commit_ts
                  ]
          ]
    ]

unfoldable pub stop_running : ℕ → PbftBatch → PbftInstance → PbftInstance
unfolding call
stop_running sn batch pi = if batch.view_change_timer then call (Call.stop_timer sn) pi else pi

unfoldable pub announce_step : Node → Announce → Announce
unfolding order_before stop_running
announce_step node again pi sn req_batch aborted propose_ts commit_ts = elim (batch_at pi sn) [
  | none ↦ Outcome.panicked
  | some batch ↦ elim batch.committed [
    | true ↦ Outcome.done (stop_running sn batch pi)
    | false ↦
        order_before node again (stop_running sn batch pi) sn batch req_batch aborted propose_ts
          commit_ts
  ]
]

unfoldable pub announce : Node → ℕ → Announce
unfolding announce_step
announce node zero pi sn req_batch aborted propose_ts commit_ts = Outcome.exhausted
announce node (suc fuel) pi sn req_batch aborted propose_ts commit_ts =
    announce_step node (announce node fuel) pi sn req_batch aborted propose_ts commit_ts

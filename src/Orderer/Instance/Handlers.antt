-- ===== src/Orderer/Instance/Handlers.antt =====
-- orderer/pbftinstance.go, orderer/pbftbacklog.go: the handlers of PREPARE, COMMIT and HtnMsg, and
-- what they send. A handler gives its error, if it returns one, and the state afterwards. `now` is
-- the clock, and `fuel` bounds the recursion of `announce`.
use orthrus.Orderer.Votes.{
  PbftPrepare, PbftCommit, PbftPreprepare, PbftBatch, is_prepared, check_commits,
}
use orthrus.Prelude.{
  ℕ, ◌+◌, ◌*◌, ◌==◌, ◌&&◌, ◌||◌, true, false, not, if◌then◌else◌, Option, none, some, List, [], ◌∷◌,
  ◌++◌, lookup, insert, lt32,
}
use orthrus.Orderer.Instance.{
  HtnMsg, Body, ProtocolMessage, Call, Node, PbftInstance, Outcome, entry_or, call, batch_at,
  set_batch,
}
use orthrus.Orderer.Instance.Announce.{announce_batch, announce}

-- The errors that the handlers of votes return.
pub data VoteError : Type 0 where
  malformed : VoteError
  old_view : VoteError
  not_handled : VoteError
  duplicate : VoteError

-- `pbftBacklog.addMessage`.
unfoldable pub add_message : ProtocolMessage → ℕ → PbftInstance → PbftInstance
unfolding entry_or
add_message msg view pi = record pi {
  backlog_msgs = insert view (entry_or [] view pi.backlog_msgs ++ msg ∷ []) pi.backlog_msgs;
}

-- The loops that send a message to the other nodes of the segment.
unfoldable pub enqueue_all : ℕ → ProtocolMessage → List ℕ → PbftInstance → PbftInstance
unfolding call
enqueue_all own_id msg [] pi = pi
enqueue_all own_id msg (node_id ∷ rest) pi =
    enqueue_all own_id msg rest
      (if node_id == own_id then pi else call (Call.enqueue_msg msg node_id) pi)

unfoldable pub set_htn : ℕ → PbftInstance → PbftInstance
set_htn tn pi = if lt32 pi.htn tn then record pi { htn = tn } else pi

unfoldable pub handle_htnmsg : Node → HtnMsg → ProtocolMessage → PbftInstance → PbftInstance
unfolding call entry_or set_htn
handle_htnmsg node htnmsg msg pi =
    let received = entry_or 0 msg.sn pi.htn_recv + 1 in
    let logged = record (set_htn htnmsg.htn pi) {
      htn_log = insert msg.sender_id htnmsg.htn pi.htn_log;
      htn_recv = insert msg.sn received pi.htn_recv;
    } in
    if (received == (2 * node.faults + 1)) && not pi.in_ladon_view_change
    then call Call.ready_to_propose logged
    else logged

unfoldable pub send_htn_msg : Node → ℕ → ℕ → ℕ → PbftInstance → PbftInstance
unfolding call handle_htnmsg
send_htn_msg node sn tn leader pi =
    let htnmsg : HtnMsg = record { sn = sn; tn = tn; view = pi.view; htn = pi.htn } in
    let msg : ProtocolMessage = record {
      sender_id = node.own_id;
      sn = sn;
      msg = Body.htn_msg htnmsg;
    } in
    let handled = handle_htnmsg node htnmsg msg pi in
    if leader == node.own_id then handled else call (Call.enqueue_msg msg leader) handled

-- `at` is the key of the batch in the map, `m` its proposal.
unfoldable pub send_commit : Node → ℕ → ℕ → PbftBatch → PbftPreprepare → PbftInstance → PbftInstance
unfolding set_batch enqueue_all set_htn
send_commit node now at batch m pi =
    let ranked = set_htn m.tn pi in
    let commit : PbftCommit = record {
      sn = m.sn;
      view = pi.view;
      digest = batch.digest;
      ts = now;
    } in
    let msg : ProtocolMessage = record {
      sender_id = node.own_id;
      sn = m.sn;
      msg = Body.commit commit;
    } in
    let own =
      set_batch at
        (record batch { commit_msgs = insert node.own_id (some commit) batch.commit_msgs })
        ranked in
    if node.is_silent then own else enqueue_all node.own_id msg own.segment.followers own

-- The step of `handlePrepare` that makes a batch prepared.
unfoldable pub try_prepare : Node → ℕ → ℕ → PbftBatch → PbftInstance → Outcome
unfolding send_htn_msg send_commit set_batch
try_prepare node now sn batch pi = elim (not batch.prepared && is_prepared node.faults batch) [
  | false ↦ Outcome.done pi
  | true ↦ elim batch.preprepare_msg [
    | none ↦ Outcome.panicked
    | some m ↦
        let prepared = record batch { prepared = true } in
        Outcome.done (
          send_commit node now sn prepared m
            (send_htn_msg node m.sn m.tn m.leader (set_batch sn prepared pi)))
  ]
]

-- The last step of both handlers: the batch is announced where its COMMITs suffice.
unfoldable pub commit_batch : Node → ℕ → ℕ → PbftBatch → PbftInstance → Outcome
unfolding set_batch announce_batch
commit_batch node fuel sn batch pi = elim batch.committed [
  | true ↦ Outcome.done pi
  | false ↦
      let checked = check_commits node.faults batch in
      let written = set_batch sn checked.0 pi in
      elim checked.1 [
        | false ↦ Outcome.done written
        | true ↦ announce_batch (announce node fuel) written sn
      ]
]

unfoldable pub try_commit : Node → ℕ → ℕ → Outcome → Outcome
unfolding commit_batch
try_commit node fuel sn Outcome.exhausted = Outcome.exhausted
try_commit node fuel sn Outcome.panicked = Outcome.panicked
try_commit node fuel sn (Outcome.done pi) = elim (batch_at pi sn) [
  | none ↦ Outcome.panicked
  | some batch ↦ commit_batch node fuel sn batch pi
]

-- What both handlers test before they look at the batch: refused, kept for later, or current.
pub data Guard : Type 0 where
  refused : VoteError → Guard
  later : Guard
  current_view : Guard

unfoldable pub guard_vote : PbftInstance → ProtocolMessage → ℕ → ℕ → Guard
guard_vote pi msg sn view =
    if not (msg.sn == sn)
    then Guard.refused VoteError.malformed
    else if lt32 view pi.view
    then Guard.refused VoteError.old_view
    else if lt32 pi.view view || pi.in_view_change
    then Guard.later
    else Guard.current_view

-- A write to a nil map panics.
unfoldable pub register_prepare :
    Node
    → ℕ
    → ℕ
    → PbftBatch
    → PbftPrepare
    → ProtocolMessage
    → PbftInstance
    → Option VoteError × Outcome
unfolding try_prepare try_commit set_batch
register_prepare node fuel now batch prepare msg pi =
    elim (lookup msg.sender_id batch.prepare_msgs) [
      | some seen ↦ (some VoteError.duplicate, Outcome.done pi)
      | none ↦ elim batch.has_maps [
        | false ↦ (none, Outcome.panicked)
        | true ↦
            let voted = record batch {
              prepare_msgs = insert msg.sender_id prepare batch.prepare_msgs;
            } in
            (
              none,
              try_commit node fuel msg.sn
                  (try_prepare node now msg.sn voted (set_batch msg.sn voted pi)),
            )
      ]
    ]

unfoldable pub handle_prepare :
    Node → ℕ → ℕ → PbftInstance → PbftPrepare → ProtocolMessage → Option VoteError × Outcome
unfolding guard_vote add_message register_prepare
handle_prepare node fuel now pi prepare msg = elim (guard_vote pi msg prepare.sn prepare.view) [
  | Guard.refused e ↦ (some e, Outcome.done pi)
  | Guard.later ↦ (none, Outcome.done (add_message msg prepare.view pi))
  | Guard.current_view ↦ elim (batch_at pi msg.sn) [
    | none ↦ (some VoteError.not_handled, Outcome.done pi)
    | some batch ↦ register_prepare node fuel now batch prepare msg pi
  ]
]

unfoldable pub register_commit_msg :
    Node → ℕ → PbftBatch → PbftCommit → ProtocolMessage → PbftInstance → Option VoteError × Outcome
unfolding commit_batch set_batch
register_commit_msg node fuel batch commit msg pi = elim (lookup msg.sender_id batch.commit_msgs) [
  | some seen ↦ (some VoteError.duplicate, Outcome.done pi)
  | none ↦ elim batch.has_maps [
    | false ↦ (none, Outcome.panicked)
    | true ↦
        let voted = record batch {
          commit_msgs = insert msg.sender_id (some commit) batch.commit_msgs;
        } in
        (none, commit_batch node fuel msg.sn voted (set_batch msg.sn voted pi))
  ]
]

unfoldable pub handle_commit :
    Node → ℕ → PbftInstance → PbftCommit → ProtocolMessage → Option VoteError × Outcome
unfolding guard_vote add_message register_commit_msg
handle_commit node fuel pi commit msg = elim (guard_vote pi msg commit.sn commit.view) [
  | Guard.refused e ↦ (some e, Outcome.done pi)
  | Guard.later ↦ (none, Outcome.done (add_message msg commit.view pi))
  | Guard.current_view ↦ elim (batch_at pi msg.sn) [
    | none ↦ (some VoteError.not_handled, Outcome.done pi)
    | some batch ↦ register_commit_msg node fuel batch commit msg pi
  ]
]

-- `handleMessage`, for the three kinds of message modelled here.
unfoldable pub handle_message :
    Node → ℕ → ℕ → PbftInstance → ProtocolMessage → Body → Option VoteError × Outcome
unfolding handle_prepare handle_commit handle_htnmsg
handle_message node fuel now pi msg (Body.prepare m) = handle_prepare node fuel now pi m msg
handle_message node fuel now pi msg (Body.commit m) = handle_commit node fuel pi m msg
handle_message node fuel now pi msg (Body.htn_msg m) =
    (none, Outcome.done (handle_htnmsg node m msg pi))

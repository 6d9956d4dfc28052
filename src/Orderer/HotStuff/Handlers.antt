-- ===== src/Orderer/HotStuff/Handlers.antt =====
-- orderer/hotstuffinstance.go: `handleProposal` and `sendVote`. An error that a handler returns is given
-- beside the state, since the code only logs it.
use orthrus.Request.Digest.{batch_digest}
use orthrus.Request.Requests.{Requests}
use orthrus.Orderer.HotStuff.{
  NodeMsg, qc, no_node, height_of, view_of, parent_of, batch_of, certificate_of, aborted_of,
  qc_height, qc_signature, Body, ProtocolMessage, Call, Externals, HotStuffInstance, call, node_at,
  sn_of, is_known_sn, kept_at, backlog_add,
}
use orthrus.Orderer.HotStuff.Tree.{
  new_node, add_node, new_batch_of, update_high_qc, announce, start_view, send_new_view,
}
use orthrus.Prelude.{
  ℕ, ◌==◌, ◌&&◌, Bool, not, if◌then◌else◌, Option, none, some, List, [], ◌∷◌, insert, length, lt32,
  le32, add32, same_bytes, Result, ok, ◌>>=◌, deref, when◌then◌else◌, in_case,
}

pub data HotStuffError : Type 0 where
  malformed : HotStuffError
  invalid_certificate : HotStuffError
  invalid_batch : HotStuffError
  in_flight : HotStuffError
  invalid_bucket : HotStuffError
  future_height : HotStuffError
  duplicate : HotStuffError
  wrong_digest : HotStuffError
  invalid_signature : HotStuffError
  no_certificate : HotStuffError
  old_view : HotStuffError

module _ {R : Type 0} (requests : Requests R) (ext : Externals) where
  -- What a handler that returns leaves.
  abbrev pub Handled : Type 0
  Handled = Result (Option HotStuffError × HotStuffInstance R)

  unfoldable pub done : HotStuffInstance R → Handled
  done hi = ok (none, hi)

  unfoldable pub fail : HotStuffError → HotStuffInstance R → Handled
  fail e hi = ok (some e, hi)

  -- `extends`: the nodes' digests cover their batches alone.
  unfoldable pub extends : NodeMsg → NodeMsg → Bool
  extends n1 n2 = same_bytes (parent_of n1) (batch_digest ext.hash (batch_of n2))

  -- `sendVote`, to the leader of the node; nothing is sent where the encoding or the signature fails.
  unfoldable pub send_vote : ℕ → HotStuffInstance R → HotStuffInstance R
  unfolding call
  send_vote at hi =
      let node = hi.heap at in
      elim (ext.marshal (record { height = node.height; digest = node.digest })) [
        | none ↦ hi
        | some bytes ↦ elim (ext.sign node.digest) [
          | none ↦ hi
          | some signature ↦
              call
                (Call.enqueue_msg
                  (record {
                    sender_id = ext.own_id;
                    sn = sn_of hi node.height;
                    msg = Body.vote (record { data_bytes = bytes; signature = signature });
                  })
                  node.leader)
                hi
        ]
      ]

  -- `hotStuffBacklog.process`
  unfoldable pub serialize_all : List ProtocolMessage → HotStuffInstance R → HotStuffInstance R
  unfolding call
  serialize_all [] hi = hi
  serialize_all (msg ∷ msgs) hi = serialize_all msgs (call (Call.serialize msg) hi)

  unfoldable pub backlog_process : ℕ → HotStuffInstance R → HotStuffInstance R
  unfolding serialize_all kept_at
  backlog_process height hi = serialize_all (kept_at height hi.backlog_msgs) hi

  -- The announcement of the node `decided`, for which the pointers are followed before the call.
  unfoldable pub announce_decided : ℕ → HotStuffInstance R → Result (HotStuffInstance R)
  unfolding announce
  announce_decided decided hi =
      when (hi.heap decided).announced
      then ok hi
      else (deref (hi.heap decided).batch >>= λ batch. deref (hi.heap decided).node >>= λ node.
          announce requests ext (some decided) (sn_of hi (hi.heap decided).height)
            (requests.message hi.requests batch) (hi.heap decided).digest (aborted_of node) hi)

  -- The node of a proposal, whose height is that of the last vote from now on.
  unfoldable pub create : NodeMsg → ℕ → ℕ → List ℕ → ℕ → HotStuffInstance R → HotStuffInstance R × ℕ
  unfolding new_node
  create node sn sender_id batch parent hi =
      new_node requests ext parent batch (certificate_of node) sn (height_of node) sender_id
        (record hi { vheight = height_of node })

  -- `batch.MarkInFlight()`, and the height and the sequence number in the two maps.
  unfoldable pub index : NodeMsg → ℕ → List ℕ → HotStuffInstance R → HotStuffInstance R
  unfolding is_known_sn
  index node sn batch hi = record hi {
    requests = requests.mark_in_flight hi.requests batch;
    height2sn = insert (height_of node) sn hi.height2sn;
    sn2height = if is_known_sn hi sn then hi.sn2height else insert sn (height_of node) hi.sn2height;
  }

  unfoldable pub lock : ℕ → HotStuffInstance R → HotStuffInstance R
  lock grandparent hi =
      if lt32 (hi.heap hi.locked).height (hi.heap grandparent).height
      then record hi { locked = grandparent }
      else hi

  -- The end of `handleProposal`: the lock, the announcement, the messages kept and the vote.
  unfoldable pub commit : (parent new : ℕ) → HotStuffInstance R → Result (HotStuffInstance R)
  unfolding lock announce_decided backlog_process send_vote
  commit parent new hi = deref (hi.heap parent).parent >>= λ grandparent.
      deref ((lock grandparent hi).heap grandparent).parent >>= λ decided.
      announce_decided decided (lock grandparent hi) >>= λ announced.
      ok (send_vote new (backlog_process (add32 announced.vheight 1) announced))

  -- `handleProposal` after its checks, from the update of `vheight` on.
  unfoldable pub accept_proposal :
      NodeMsg → ℕ → ℕ → List ℕ → HotStuffInstance R → Result (HotStuffInstance R)
  unfolding create index add_node update_high_qc commit
  accept_proposal node sn sender_id batch hi =
      deref (node_at hi (qc_height (certificate_of node))) >>= λ parent.
      let (created, new) = create node sn sender_id batch parent hi in
      add_node requests ext new (index node sn batch created) >>= λ added.
      update_high_qc requests ext
        (qc (qc_height (certificate_of node)) no_node (qc_signature (certificate_of node))) added
      >>= λ raised. commit parent new raised

  -- The checks of the batch of a proposal.
  unfoldable pub check_batch : NodeMsg → ℕ → ℕ → HotStuffInstance R → Handled
  unfolding new_batch_of send_new_view accept_proposal done fail
  check_batch node sn sender_id hi = new_batch_of requests ext (batch_of node) hi >>= λ made.
      in_case made.1 (send_new_view requests ext made.0 >>= λ h. fail invalid_batch h) (λ batch.
        when requests.has_in_flight made.0.requests batch
        then fail in_flight made.0
        else when not (requests.in_buckets made.0.requests made.0.segment.buckets batch)
        then fail invalid_bucket made.0
        else (accept_proposal node sn sender_id batch made.0 >>= λ h. done h))

  -- `if proposal.Node.View > hi.view { hi.startView(proposal.Node.View) }`
  unfoldable pub catch_up : NodeMsg → HotStuffInstance R → Result (HotStuffInstance R)
  unfolding start_view
  catch_up node hi =
      when lt32 hi.view (view_of node) then start_view requests ext (view_of node) hi else ok hi

  -- `handleProposal` from the test of the locked node on.
  unfoldable pub check_locked : NodeMsg → ℕ → ℕ → HotStuffInstance R → Handled
  unfolding check_batch done extends
  check_locked node sn sender_id hi = deref (hi.heap hi.locked).node >>= λ locked.
      when not (extends node locked)
        && le32 (qc_height (certificate_of node)) (hi.heap hi.locked).height
      then done hi
      else check_batch node sn sender_id hi

  -- The certificate is checked from height 2 on.
  unfoldable pub check_certificate : NodeMsg → ℕ → ℕ → HotStuffInstance R → Handled
  unfolding check_locked catch_up send_new_view fail
  check_certificate node sn sender_id hi =
      when lt32 1 (height_of node)
        && not (ext.check_cert (parent_of node) (qc_signature (certificate_of node)))
      then (send_new_view requests ext hi >>= λ h. fail invalid_certificate h)
      else (catch_up node hi >>= λ h. check_locked node sn sender_id h)

  unfoldable pub handle_proposal :
      (leader : ℕ) → NodeMsg → ProtocolMessage → HotStuffInstance R → Handled
  unfolding check_certificate catch_up send_new_view backlog_add done fail
  handle_proposal leader node msg hi = deref (hi.heap hi.leaf).node >>= λ leaf.
      deref (hi.heap hi.locked).node >>= λ locked.
      when not (msg.sender_id == leader)
      then (send_new_view requests ext hi >>= λ h. fail malformed h)
      else (catch_up node hi >>= λ current.
          when le32 (height_of node) current.vheight
          then done current
          else when le32 (length current.nodes) (qc_height (certificate_of node))
          then done (record current {
            backlog_msgs = backlog_add (height_of node) msg current.backlog_msgs;
          })
          else check_certificate node msg.sn msg.sender_id current)

-- ===== src/Orderer/HotStuff/Loop.antt =====
-- orderer/hotstuffinstance.go: `handleNewView`, `handleMissingEntry`, the loop over the messages, and the
-- start of an instance.
use orthrus.Protobufs.{Batch}
use orthrus.Manager.Segments.{Segment}
use orthrus.Request.Digest.{batch_digest}
use orthrus.Request.Requests.{Requests}
use orthrus.Orderer.HotStuff.{
  node_msg, Qc, qc, no_node, qc_height, Body, ProtocolMessage, HotStuffNode, Externals,
  HotStuffInstance, write, node_at, segment_leader,
}
use orthrus.Orderer.HotStuff.Tree.{
  new_batch_of, update_high_qc, announce, start_view, send_new_view,
}
use orthrus.Orderer.HotStuff.Handlers.{HotStuffError, Handled, done, fail, handle_proposal}
use orthrus.Prelude.{
  ℕ, ◌+◌, ◌-◌, ◌*◌, ◌==◌, Bool, true, false, if◌then◌else◌, none, some, List, [], ◌∷◌, lookup,
  insert, length, ltb, lt32, add32, minus_one, Result, ok, ◌>>=◌, deref, when◌then◌else◌, in_case,
}
use orthrus.Orderer.HotStuff.Leading.{highest, votes_for, propose_sn, propose_next, handle_vote}

module _ {R : Type 0} (requests : Requests R) (ext : Externals) where
  -- `handleNewView` with a quorum of votes for the height.
  unfoldable pub enter_view :
      (view : ℕ) → List (ℕ × (ℕ × Qc)) → HotStuffInstance R → Handled requests ext
  unfolding update_high_qc start_view propose_next highest done
  enter_view view votes hi = update_high_qc requests ext (highest hi.high_qc votes) hi >>= λ raised.
      start_view requests ext view raised >>= λ started.
      propose_next requests ext (some (add32 (started.heap started.leaf).height 1))
        (record started { next = length started.nodes - 1 })
      >>= λ proposed. done requests ext proposed

  -- The votes for the height, where there are none yet.
  unfoldable pub with_votes_for : ℕ → HotStuffInstance R → HotStuffInstance R
  unfolding votes_for
  with_votes_for height hi = record hi {
    new_view_votes = insert height (votes_for height hi.new_view_votes) hi.new_view_votes;
  }

  -- `handleNewView`.
  unfoldable pub handle_new_view :
      (view : ℕ) → Qc → (sender_id : ℕ) → HotStuffInstance R → Handled requests ext
  unfolding enter_view with_votes_for votes_for done fail
  handle_new_view view certificate sender_id hi =
      let votes = votes_for (qc_height certificate) hi.new_view_votes in
      let made = with_votes_for (qc_height certificate) hi in
      when lt32 view hi.view
      then fail requests ext HotStuffError.old_view hi
      else in_case (lookup sender_id votes)
          (when ltb (length votes) (2 * ext.faults + 1)
            then done requests ext made
            else enter_view view votes made)
          (λ seen. fail requests ext HotStuffError.duplicate made)

  -- `if node.batch != nil { node.batch.Resurrect() }`
  unfoldable pub resurrected : ℕ → HotStuffInstance R → Result (HotStuffInstance R)
  resurrected at hi = in_case (hi.heap at).batch (ok hi) (λ batch.
      deref (requests.resurrect hi.requests batch) >>= λ back. ok (record hi { requests = back }))

  unfoldable pub mark_missing : ℕ → List ℕ → List ℕ → HotStuffInstance R → HotStuffInstance R
  unfolding write
  mark_missing at batch digest hi =
      record (write at
        (record (hi.heap at) { announced = true; batch = some batch; digest = digest }) hi) {
          requests = requests.mark_in_flight hi.requests batch;
        }

  -- `handleMissingEntry`: the node is marked before `announce` looks at the mark.
  unfoldable pub handle_missing_entry :
      (sn : ℕ) → Batch → List ℕ → Bool → HotStuffInstance R → Result (HotStuffInstance R)
  unfolding announce new_batch_of resurrected mark_missing
  handle_missing_entry sn batch digest aborted hi =
      in_case (lookup sn hi.sn2height) (announce requests ext none sn batch digest aborted hi)
        (λ height. deref (node_at hi height) >>= λ at.
          when (hi.heap at).announced
          then ok hi
          else (resurrected at hi >>= λ back. new_batch_of requests ext batch back >>= λ made.
              deref made.1 >>= λ objects.
              announce requests ext (some at) sn batch digest aborted
                (mark_missing at objects digest made.0)))

  unfoldable pub height_of_sn : ℕ → HotStuffInstance R → ℕ
  height_of_sn sn hi = elim (lookup sn hi.sn2height) [ none ↦ 0 | some height ↦ height ]

  -- A timeout of an earlier view, or for a node that is announced, is ignored.
  unfoldable pub handle_timeout : (sn view : ℕ) → HotStuffInstance R → Result (HotStuffInstance R)
  unfolding send_new_view height_of_sn
  handle_timeout sn view hi =
      when lt32 view hi.view
      then ok hi
      else when sn == minus_one
      then send_new_view requests ext hi
      else (deref (node_at hi (height_of_sn sn hi)) >>= λ at.
          when (hi.heap at).announced then ok hi else send_new_view requests ext hi)

  unfoldable pub handle_body :
      ProtocolMessage → Body → HotStuffInstance R → Result (HotStuffInstance R)
  unfolding handle_proposal handle_vote handle_new_view handle_timeout handle_missing_entry
  handle_body msg (Body.proposal leader node) hi =
      handle_proposal requests ext leader node msg hi >>= λ h. ok h.1
  handle_body msg (Body.vote signed) hi =
      handle_vote requests ext signed msg.sender_id hi >>= λ h. ok h.1
  handle_body msg (Body.new_view view certificate) hi =
      handle_new_view view certificate msg.sender_id hi >>= λ h. ok h.1
  handle_body msg (Body.timeout sn view) hi = handle_timeout sn view hi
  handle_body msg (Body.missing_entry sn batch digest aborted) hi =
      handle_missing_entry sn batch digest aborted hi

  -- The body of the loop of `processSerializedMessages`.
  unfoldable pub handle_message : ProtocolMessage → HotStuffInstance R → Result (HotStuffInstance R)
  unfolding handle_body
  handle_message msg hi = handle_body msg msg.msg hi

  unfoldable pub process_serialized_messages :
      List ProtocolMessage → HotStuffInstance R → Result (HotStuffInstance R)
  unfolding handle_message
  process_serialized_messages [] hi = ok hi
  process_serialized_messages (msg ∷ msgs) hi =
      handle_message msg hi >>= λ h. process_serialized_messages msgs h

  unfoldable pub root_node : HotStuffNode
  root_node = record {
    height = 0;
    sn = 0;
    leader = 0;
    node = some (node_msg 0 0 [] (record { requests = [] }) (qc 0 no_node []) false);
    batch = none;
    parent = some 0;
    votes = none;
    digest = batch_digest ext.hash (record { requests = [] });
    quorum = false;
    announced = true;
    dummy = true;
    view_change_timer = false;
  }

  -- `init`: the root is the node of height 0, and `batches` are those that will be cut.
  unfoldable pub init : Segment → List (List ℕ) → R → Result (HotStuffInstance R)
  unfolding root_node
  init segment batches r = deref (segment_leader segment 0) >>= λ leader. ok (record {
    segment = segment;
    leader = leader;
    view = 0;
    next = 0;
    height2sn = [];
    sn2height = [];
    nodes = 0 ∷ [];
    vheight = 0;
    leaf = 0;
    locked = 0;
    high_qc = qc 0 no_node [];
    backlog_msgs = [];
    new_view_votes = [];
    new_batch = batches;
    closed = false;
    segment_proposed = false;
    heap = λ at. root_node;
    fresh = 1;
    requests = r;
    calls = [];
  })

  -- `start`, in the node that leads the segment in view 0.
  unfoldable pub start : HotStuffInstance R → Result (HotStuffInstance R)
  unfolding propose_sn
  start hi = deref (segment_leader hi.segment hi.view) >>= λ leader.
      when leader == ext.own_id then propose_sn requests ext hi.segment.first_sn hi else ok hi

  -- A node of the segment from its start on, with the messages that it is given.
  unfoldable pub run :
      Segment → List (List ℕ) → R → List ProtocolMessage → Result (HotStuffInstance R)
  unfolding init start process_serialized_messages
  run segment batches r msgs = init segment batches r >>= λ hi.
      start hi >>= λ started. process_serialized_messages msgs started

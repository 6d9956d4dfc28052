-- ===== src/Orderer/HotStuff/Tree.antt =====
-- orderer/hotstuffinstance.go: the nodes of an instance, `newNode`, `addNode`, `updateHighQC`,
-- `announce`, `startView` and `sendNewView`.
use orthrus.Protobufs.{Batch}
use orthrus.Request.Digest.{batch_digest}
use orthrus.Request.Requests.{Requests}
use orthrus.Orderer.HotStuff.{
  NodeMsg, node_msg, Qc, qc, NodeRef, no_node, node_ref, height_of, batch_of, certificate_of,
  qc_height, qc_node, qc_signature, Body, HotStuffNode, Call, Externals, HotStuffInstance, call,
  write, node_at, sn_of, is_known_sn, segment_leader,
}
use orthrus.Prelude.{
  ℕ, zero, suc, ◌+◌, ◌-◌, Bool, true, false, if◌then◌else◌, when◌then◌else◌, not, Option, none,
  some, List, [], ◌∷◌, ◌++◌, length, lt32, le32, minus_one, add32, Result, ok, panicked, ◌>>=◌,
  deref,
}

unfoldable pub as_ref : Option NodeMsg → NodeRef
as_ref none = no_node
as_ref (some node) = node_ref node

module _ {R : Type 0} (requests : Requests R) (ext : Externals) where
  -- `&hotStuffNode{...}` at a fresh address.
  unfoldable pub allocate : HotStuffNode → HotStuffInstance R → HotStuffInstance R × ℕ
  unfolding write
  allocate node hi = (record (write hi.fresh node hi) { fresh = hi.fresh + 1 }, hi.fresh)

  -- `newNode`, with the node's address.
  unfoldable pub new_node :
      ℕ → List ℕ → Qc → ℕ → ℕ → ℕ → HotStuffInstance R → HotStuffInstance R × ℕ
  unfolding allocate
  new_node parent batch certificate sn height leader hi =
      let msg = requests.message hi.requests batch in
      allocate
        (record {
          height = height;
          sn = sn;
          leader = leader;
          node = some (
              node_msg height hi.view (hi.heap parent).digest msg
                (qc (qc_height certificate) no_node (qc_signature certificate)) false);
          batch = some batch;
          parent = some parent;
          votes = some [];
          digest = batch_digest ext.hash msg;
          quorum = false;
          announced = false;
          dummy = is_known_sn hi sn;
          view_change_timer = false;
        })
        hi

  -- The node objects that `addNode` appends for heights without one.
  unfoldable pub placeholder : ℕ → HotStuffNode
  placeholder height = record {
    height = height;
    sn = minus_one;
    leader = 0;
    node = none;
    batch = none;
    parent = none;
    votes = none;
    digest = [];
    quorum = false;
    announced = false;
    dummy = true;
    view_change_timer = false;
  }

  -- The loop of `addNode`, with the number of its rounds.
  unfoldable pub pad : ℕ → HotStuffInstance R → HotStuffInstance R
  unfolding allocate placeholder
  pad zero hi = hi
  pad (suc rounds) hi =
      let (made, at) = allocate (placeholder (length hi.nodes)) hi in
      pad rounds (record made { nodes = hi.nodes ++ at ∷ [] })

  -- `setViewChangeTimer`
  unfoldable pub set_view_change_timer : ℕ → HotStuffInstance R → HotStuffInstance R
  unfolding call write
  set_view_change_timer at hi =
      if (hi.heap at).view_change_timer
      then hi
      else call (Call.start_timer (hi.heap at).sn hi.view)
          (write at (record (hi.heap at) { view_change_timer = true }) hi)

  unfoldable pub set_at : ℕ → ℕ → List ℕ → List ℕ
  set_at i new [] = []
  set_at zero new (a ∷ rest) = new ∷ rest
  set_at (suc i) new (a ∷ rest) = a ∷ set_at i new rest

  unfoldable pub place_node :
      (at height : ℕ) → (dummy : Bool) → HotStuffInstance R → HotStuffInstance R
  unfolding set_view_change_timer
  place_node at height dummy hi =
      let added = record hi { nodes = set_at height at hi.nodes } in
      if dummy then added else set_view_change_timer at added

  -- `addNode`: a node whose height has one already is left out.
  unfoldable pub add_node : ℕ → HotStuffInstance R → Result (HotStuffInstance R)
  unfolding pad place_node
  add_node at hi =
      let height = (hi.heap at).height in
      let padded =
        if le32 (length hi.nodes) height then pad (suc height - length hi.nodes) hi else hi in
      deref (node_at padded height) >>= λ old. ok (elim (padded.heap old).node [
        | some node ↦ padded
        | none ↦ place_node at height (hi.heap at).dummy padded
      ])

  -- The requests of a message, where the code goes on with a nil pointer for a batch that is not valid.
  unfoldable pub new_batch_of :
      Batch → HotStuffInstance R → Result (HotStuffInstance R × Option (List ℕ))
  new_batch_of batch hi = deref (requests.new_batch hi.requests batch) >>= λ made.
      ok (record hi { requests = made.0 }, made.1)

  -- The branch of `updateHighQC` for a certificate whose node is not there.
  unfoldable pub adopt_node : NodeMsg → HotStuffInstance R → Result (HotStuffInstance R)
  unfolding new_batch_of new_node add_node
  adopt_node node hi = new_batch_of (batch_of node) hi >>= λ made.
      deref (node_at made.0 (length made.0.nodes - 1)) >>= λ last. deref made.1 >>= λ batch.
      let (created, leaf) =
        new_node last batch (certificate_of node) minus_one (height_of node) hi.leader made.0 in
      add_node leaf created >>= λ added. ok (record added { leaf = leaf })

  unfoldable pub update_high_qc : Qc → HotStuffInstance R → Result (HotStuffInstance R)
  unfolding adopt_node
  update_high_qc certificate hi =
      when not (lt32 (qc_height hi.high_qc) (qc_height certificate))
      then ok hi
      else when lt32 (length hi.nodes) (qc_height certificate)
      then (deref (qc_node certificate) >>= λ node.
          adopt_node node (record hi { high_qc = certificate }))
      else (deref (node_at hi (qc_height certificate)) >>= λ leaf.
          ok (record hi { high_qc = certificate; leaf = leaf }))

  -- `node.viewChangeTimer.Stop()`, where there is a timer.
  unfoldable pub stop_timer : ℕ → HotStuffInstance R → HotStuffInstance R
  unfolding call
  stop_timer at hi =
      if (hi.heap at).view_change_timer then call (Call.stop_timer (hi.heap at).sn) hi else hi

  -- The mark of a node that is announced, and the removal of its requests.
  unfoldable pub mark_announced : ℕ → List ℕ → HotStuffInstance R → HotStuffInstance R
  unfolding write
  mark_announced at batch hi = record (write at (record (hi.heap at) { announced = true }) hi) {
    requests = requests.remove_batch hi.requests batch;
  }

  -- `announce`: a nil node panics where its height is logged.
  unfoldable pub announce :
      Option ℕ → ℕ → Batch → List ℕ → Bool → HotStuffInstance R → Result (HotStuffInstance R)
  unfolding call stop_timer mark_announced
  announce target sn req_batch digest aborted hi = deref target >>= λ at.
      let stopped = stop_timer at hi in
      when (hi.heap at).announced
      then ok stopped
      else (deref (hi.heap at).batch >>= λ batch. ok (
          call
            (Call.announcer_announce (record {
              sn = sn;
              batch = some req_batch;
              digest = digest;
              aborted = aborted;
              suspect = 0;
              propose_ts = 0;
              commit_ts = 0;
            }))
            (mark_announced at batch stopped)))

  -- `startView`: from view 1 on, no batch is proposed.
  unfoldable pub start_view : ℕ → HotStuffInstance R → Result (HotStuffInstance R)
  start_view view hi =
      when lt32 view hi.view
      then panicked
      else ok (record hi {
        view = view;
        new_view_votes = [];
        closed = if lt32 0 view then true else hi.closed;
      })

  -- `sendNewView`, which writes the node to the certificate that it sends and keeps.
  unfoldable pub move_on : ℕ → ℕ → HotStuffInstance R → HotStuffInstance R
  move_on leader at hi = record hi {
    view = add32 hi.view 1;
    leader = leader;
    high_qc = qc (qc_height hi.high_qc) (as_ref (hi.heap at).node) (qc_signature hi.high_qc);
  }

  unfoldable pub send_new_view : HotStuffInstance R → Result (HotStuffInstance R)
  unfolding call move_on
  send_new_view hi = deref (segment_leader hi.segment (add32 hi.view 1)) >>= λ leader.
      deref (node_at hi (qc_height hi.high_qc)) >>= λ at.
      let moved = move_on leader at hi in
      ok (
        call
          (Call.enqueue_msg
            (record {
              sender_id = ext.own_id;
              sn = sn_of hi (qc_height hi.high_qc);
              msg = Body.new_view moved.view moved.high_qc;
            })
            leader)
          moved)

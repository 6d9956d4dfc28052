-- ===== src/Orderer/HotStuff/Proposals.antt =====
-- What `handleProposal` does besides the vote is quiet.
use orthrus.Request.Requests.{Requests}
use orthrus.Orderer.HotStuff.{
  NodeMsg, certificate_of, height_of, view_of, ProtocolMessage, Call, Externals, HotStuffInstance,
  write, kept_at,
}
use orthrus.Orderer.HotStuff.Tree.{new_node, allocate, start_view}
use orthrus.Orderer.HotStuff.Leading.{votes_for}
use orthrus.Orderer.HotStuff.Handlers.{
  send_vote, serialize_all, backlog_process, announce_decided, create, index, lock, commit,
  catch_up,
}
use orthrus.Orderer.HotStuff.Quiet.{
  Quiet, Quiet-refl, Quiet-trans, Linked, same-Linked, frame-Quiet, call-Quiet,
}
use orthrus.Orderer.HotStuff.Growth.{higher, new_node-Quiet}
use orthrus.Orderer.HotStuff.Certificates.{announce-Quiet, started-Quiet}
use orthrus.Prelude.{
  ℕ, ◌≡◌, ◌<◌, refl, inl, inr, List, [], ◌∷◌, arith, lt32, add32, Bool-cases, ==_iff, Holds,
  ok-Holds, panicked-Holds, bind-Holds, deref-Holds, when-Holds,
}

module _ {R : Type 0} (requests : Requests R) (ext : Externals) where
  serialize_all-Quiet :
      (msgs : List ProtocolMessage) {hi : HotStuffInstance R}
      → Linked hi
      → Quiet ext hi (serialize_all requests ext msgs hi)
  unfolding serialize_all
  serialize_all-Quiet [] l = Quiet-refl l
  serialize_all-Quiet (msg ∷ msgs) l =
      let called = call-Quiet (Call.serialize msg) refl l in
      Quiet-trans called (serialize_all-Quiet msgs called.linked)

  backlog_process-Quiet :
      (height : ℕ) {hi : HotStuffInstance R}
      → Linked hi
      → Quiet ext hi (backlog_process requests ext height hi)
  unfolding backlog_process
  backlog_process-Quiet height {hi} l = serialize_all-Quiet (kept_at height hi.backlog_msgs) l

  lock-Quiet :
      (grandparent : ℕ) {hi : HotStuffInstance R}
      → grandparent < hi.fresh
      → Linked hi
      → Quiet ext hi (lock requests ext grandparent hi)
  unfolding lock
  lock-Quiet grandparent {hi} h l =
      elim (Bool-cases (lt32 (hi.heap hi.locked).height (hi.heap grandparent).height)) [
        | inl t ↦
            rw (t, lock)
              (record {
                grows = omega arith;
                same_height = λ a b. refl;
                stays = λ a b m. m;
                high = omega arith;
                no_views = λ n. n;
                linked = record {
                  nodes_in = l.nodes_in;
                  parents_in = l.parents_in;
                  leaf_in = l.leaf_in;
                  locked_in = h;
                };
                same_vheight = refl;
                same_votes = refl;
                lock = higher (hi.heap hi.locked).height (hi.heap grandparent).height t;
              })
        | inr t ↦ rw (t, lock) (Quiet-refl l)
      ]

  announce_decided-Quiet :
      (decided : ℕ) {hi : HotStuffInstance R}
      → Linked hi
      → Holds (Quiet ext hi) (announce_decided requests ext decided hi)
  unfolding announce_decided
  announce_decided-Quiet decided {hi} l =
      when-Holds (λ t. ok-Holds _ (Quiet-refl l))
        (λ t.
          deref-Holds (λ batch e. deref-Holds (λ node d. announce-Quiet requests ext _ _ _ _ _ l)))

  -- What holds of every state with the vote at the end holds of what `commit` returns.
  pub commit-Holds :
      {P : HotStuffInstance R → Type 0} (parent new : ℕ) {hi : HotStuffInstance R}
      → parent < hi.fresh
      → Linked hi
      → ((x : HotStuffInstance R) → Quiet ext hi x → P (send_vote requests ext new x))
      → Holds P (commit requests ext parent new hi)
  unfolding commit
  commit-Holds parent new {hi} h l k = deref-Holds (λ grandparent e.
      let locked = lock-Quiet grandparent (l.parents_in parent grandparent h e) l in
      deref-Holds (λ decided d. bind-Holds (announce_decided-Quiet decided locked.linked) (λ x q.
        ok-Holds _ (
          k _ (
            Quiet-trans locked
              (Quiet-trans q (backlog_process-Quiet (add32 x.vheight 1) q.linked)))))))

  pub create-Quiet :
      (node : NodeMsg) (sn sender_id : ℕ) (batch : List ℕ) (parent : ℕ) {hi : HotStuffInstance R}
      → parent < hi.fresh
      → Linked hi
      → Quiet ext
          (record hi { vheight = height_of node })
          (create requests ext node sn sender_id batch parent hi).0
  unfolding create
  create-Quiet node sn sender_id batch parent h l =
      new_node-Quiet requests ext parent batch (certificate_of node) sn (height_of node) sender_id h
        (same-Linked refl l)

  pub create-height :
      (node : NodeMsg) (sn sender_id : ℕ) (batch : List ℕ) (parent : ℕ) (hi : HotStuffInstance R)
      → let made = create requests ext node sn sender_id batch parent hi in
        (made.1 < made.0.fresh) × ((made.0.heap made.1).height ≡ height_of node)
  unfolding create new_node allocate write
  create-height node sn sender_id batch parent hi =
      (omega arith, rw ((==_iff hi.fresh hi.fresh).1 refl) refl)

  pub index-Quiet :
      (node : NodeMsg) (sn : ℕ) (batch : List ℕ) {hi : HotStuffInstance R}
      → Linked hi
      → Quiet ext hi (index requests ext node sn batch hi)
  unfolding index
  index-Quiet node sn batch l = frame-Quiet refl (same-Linked refl l)

  -- A change of the view keeps what a proposal is checked against.
  pub record Kept (hi h : HotStuffInstance R) : Type 0 where
    pub quiet : Quiet ext hi h
    pub same_locked : h.locked ≡ hi.locked
    pub same_heap : h.heap ≡ hi.heap
    pub same_requests : h.requests ≡ hi.requests
    pub same_segment : h.segment ≡ hi.segment

  start_view-Kept :
      (view : ℕ) {hi : HotStuffInstance R}
      → Linked hi
      → Holds (Kept hi) (start_view requests ext view hi)
  unfolding start_view votes_for
  start_view-Kept view {hi} l =
      when-Holds (λ t. panicked-Holds)
        (λ t. ok-Holds _ (record {
          quiet = started-Quiet requests ext view l;
          same_locked = refl;
          same_heap = refl;
          same_requests = refl;
          same_segment = refl;
        }))

  pub catch_up-Kept :
      (node : NodeMsg) {hi : HotStuffInstance R}
      → Linked hi
      → Holds (Kept hi) (catch_up requests ext node hi)
  unfolding catch_up start_view
  catch_up-Kept node {hi} l =
      when-Holds (λ t. start_view-Kept (view_of node) l)
        (λ t. ok-Holds hi (record {
          quiet = Quiet-refl l;
          same_locked = refl;
          same_heap = refl;
          same_requests = refl;
          same_segment = refl;
        }))

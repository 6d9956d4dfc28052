-- ===== src/Orderer/HotStuff/Leads.antt =====
-- The handlers of a leader and the loop over the messages are steps.
use orthrus.Request.Requests.{Requests}
use orthrus.Orderer.HotStuff.{
  NodeMsg, Qc, HotStuffVote, SignedMsg, ProtocolMessage, Call, Externals, HotStuffInstance, call,
}
use orthrus.Orderer.HotStuff.Tree.{new_node, allocate}
use orthrus.Orderer.HotStuff.Handlers.{done, fail}
use orthrus.Orderer.HotStuff.Leading.{
  taken, receive, take_batch, enqueue_all, as_leaf, new_leaf, proposal_msg, propose_sn,
  propose_next, after_vote, count_vote, handle_vote,
}
use orthrus.Orderer.HotStuff.Loop.{enter_view}
use orthrus.Orderer.HotStuff.Quiet.{
  Quiet, Quiet-refl, Quiet-trans, Linked, same-Linked, frame-Quiet, call-Quiet, write-Quiet,
}
use orthrus.Orderer.HotStuff.Growth.{new_node-Quiet}
use orthrus.Orderer.HotStuff.Certificates.{update_high_qc-Quiet, start_view-Quiet}
use orthrus.Orderer.HotStuff.Steps.{Step, Step_refl, Step_trans, Quiet-Step}
use orthrus.Orderer.HotStuff.Checks.{handle_proposal-Step}
use orthrus.Prelude.{
  ℕ, if◌then◌else◌, ◌==◌, ◌≡◌, ◌<◌, refl, inl, inr, Bool, true, false, Option, some, List, [], ◌∷◌,
  arith, Bool-cases, Holds, ok-Holds, panicked-Holds, blocked-Holds, bind-Holds, deref-Holds,
  when-Holds, in_case-Holds, weaken-Holds,
}

module _ {R : Type 0} (requests : Requests R) (ext : Externals) where
  scheduled-Quiet :
      (test : Bool) {hi : HotStuffInstance R}
      → Linked hi
      → Quiet ext hi (if test then hi else call Call.schedule_batch hi)
  scheduled-Quiet true l = Quiet-refl l
  scheduled-Quiet false l = call-Quiet Call.schedule_batch refl l

  receive-Quiet :
      (batches : List (List ℕ)) {hi : HotStuffInstance R}
      → Linked hi
      → Holds (λ t. Quiet ext hi t.0) (receive requests ext batches hi)
  unfolding receive taken
  receive-Quiet [] l = when-Holds (λ t. panicked-Holds) (λ t. blocked-Holds)
  receive-Quiet (batch ∷ rest) {hi} l =
      let first : Quiet ext hi (taken requests ext rest hi) =
        frame-Quiet refl (same-Linked refl l) in
      ok-Holds _ (
        Quiet-trans first
          (scheduled-Quiet (taken requests ext rest hi).segment_proposed first.linked))

  take_batch-Quiet :
      {hi : HotStuffInstance R}
      → Linked hi
      → Holds (λ t. Quiet ext hi t.0) (take_batch requests ext hi)
  unfolding take_batch
  take_batch-Quiet {hi} l =
      when-Holds (λ t. receive-Quiet hi.new_batch l)
        (λ t. ok-Holds _ (frame-Quiet refl (same-Linked refl l)))

  enqueue_all-Quiet :
      (msg : ProtocolMessage) (ids : List ℕ) {hi : HotStuffInstance R}
      → Linked hi
      → Quiet ext hi (enqueue_all requests ext msg ids hi)
  unfolding enqueue_all
  enqueue_all-Quiet msg [] l = Quiet-refl l
  enqueue_all-Quiet msg (node_id ∷ ids) {hi} l = elim (Bool-cases (node_id == ext.own_id)) [
    | inl t ↦ rw (t, enqueue_all) (enqueue_all-Quiet msg ids l)
    | inr t ↦
        let called = call-Quiet (Call.enqueue_priority_msg msg node_id) refl l in
        rw (t, enqueue_all) (Quiet-trans called (enqueue_all-Quiet msg ids called.linked))
  ]

  as_leaf-Quiet :
      (msg : NodeMsg) (new : ℕ) {hi : HotStuffInstance R}
      → new < hi.fresh
      → Linked hi
      → Quiet ext hi (as_leaf requests ext msg new hi)
  unfolding as_leaf
  as_leaf-Quiet msg new {hi} h l =
      let written =
        write-Quiet new (record (hi.heap new) { node = some msg }) hi refl refl (λ m. m) l in
      Quiet-trans written (
        frame-Quiet refl (record {
          nodes_in = written.linked.nodes_in;
          parents_in = written.linked.parents_in;
          leaf_in = omega (arith, h, written.grows);
          locked_in = written.linked.locked_in;
        }))

  new_leaf-Quiet :
      (sn : ℕ) (batch : List ℕ) {hi : HotStuffInstance R}
      → Linked hi
      → Quiet ext hi (new_leaf requests ext sn batch hi).0
  unfolding new_leaf new_node allocate
  new_leaf-Quiet sn batch {hi} l =
      let created =
        new_node-Quiet requests ext hi.leaf batch hi.high_qc sn _ ext.own_id l.leaf_in l in
      Quiet-trans created (as_leaf-Quiet _ hi.fresh (omega arith) created.linked)

  module _
      (codec : (v : HotStuffVote) (bytes : List ℕ)
        → ext.marshal v ≡ some bytes
        → ext.unmarshal bytes ≡ some v) where
    pub propose_sn-Step :
        (sn : ℕ) {hi : HotStuffInstance R}
        → Linked hi
        → Holds (Step ext hi) (propose_sn requests ext sn hi)
    unfolding propose_sn
    propose_sn-Step sn {hi} l = bind-Holds (take_batch-Quiet l) (λ t q.
        let led = new_leaf-Quiet sn t.1 q.linked in
        let node = (new_leaf requests ext sn t.1 t.0).1 in
        let msg = proposal_msg requests ext sn node in
        bind-Holds (handle_proposal-Step requests ext codec ext.own_id node msg led.linked) (λ h s.
          ok-Holds _ (
            Step_trans (Quiet-Step (Quiet-trans q led))
              (Step_trans s (Quiet-Step (enqueue_all-Quiet msg h.1.segment.followers s.linked))))))

    propose_next-Step :
        (sn : Option ℕ) {hi : HotStuffInstance R}
        → Linked hi
        → Holds (Step ext hi) (propose_next requests ext sn hi)
    unfolding propose_next
    propose_next-Step sn l =
        when-Holds (λ t. deref-Holds (λ at e. propose_sn-Step at l))
          (λ t.
            when-Holds (λ u. ok-Holds _ (Step_refl l))
              (λ u. deref-Holds (λ last e. propose_sn-Step last l)))

    after_vote-Step :
        (vote : HotStuffVote) {hi : HotStuffInstance R}
        → Linked hi
        → Holds (λ h. Step ext hi h.1) (after_vote requests ext vote hi)
    unfolding after_vote done fail
    after_vote-Step vote {hi} l = deref-Holds (λ votes e.
        in_case-Holds (λ t. ok-Holds _ (Step_refl l))
          (λ certificate t. bind-Holds (update_high_qc-Quiet requests ext _ l) (λ raised q.
            bind-Holds (propose_next-Step _ q.linked)
              (λ h s. ok-Holds _ (Step_trans (Quiet-Step q) s)))))

    count_vote-Step :
        (vote : HotStuffVote) (signed : SignedMsg) (sender_id : ℕ) {hi : HotStuffInstance R}
        → Linked hi
        → Holds (λ h. Step ext hi h.1) (count_vote requests ext vote signed sender_id hi)
    unfolding count_vote done
    count_vote-Step vote signed sender_id {hi} l = deref-Holds (λ votes e.
        let counted = write-Quiet hi.leaf _ hi refl refl (λ m. m) l in
        when-Holds
          (λ t.
            weaken-Holds (λ h s. Step_trans (Quiet-Step counted) s)
              (after_vote-Step vote counted.linked))
          (λ t. ok-Holds _ (Quiet-Step counted)))

    pub handle_vote-Step :
        (signed : SignedMsg) (sender_id : ℕ) {hi : HotStuffInstance R}
        → Linked hi
        → Holds (λ h. Step ext hi h.1) (handle_vote requests ext signed sender_id hi)
    unfolding handle_vote done fail
    handle_vote-Step signed sender_id l =
        in_case-Holds (λ t. ok-Holds _ (Step_refl l))
          (λ vote t.
            when-Holds (λ a. ok-Holds _ (Step_refl l))
              (λ a.
                when-Holds (λ b. ok-Holds _ (Step_refl l))
                  (λ b.
                    when-Holds (λ c. ok-Holds _ (Step_refl l))
                      (λ c.
                        when-Holds (λ d. ok-Holds _ (Step_refl l))
                          (λ d.
                            when-Holds (λ f. ok-Holds _ (Step_refl l))
                              (λ f. count_vote-Step vote signed sender_id l))))))

    pub enter_view-Step :
        (view : ℕ) (votes : List (ℕ × (ℕ × Qc))) {hi : HotStuffInstance R}
        → Linked hi
        → Holds (λ h. Step ext hi h.1) (enter_view requests ext view votes hi)
    unfolding enter_view done
    enter_view-Step view votes {hi} l =
        bind-Holds (update_high_qc-Quiet requests ext _ l) (λ raised q.
          bind-Holds (start_view-Quiet requests ext view q.linked) (λ started p.
            let first =
              Quiet-Step
                (Quiet-trans q (Quiet-trans p (frame-Quiet refl (same-Linked refl p.linked)))) in
            bind-Holds (propose_next-Step _ first.linked) (λ h s. ok-Holds _ (Step_trans first s))))

-- ===== src/Orderer/HotStuff/Checks.antt =====
-- The checks of a proposal, up to the vote for it.
use orthrus.Request.Requests.{Requests}
use orthrus.Orderer.HotStuff.{
  NodeMsg, qc_height, batch_of, certificate_of, height_of, HotStuffVote, ProtocolMessage, Externals,
  HotStuffInstance, node_at,
}
use orthrus.Orderer.HotStuff.Tree.{new_batch_of}
use orthrus.Orderer.HotStuff.Handlers.{
  done, fail, create, accept_proposal, check_batch, check_locked, check_certificate,
  handle_proposal,
}
use orthrus.Orderer.HotStuff.Quiet.{
  Quiet, Quiet-refl, Quiet-trans, Linked, same-Linked, frame-Quiet, place,
}
use orthrus.Orderer.HotStuff.Proposals.{
  commit-Holds, create-Quiet, create-height, index-Quiet, catch_up-Kept,
}
use orthrus.Orderer.HotStuff.Growth.{not-false, add_node-Quiet}
use orthrus.Orderer.HotStuff.Certificates.{update_high_qc-Quiet, send_new_view-Quiet}
use orthrus.Orderer.HotStuff.Steps.{Step}
use orthrus.Prelude.{
  ℕ, ◌≡◌, ◌<◌, ◌∙◌, refl, sym, ap, some, List, arith, ==_iff, Holds, ok-Holds, bind-Holds,
  deref-Holds, when-Holds, in_case-Holds, weaken-Holds,
}
use orthrus.Orderer.HotStuff.Votes.{
  below, Voting, Accepted, Unlocked, Rules, unlocked_rule, certified_rule, Quiet-Voting,
  after-Voting, same-Accepted, same-Unlocked, send_vote-Voting,
}

module _ {R : Type 0} (requests : Requests R) (ext : Externals) where
  module _
      (codec : (v : HotStuffVote) (bytes : List ℕ)
        → ext.marshal v ≡ some bytes
        → ext.unmarshal bytes ≡ some v) where
    made-Kept :
        (node : NodeMsg) {hi : HotStuffInstance R}
        → Linked hi
        → Holds
            (λ made.
              Quiet ext hi made.0
              × (requests.new_batch hi.requests (batch_of node) ≡ some (made.0.requests, made.1))
              × (made.0.segment ≡ hi.segment))
            (new_batch_of requests ext (batch_of node) hi)
    unfolding new_batch_of
    made-Kept node l =
        deref-Holds (λ made e. ok-Holds _ (frame-Quiet refl (same-Linked refl l), e, refl))

    accept_proposal-Voting :
        (node : NodeMsg) (sn sender_id : ℕ) (batch : List ℕ) {hi : HotStuffInstance R}
        → place hi.vheight < place (height_of node)
        → Linked hi
        → Holds
            (Voting ext Unit (height_of node) hi)
            (accept_proposal requests ext node sn sender_id batch hi)
    unfolding accept_proposal node_at
    accept_proposal-Voting node sn sender_id batch {hi} before l = deref-Holds (λ parent e.
        let parent_in = l.nodes_in (qc_height (certificate_of node)) parent e in
        let created = create-Quiet requests ext node sn sender_id batch parent parent_in l in
        let new = create requests ext node sn sender_id batch parent hi in
        let new_in = create-height requests ext node sn sender_id batch parent hi in
        let indexed = index-Quiet requests ext node sn batch created.linked in
        bind-Holds (add_node-Quiet requests ext new.1 new_in.0 indexed.linked) (λ added q.
          bind-Holds (update_high_qc-Quiet requests ext _ q.linked) (λ raised r.
            let after = Quiet-trans indexed (Quiet-trans q r) in
            commit-Holds requests ext parent new.1 (omega (arith, created.grows, after.grows))
              r.linked
              (λ x s.
                let last = Quiet-trans after s in
                send_vote-Voting requests ext codec new.1 (height_of node) before
                  (Quiet-trans created last) (last.same_height new.1 new_in.0 ∙ new_in.1)))))

    check_batch-Voting :
        (node : NodeMsg) (sn sender_id : ℕ) {hi : HotStuffInstance R}
        → place hi.vheight < place (height_of node)
        → Linked hi
        → Holds
            (λ h. Voting ext (Accepted requests node hi) (height_of node) hi h.1)
            (check_batch requests ext node sn sender_id hi)
    unfolding check_batch new_batch_of done fail
    check_batch-Voting node sn sender_id {hi} before l = bind-Holds (made-Kept node l) (λ made q.
        in_case-Holds
          (λ t.
            bind-Holds (send_new_view-Quiet requests ext q.0.linked)
              (λ h r. ok-Holds _ (Quiet-Voting (Quiet-trans q.0 r))))
          (λ batch t.
            when-Holds (λ in_flight. ok-Holds _ (Quiet-Voting q.0))
              (λ free.
                when-Holds (λ out. ok-Holds _ (Quiet-Voting q.0))
                  (λ fits.
                    bind-Holds
                      (accept_proposal-Voting node sn sender_id batch
                        (omega (arith, before, ap place q.0.same_vheight)) q.0.linked)
                      (λ h s. ok-Holds _ (
                        after-Voting
                          (λ u. record {
                            batch = batch;
                            left = made.0.requests;
                            valid = q.1 ∙ ap (λ o. some (made.0.requests, o)) t;
                            unseen = free;
                            inside =
                                ap (λ s. requests.in_buckets made.0.requests s.buckets batch)
                                  (sym q.2)
                                ∙ not-false fits;
                          })
                          q.0 s))))))

    check_locked-Voting :
        (node : NodeMsg) (sn sender_id : ℕ) {hi : HotStuffInstance R}
        → place hi.vheight < place (height_of node)
        → Linked hi
        → Holds
            (λ h.
              Voting ext
                (Accepted requests node hi × Unlocked requests ext node (hi.heap hi.locked))
                (height_of node)
                hi
                h.1)
            (check_locked requests ext node sn sender_id hi)
    unfolding check_locked done
    check_locked-Voting node sn sender_id {hi} before l = deref-Holds (λ locked e.
        when-Holds (λ t. ok-Holds _ (Quiet-Voting (Quiet-refl l)))
          (λ t.
            weaken-Holds
              (λ h s.
                after-Voting
                  (λ accepted.
                    (accepted, record { locked = locked; there = e; rule = unlocked_rule _ _ _ t }))
                  (Quiet-refl l) s)
              (check_batch-Voting node sn sender_id before l)))

    check_certificate-Voting :
        (node : NodeMsg) (sn sender_id : ℕ) {hi : HotStuffInstance R}
        → place hi.vheight < place (height_of node)
        → Linked hi
        → Holds
            (λ h. Voting ext (Rules requests ext node hi) (height_of node) hi h.1)
            (check_certificate requests ext node sn sender_id hi)
    unfolding check_certificate fail
    check_certificate-Voting node sn sender_id before l =
        when-Holds
          (λ t.
            bind-Holds (send_new_view-Quiet requests ext l) (λ h q. ok-Holds _ (Quiet-Voting q)))
          (λ t. bind-Holds (catch_up-Kept requests ext node l) (λ h k.
            weaken-Holds
              (λ a s.
                after-Voting
                  (λ j. record {
                    accepted = same-Accepted node k j.0;
                    unlocked = same-Unlocked node k j.1;
                    certified = certified_rule _ _ t;
                  })
                  k.quiet s)
              (check_locked-Voting node sn sender_id
                (omega (arith, before, ap place k.quiet.same_vheight)) k.quiet.linked)))

    -- A node votes at most once for a proposal, at its height, and only if it comes from its leader, is above
    -- the last vote, and has a batch, a certificate and a place in the tree that pass the checks.
    pub handle_proposal-Voting :
        (leader : ℕ) (node : NodeMsg) (msg : ProtocolMessage) {hi : HotStuffInstance R}
        → Linked hi
        → Holds
            (λ h.
              Voting ext
                ((msg.sender_id ≡ leader)
                  × (place hi.vheight < place (height_of node))
                  × Rules requests ext node hi)
                (height_of node)
                hi
                h.1)
            (handle_proposal requests ext leader node msg hi)
    unfolding handle_proposal done fail
    handle_proposal-Voting leader node msg {hi} l = deref-Holds (λ leaf e. deref-Holds (λ locked d.
        when-Holds
          (λ t.
            bind-Holds (send_new_view-Quiet requests ext l) (λ h q. ok-Holds _ (Quiet-Voting q)))
          (λ t. bind-Holds (catch_up-Kept requests ext node l) (λ current k.
            when-Holds (λ old. ok-Holds _ (Quiet-Voting k.quiet))
              (λ new.
                when-Holds
                  (λ far. ok-Holds _ (
                    Quiet-Voting
                      (Quiet-trans k.quiet (frame-Quiet refl (same-Linked refl k.quiet.linked)))))
                  (λ near.
                    let above = below (height_of node) current.vheight new in
                    weaken-Holds
                      (λ a s.
                        after-Voting
                          (λ r. (
                            (==_iff msg.sender_id leader).0 (not-false t),
                            omega (arith, above, ap place k.quiet.same_vheight),
                            record {
                              accepted = same-Accepted node k r.accepted;
                              unlocked = same-Unlocked node k r.unlocked;
                              certified = r.certified;
                            },
                          ))
                          k.quiet s)
                      (check_certificate-Voting node msg.sn msg.sender_id above
                        k.quiet.linked)))))))

    pub handle_proposal-Step :
        (leader : ℕ) (node : NodeMsg) (msg : ProtocolMessage) {hi : HotStuffInstance R}
        → Linked hi
        → Holds (λ h. Step ext hi h.1) (handle_proposal requests ext leader node msg hi)
    handle_proposal-Step leader node msg l =
        weaken-Holds (λ h v. v.step) (handle_proposal-Voting leader node msg l)

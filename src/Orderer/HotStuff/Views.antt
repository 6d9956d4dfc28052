-- ===== src/Orderer/HotStuff/Views.antt =====
-- The handlers of new views, of timeouts and of missing entries, and the loop over the messages, are steps.
use orthrus.Protobufs.{Batch}
use orthrus.Request.Requests.{Requests}
use orthrus.Orderer.HotStuff.{
  Qc, qc_height, HotStuffVote, Body, ProtocolMessage, Externals, HotStuffInstance,
}
use orthrus.Orderer.HotStuff.Handlers.{done, fail}
use orthrus.Orderer.HotStuff.Leading.{votes_for}
use orthrus.Orderer.HotStuff.Loop.{
  with_votes_for, handle_new_view, resurrected, mark_missing, handle_missing_entry, handle_timeout,
  handle_body, handle_message, process_serialized_messages,
}
use orthrus.Orderer.HotStuff.Quiet.{
  Quiet, Quiet-refl, Quiet-trans, Linked, same-Linked, frame-Quiet, write-Quiet,
}
use orthrus.Orderer.HotStuff.Certificates.{new_batch_of-Quiet, announce-Quiet, send_new_view-Quiet}
use orthrus.Orderer.HotStuff.Steps.{Step, Step_refl, Step_trans, Quiet-Step}
use orthrus.Orderer.HotStuff.Checks.{handle_proposal-Step}
use orthrus.Orderer.HotStuff.Leads.{handle_vote-Step, enter_view-Step}
use orthrus.Prelude.{
  ℕ, ◌==◌, ◌≡◌, refl, inl, inr, Bool, true, none, some, List, [], ◌∷◌, arith, insert, lookup-insert,
  Bool-cases, Holds, ok-Holds, bind-Holds, deref-Holds, when-Holds, in_case-Holds, weaken-Holds,
}

insert-NoNewViews :
    (height : ℕ) (m : List (ℕ × List (ℕ × (ℕ × Qc))))
    → ((k : ℕ) → votes_for k m ≡ [])
    → (k : ℕ) → votes_for k (insert height (votes_for height m) m) ≡ []
unfolding votes_for
insert-NoNewViews height m h k = elim (Bool-cases (height == k)) [
  | inl e ↦ rw (votes_for, lookup-insert height k (votes_for height m) m, e) (h height)
  | inr e ↦ rw (votes_for, lookup-insert height k (votes_for height m) m, e) (h k)
]

module _ {R : Type 0} (requests : Requests R) (ext : Externals) where
  with_votes_for-Quiet :
      (height : ℕ) {hi : HotStuffInstance R}
      → Linked hi
      → Quiet ext hi (with_votes_for requests ext height hi)
  unfolding with_votes_for
  with_votes_for-Quiet height {hi} l = record {
    grows = omega arith;
    same_height = λ a b. refl;
    stays = λ a b t. t;
    high = omega arith;
    no_views = insert-NoNewViews height hi.new_view_votes;
    linked = same-Linked refl l;
    same_vheight = refl;
    same_votes = refl;
    lock = omega arith;
  }

  resurrected-Quiet :
      (at : ℕ) {hi : HotStuffInstance R}
      → Linked hi
      → Holds (Quiet ext hi) (resurrected requests ext at hi)
  unfolding resurrected
  resurrected-Quiet at l =
      in_case-Holds (λ t. ok-Holds _ (Quiet-refl l))
        (λ batch t. deref-Holds (λ back e. ok-Holds _ (frame-Quiet refl (same-Linked refl l))))

  mark_missing-Quiet :
      (at : ℕ) (batch digest : List ℕ) {hi : HotStuffInstance R}
      → Linked hi
      → Quiet ext hi (mark_missing requests ext at batch digest hi)
  unfolding mark_missing
  mark_missing-Quiet at batch digest {hi} l =
      let written =
        write-Quiet at
          (record (hi.heap at) { announced = true; batch = some batch; digest = digest }) hi refl
          refl (λ m. refl) l in
      Quiet-trans written (frame-Quiet refl (same-Linked refl written.linked))

  handle_missing_entry-Quiet :
      (sn : ℕ) (batch : Batch) (digest : List ℕ) (aborted : Bool) {hi : HotStuffInstance R}
      → Linked hi
      → Holds (Quiet ext hi) (handle_missing_entry requests ext sn batch digest aborted hi)
  unfolding handle_missing_entry
  handle_missing_entry-Quiet sn batch digest aborted l =
      in_case-Holds (λ t. announce-Quiet requests ext none sn batch digest aborted l)
        (λ height t. deref-Holds (λ at e.
          when-Holds (λ b. ok-Holds _ (Quiet-refl l))
            (λ b. bind-Holds (resurrected-Quiet at l) (λ back q.
              bind-Holds (new_batch_of-Quiet requests ext batch q.linked) (λ made p.
                deref-Holds (λ objects d.
                  let marked = mark_missing-Quiet at objects digest p.linked in
                  weaken-Holds (λ h r. Quiet-trans q (Quiet-trans p (Quiet-trans marked r)))
                    (announce-Quiet requests ext (some at) sn batch digest aborted
                      marked.linked)))))))

  handle_timeout-Quiet :
      (sn view : ℕ) {hi : HotStuffInstance R}
      → Linked hi
      → Holds (Quiet ext hi) (handle_timeout requests ext sn view hi)
  unfolding handle_timeout
  handle_timeout-Quiet sn view l =
      when-Holds (λ a. ok-Holds _ (Quiet-refl l))
        (λ a.
          when-Holds (λ b. send_new_view-Quiet requests ext l)
            (λ b. deref-Holds (λ at e.
              when-Holds (λ c. ok-Holds _ (Quiet-refl l))
                (λ c. send_new_view-Quiet requests ext l))))

  module _
      (codec : (v : HotStuffVote) (bytes : List ℕ)
        → ext.marshal v ≡ some bytes
        → ext.unmarshal bytes ≡ some v) where
    handle_new_view-Step :
        (view : ℕ) (certificate : Qc) (sender_id : ℕ) {hi : HotStuffInstance R}
        → Linked hi
        → Holds (λ h. Step ext hi h.1) (handle_new_view requests ext view certificate sender_id hi)
    unfolding handle_new_view done fail
    handle_new_view-Step view certificate sender_id {hi} l =
        let made = with_votes_for-Quiet (qc_height certificate) l in
        when-Holds (λ t. ok-Holds _ (Step_refl l))
          (λ t.
            in_case-Holds
              (λ n.
                when-Holds (λ few. ok-Holds _ (Quiet-Step made))
                  (λ many.
                    weaken-Holds (λ h s. Step_trans (Quiet-Step made) s)
                      (enter_view-Step requests ext codec view
                        (votes_for (qc_height certificate) hi.new_view_votes) made.linked)))
              (λ seen n. ok-Holds _ (Quiet-Step made)))

    handle_body-Step :
        (msg : ProtocolMessage) (body : Body) {hi : HotStuffInstance R}
        → Linked hi
        → Holds (Step ext hi) (handle_body requests ext msg body hi)
    unfolding handle_body
    handle_body-Step msg (Body.proposal leader node) l =
        bind-Holds (handle_proposal-Step requests ext codec leader node msg l) (λ h s. ok-Holds _ s)
    handle_body-Step msg (Body.vote signed) l =
        bind-Holds (handle_vote-Step requests ext codec signed msg.sender_id l)
          (λ h s. ok-Holds _ s)
    handle_body-Step msg (Body.new_view view certificate) l =
        bind-Holds (handle_new_view-Step view certificate msg.sender_id l) (λ h s. ok-Holds _ s)
    handle_body-Step msg (Body.timeout sn view) l =
        weaken-Holds (λ h q. Quiet-Step q) (handle_timeout-Quiet sn view l)
    handle_body-Step msg (Body.missing_entry sn batch digest aborted) l =
        weaken-Holds (λ h q. Quiet-Step q) (handle_missing_entry-Quiet sn batch digest aborted l)

    pub handle_message-Step :
        (msg : ProtocolMessage) {hi : HotStuffInstance R}
        → Linked hi
        → Holds (Step ext hi) (handle_message requests ext msg hi)
    unfolding handle_message
    handle_message-Step msg l = handle_body-Step msg msg.msg l

    pub process_serialized_messages-Step :
        (msgs : List ProtocolMessage) {hi : HotStuffInstance R}
        → Linked hi
        → Holds (Step ext hi) (process_serialized_messages requests ext msgs hi)
    unfolding process_serialized_messages
    process_serialized_messages-Step [] l = ok-Holds _ (Step_refl l)
    process_serialized_messages-Step (msg ∷ msgs) l = bind-Holds (handle_message-Step msg l) (λ h s.
        weaken-Holds (λ a r. Step_trans s r) (process_serialized_messages-Step msgs s.linked))

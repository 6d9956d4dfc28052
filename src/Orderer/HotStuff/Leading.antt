-- ===== src/Orderer/HotStuff/Leading.antt =====
-- orderer/hotstuffinstance.go: what a leader does, `proposeSN`, `handleVote` and `handleNewView`, then
-- `handleMissingEntry` and `processSerializedMessages`, and the start of an instance.
use orthrus.Request.Requests.{Requests}
use orthrus.Orderer.HotStuff.{
  NodeMsg, node_msg, Qc, qc, no_node, qc_height, qc_signature, HotStuffVote, SignedMsg, Body,
  ProtocolMessage, Call, Externals, HotStuffInstance, call, write,
}
use orthrus.Orderer.HotStuff.Tree.{new_node, update_high_qc, as_ref}
use orthrus.Orderer.HotStuff.Handlers.{HotStuffError, Handled, done, fail, handle_proposal}
use orthrus.Prelude.{
  ℕ, ◌+◌, ◌*◌, ◌==◌, ◌&&◌, ◌||◌, Bool, true, false, not, if◌then◌else◌, Option, none, some, List,
  [], ◌∷◌, lookup, insert, length, get_elem?, leb, lt32, add32, int32, same_bytes, Result, ok,
  panicked, blocked, ◌>>=◌, deref, when◌then◌else◌, in_case,
}

unfoldable pub signatures_of : List (ℕ × SignedMsg) → List (List ℕ)
signatures_of [] = []
signatures_of ((sender_id, signed) ∷ votes) = signed.signature ∷ signatures_of votes

-- The certificate of greatest height among those of the votes.
unfoldable pub highest : Qc → List (ℕ × (ℕ × Qc)) → Qc
highest best [] = best
highest best ((sender_id, (view, certificate)) ∷ votes) =
    highest (if lt32 (qc_height best) (qc_height certificate) then certificate else best) votes

unfoldable pub votes_for : ℕ → List (ℕ × List (ℕ × (ℕ × Qc))) → List (ℕ × (ℕ × Qc))
votes_for height m = elim (lookup height m) [ none ↦ [] | some votes ↦ votes ]

module _ {R : Type 0} (requests : Requests R) (ext : Externals) where
  unfoldable pub taken : List (List ℕ) → HotStuffInstance R → HotStuffInstance R
  taken rest hi = record hi {
    new_batch = rest;
    next = hi.next + 1;
    segment_proposed = int32 (hi.next + 1) == hi.segment.len;
  }

  -- `<-hi.newBatch`, where a closed channel gives nil, and the next batch is cut.
  unfoldable pub receive : List (List ℕ) → HotStuffInstance R → Result (HotStuffInstance R × List ℕ)
  unfolding call taken
  receive [] hi = when hi.closed then panicked else blocked
  receive (batch ∷ rest) hi = ok (
    if (taken rest hi).segment_proposed
        then taken rest hi
        else call Call.schedule_batch (taken rest hi),
    batch,
  )

  -- The batch of a proposal: one that was cut, in view 0 and while the segment is not proposed, which is
  -- waited for; or the empty one.
  unfoldable pub take_batch : HotStuffInstance R → Result (HotStuffInstance R × List ℕ)
  unfolding receive
  take_batch hi =
      when hi.view == 0 && not hi.segment_proposed
      then receive hi.new_batch hi
      else ok (record hi { next = hi.next + 1 }, [])

  unfoldable pub enqueue_all : ProtocolMessage → List ℕ → HotStuffInstance R → HotStuffInstance R
  unfolding call
  enqueue_all msg [] hi = hi
  enqueue_all msg (node_id ∷ rest) hi =
      enqueue_all msg rest
        (if node_id == ext.own_id then hi else call (Call.enqueue_priority_msg msg node_id) hi)

  -- `new.node.Aborted = true` from view 2 on, then `hi.leaf = new`.
  unfoldable pub as_leaf : NodeMsg → ℕ → HotStuffInstance R → HotStuffInstance R
  unfolding write
  as_leaf msg new hi = record (write new (record (hi.heap new) { node = some msg }) hi) {
    leaf = new;
  }

  -- The node of a proposal, a child of the leaf, which it becomes.
  unfoldable pub new_leaf : ℕ → List ℕ → HotStuffInstance R → HotStuffInstance R × NodeMsg
  unfolding as_leaf new_node
  new_leaf sn batch hi =
      let parent = hi.heap hi.leaf in
      let height = add32 parent.height 1 in
      let (created, new) = new_node requests ext hi.leaf batch hi.high_qc sn height ext.own_id hi in
      let msg =
        node_msg height hi.view parent.digest (requests.message hi.requests batch)
          (qc (qc_height hi.high_qc) no_node (qc_signature hi.high_qc)) (lt32 1 hi.view) in
      (as_leaf msg new created, msg)

  abbrev pub proposal_msg : ℕ → NodeMsg → ProtocolMessage
  proposal_msg sn node = record {
    sender_id = ext.own_id;
    sn = sn;
    msg = Body.proposal ext.own_id node;
  }

  -- `proposeSN`. The result of the own handler is not looked at.
  unfoldable pub propose_sn : ℕ → HotStuffInstance R → Result (HotStuffInstance R)
  unfolding take_batch new_leaf enqueue_all handle_proposal
  propose_sn sn hi = take_batch hi >>= λ taken.
      let (led, node) = new_leaf sn taken.1 taken.0 in
      handle_proposal requests ext ext.own_id node (proposal_msg sn node) led >>= λ handled.
      ok (enqueue_all (proposal_msg sn node) handled.1.segment.followers handled.1)

  -- What a leader proposes after a quorum: the next sequence number, or the last one again, at most
  -- twice; `sn` is the next one, which only `handleNewView` does not take from the segment.
  unfoldable pub propose_next : Option ℕ → HotStuffInstance R → Result (HotStuffInstance R)
  unfolding propose_sn
  propose_next sn hi =
      when lt32 (int32 hi.next) hi.segment.len
      then (deref sn >>= λ at. propose_sn at hi)
      else when lt32 (add32 hi.segment.len 2) (int32 hi.next)
      then ok hi
      else (deref hi.segment.last_sn >>= λ last. propose_sn last hi)

  -- `handleVote` once a vote is counted.
  unfoldable pub after_vote : HotStuffVote → HotStuffInstance R → Handled requests ext
  unfolding propose_next update_high_qc done fail
  after_vote vote hi =
      let leaf = hi.heap hi.leaf in
      deref leaf.votes >>= λ votes.
      in_case (ext.assemble_cert leaf.digest (signatures_of votes))
        (fail requests ext HotStuffError.no_certificate hi)
        (λ certificate.
          update_high_qc requests ext (qc vote.height (as_ref leaf.node) certificate) hi
          >>= λ raised.
              propose_next (get_elem? raised.segment.sns raised.next) raised >>= λ proposed.
              done requests ext proposed)

  unfoldable pub count_vote :
      HotStuffVote → SignedMsg → ℕ → HotStuffInstance R → Handled requests ext
  unfolding write after_vote done
  count_vote vote signed sender_id hi =
      let leaf = hi.heap hi.leaf in
      deref leaf.votes >>= λ votes.
      let counted = insert sender_id signed votes in
      let quorum = leaf.quorum || leb (2 * ext.faults + 1) (length counted) in
      let voted = write hi.leaf (record leaf { votes = some counted; quorum = quorum }) hi in
      when quorum then after_vote vote voted else done requests ext voted

  unfoldable pub has_voted : ℕ → Option (List (ℕ × SignedMsg)) → Bool
  has_voted sender_id none = false
  has_voted sender_id (some votes) = elim (lookup sender_id votes) [ none ↦ false | some v ↦ true ]

  unfoldable pub handle_vote :
      SignedMsg → (sender_id : ℕ) → HotStuffInstance R → Handled requests ext
  unfolding count_vote has_voted done fail
  handle_vote signed sender_id hi =
      let leaf = hi.heap hi.leaf in
      in_case (ext.unmarshal signed.data_bytes) (fail requests ext HotStuffError.malformed hi)
        (λ vote.
          when lt32 vote.height leaf.height
          then done requests ext hi
          else when lt32 leaf.height vote.height
          then fail requests ext HotStuffError.future_height hi
          else when has_voted sender_id leaf.votes
          then fail requests ext HotStuffError.duplicate hi
          else when not (same_bytes leaf.digest vote.digest)
          then fail requests ext HotStuffError.wrong_digest hi
          else when not (ext.check_sig vote.digest sender_id signed.signature)
          then fail requests ext HotStuffError.invalid_signature hi
          else count_vote vote signed sender_id hi)

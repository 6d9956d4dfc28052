-- ===== src/Orderer/Instance/Termination.antt =====
-- `announce` returns, and has committed its batch or left it waiting.
use orthrus.Protobufs.{Batch}
use orthrus.Orderer.Votes.{PbftBatch}
use orthrus.Prelude.{
  ℕ, zero, suc, ◌≡◌, ◌∙◌, ◌≤◌, ◌<◌, ◌⊎◌, refl, subst, inl, inr, Bool, true, false, Option, none,
  some, [], arith, count-sort, sort, insert, lt32, add32, modulus, Option-cases, Bool-cases,
}
use orthrus.Orderer.Instance.{
  Call, Node, PbftInstance, Outcome, Search, call, current, batch_at, is_committed, entry_or,
  ladon_leader, find_previous,
}
use orthrus.Orderer.Instance.Announce.{
  Announce, announce, announce_step, order_before, settle, stop_running,
}
use orthrus.Orderer.Instance.Ready.{
  Ready, IsAfter, IsAfter_refl, IsAfter_trans, Fits, has_proposal, uncommitted, open_one,
  call-Ready, call-IsAfter, marked, marked-Ready, marked-IsAfter, marked-uncommitted,
  marked-committed,
}
use orthrus.Orderer.Instance.Loops.{
  is_finished, find_previous-ends, find_previous-found, commit_empty-runs,
}
use orthrus.Orderer.Instance.Finishing.{Returns, returned, from_earlier, finish-Returns}
use orthrus.Orderer.Instance.Waiting.{
  no_batch, RunsBelow, announce_waiting-Returns, then_finish-Returns,
}
use orthrus.Orderer.Instance.Settled.{
  Settles, wait_for-Settles, settled_from, suspect_found, Settles-earlier,
}
use orthrus.Orderer.Instance.Announce.{announce_next}

Search-cases :
    (s : Search) → (s ≡ Search.unfinished) ⊎ (s ≡ Search.missing) ⊎ ((i : ℕ) × (s ≡ Search.found i))
Search-cases Search.unfinished = inl refl
Search-cases Search.missing = inr (inl refl)
Search-cases (Search.found i) = inr (inr (i, refl))

unfinished_absurd : (s : Search) → s ≡ Search.unfinished → is_finished s ≡ true → 0 < 0
unfinished_absurd s e h = ground (arith, subst (λ x. is_finished x ≡ true) e h)

no_requests : (batch : PbftBatch) → batch.batch ≡ none → has_proposal (some batch) ≡ true → 0 < 0
no_requests batch e h = ground arith

-- The requests of a batch with a proposal.
requests_of :
    (batch : PbftBatch) → has_proposal (some batch) ≡ true → (b : Batch) × (batch.batch ≡ some b)
requests_of batch h = elim (Option-cases batch.batch) [
  | inl e ↦ elim (no_requests batch e h) [ ]
  | inr (b, e) ↦ (b, e)
]

stopped_lem :
    {node : Node} (sn : ℕ) (batch : PbftBatch) (pi : PbftInstance)
    → Ready node pi
    → Ready node (stop_running sn batch pi)
      × IsAfter pi (stop_running sn batch pi)
      × (batch_at (stop_running sn batch pi) sn ≡ batch_at pi sn)
unfolding stop_running call batch_at current
stopped_lem sn batch pi r = elim (Bool-cases batch.view_change_timer) [
  | inl s ↦
      rw (s, stop_running)
        (call-Ready (Call.stop_timer sn) r, call-IsAfter (Call.stop_timer sn) pi, refl)
  | inr s ↦ rw (s, stop_running) (r, IsAfter_refl pi, refl)
]

module _ {node : Node} {fuel : ℕ} {again : Announce} (below : RunsBelow node fuel again) where
  announce_next-Returns :
      (pi : PbftInstance) (sn : ℕ) (batch : PbftBatch)
      → Ready node pi
      → uncommitted (current pi) < fuel
      → Returns node pi (announce_next node again pi sn batch)
  unfolding announce_next batch_at current
  announce_next-Returns pi sn batch r u = elim (Option-cases (ladon_leader batch pi)) [
    | inl e ↦ rw (e, announce_next) (finish-Returns pi.segment.sns pi r r.handled)
    | inr (leader, e) ↦
        let turned = record pi {
          first_uncommit_sn = insert leader (add32 sn node.num_nodes) pi.first_uncommit_sn;
        } in
        let ready : Ready node turned = record {
          waiting = r.waiting;
          handled = r.handled;
          led = r.led;
          measured = r.measured;
          unsent = r.unsent;
        } in
        let after : IsAfter pi turned = record {
          fewer = omega arith;
          kept = λ k h. h;
          stays = λ k h. h;
        } in
        rw (e, announce_next)
          (from_earlier after (
            then_finish-Returns (
              announce_waiting-Returns below (sort lt32 (entry_or [] sn pi.wait_for_previous_block))
                turned ready
                (λ v c.
                  r.waiting sn v (
                    omega
                      (arith, c, count-sort v lt32 (entry_or [] sn pi.wait_for_previous_block))))
                u)))
  ]

  -- The calls that mark and announce the batch.
  called-Settles :
      (pi : PbftInstance) (sn : ℕ) (batch : PbftBatch) (announced removed : Call)
      → Ready node pi
      → open_one (batch_at pi sn) ≡ 1
      → uncommitted (current pi) < suc fuel
      → Settles node pi sn
          (announce_next node again (call announced (call removed (marked pi sn))) sn batch)
  unfolding call batch_at current
  called-Settles pi sn batch announced removed r o u =
      settled_from
        (IsAfter_trans (marked-IsAfter pi sn) (
          IsAfter_trans (call-IsAfter removed (marked pi sn))
            (call-IsAfter announced (call removed (marked pi sn)))))
        (marked-committed pi sn)
        (announce_next-Returns (call announced (call removed (marked pi sn))) sn batch
          (call-Ready announced (call-Ready removed (marked-Ready pi sn r)))
          (omega (arith, marked-uncommitted pi sn)))

  settle-Settles :
      (pi : PbftInstance) (sn : ℕ) (batch : PbftBatch) (req_batch : Option Batch) (aborted : Bool)
      (propose_ts commit_ts : ℕ)
      → Ready node pi
      → has_proposal (some batch) ≡ true
      → open_one (batch_at pi sn) ≡ 1
      → uncommitted (current pi) < suc fuel
      → Settles node pi sn (settle node again pi sn batch req_batch aborted propose_ts commit_ts)
  unfolding settle
  settle-Settles pi sn batch req_batch aborted propose_ts commit_ts r hb o u =
      let (s, e) = suspect_found pi.segment aborted r.led in
      let (removed, b) = requests_of batch hb in
      rw (b, e, settle) (called-Settles pi sn batch _ (Call.remove_batch removed) r o u)

  order_before-Settles :
      (pi : PbftInstance) (sn : ℕ) (batch : PbftBatch) (req_batch : Option Batch) (aborted : Bool)
      (propose_ts commit_ts : ℕ)
      → 0 < node.num_nodes
      → modulus ≤ node.steps
      → Ready node pi
      → Fits node sn
      → has_proposal (batch_at pi sn) ≡ true
      → has_proposal (some batch) ≡ true
      → open_one (batch_at pi sn) ≡ 1
      → uncommitted (current pi) < suc fuel
      → Settles node pi sn
          (order_before node again pi sn batch req_batch aborted propose_ts commit_ts)
  unfolding order_before
  order_before-Settles pi sn batch req_batch aborted propose_ts commit_ts n steps r f t hb o u =
      elim (Option-cases (ladon_leader batch pi)) [
        | inl e ↦
            rw (e, order_before)
              (settle-Settles pi sn batch req_batch aborted propose_ts commit_ts r hb o u)
        | inr (leader, e) ↦
            let first = entry_or 0 leader pi.first_uncommit_sn in
            elim (Search-cases (find_previous node.steps node.num_nodes pi first sn)) [
              | inl s ↦
                  elim (unfinished_absurd (find_previous node.steps node.num_nodes pi first sn) s (
                    find_previous-ends node.num_nodes sn n f node.steps pi first (omega arith)
                      (omega arith))) [ ]
              | inr (inl s) ↦
                  let (p, runs, same, ready, after) =
                    commit_empty-runs node.num_nodes sn n f aborted propose_ts commit_ts node.steps
                      pi first (omega arith) (omega arith) r in
                  rw (e, s, runs, order_before)
                    (Settles-earlier after (
                      settle-Settles p sn batch req_batch aborted propose_ts commit_ts ready hb
                        (rw same o) (omega (arith, after.fewer))))
              | inr (inr (i, s)) ↦
                  rw (e, s, order_before)
                    (let (earlier, valid) =
                        find_previous-found node.num_nodes sn n f node.steps pi first i s in
                      wait_for-Settles i sn pi r f t earlier valid)
            ]
      ]

  -- The batch has a proposal, and its timer has been stopped.
  stopped-Settles :
      (pi : PbftInstance) (sn : ℕ) (batch : PbftBatch) (req_batch : Option Batch) (aborted : Bool)
      (propose_ts commit_ts : ℕ)
      → 0 < node.num_nodes
      → modulus ≤ node.steps
      → Ready node pi
      → Fits node sn
      → has_proposal (batch_at pi sn) ≡ true
      → batch_at pi sn ≡ some batch
      → uncommitted (current pi) < suc fuel
      → Settles node pi sn (elim batch.committed [
        | true ↦ Outcome.done pi
        | false ↦ order_before node again pi sn batch req_batch aborted propose_ts commit_ts
      ])
  unfolding is_committed
  stopped-Settles pi sn batch req_batch aborted propose_ts commit_ts n steps r f t e u =
      elim (Bool-cases batch.committed) [
        | inl c ↦ rw c (settled_from (IsAfter_refl pi) (rw e c) (returned r))
        | inr c ↦ rw c (
            order_before-Settles pi sn batch req_batch aborted propose_ts commit_ts n steps r f t
              (subst (λ o. has_proposal o ≡ true) e t) (rw (e, c) refl) u)
      ]

  announce_step-Settles :
      (pi : PbftInstance) (sn : ℕ) (req_batch : Option Batch) (aborted : Bool)
      (propose_ts commit_ts : ℕ)
      → 0 < node.num_nodes
      → modulus ≤ node.steps
      → Ready node pi
      → Fits node sn
      → has_proposal (batch_at pi sn) ≡ true
      → uncommitted (current pi) < suc fuel
      → Settles node pi sn (announce_step node again pi sn req_batch aborted propose_ts commit_ts)
  unfolding announce_step
  announce_step-Settles pi sn req_batch aborted propose_ts commit_ts n steps r f t u =
      elim (Option-cases (batch_at pi sn)) [
        | inl e ↦ elim (no_batch (batch_at pi sn) e t) [ ]
        | inr (batch, e) ↦
            let (ready, after, same) = stopped_lem sn batch pi r in
            rw (e, announce_step)
              (Settles-earlier after (
                stopped-Settles (stop_running sn batch pi) sn batch req_batch aborted propose_ts
                  commit_ts n steps ready f (after.kept sn t) (same ∙ e)
                  (omega (arith, after.fewer))))
      ]

module _ (node : Node) (positive : 0 < node.num_nodes) (steps : modulus ≤ node.steps) where
  -- The batches of the instance's segment are there, as are the proposals of the blocks that wait and
  -- of the batch that `announce` is called for. No sequence number overflows, there is a node, the
  -- loops have 2 ^ 32 steps and the recursion more fuel than batches are uncommitted. Then `announce`
  -- returns without a panic; its batch is committed or waits for an earlier block; the instance is as
  -- before in the above, no proposal is lost and no batch becomes uncommitted.
  pub announce-Settles :
      (fuel : ℕ) (pi : PbftInstance) (sn : ℕ) (req_batch : Option Batch) (aborted : Bool)
      (propose_ts commit_ts : ℕ)
      → Ready node pi
      → Fits node sn
      → has_proposal (batch_at pi sn) ≡ true
      → uncommitted (current pi) < fuel
      → Settles node pi sn (announce node fuel pi sn req_batch aborted propose_ts commit_ts)
  unfolding announce
  announce-Settles zero pi sn req_batch aborted propose_ts commit_ts r f t u = elim u [ ]
  announce-Settles (suc fuel) pi sn req_batch aborted propose_ts commit_ts r f t u =
      announce_step-Settles
        (λ q k rb ab pt ct ready fits has below.
          (announce-Settles fuel q k rb ab pt ct ready fits has below).returns)
        pi sn req_batch aborted propose_ts commit_ts positive steps r f t u

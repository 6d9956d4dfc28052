-- ===== src/Orderer/Instance/Progress.antt =====
-- The handler of COMMIT returns: no nil pointer is read, and the blocks that waited are announced.
use orthrus.Orderer.Votes.{PbftPreprepare, PbftCommit, PbftBatch, check_commits}
use orthrus.Prelude.{
  ℕ, ◌≡◌, ◌∙◌, ◌≤◌, ◌<◌, ◌⊎◌, ◌&&◌, ◌||◌, refl, sym, ap, subst, inl, inr, Bool, true, false, not,
  Option, none, some, arith, lookup, insert, modulus, Bool-cases, Option-cases,
}
use orthrus.Orderer.Instance.{
  ProtocolMessage, Node, PbftInstance, Outcome, current, batch_at, set_batch, is_committed,
}
use orthrus.Orderer.Instance.Announce.{announce, announce_batch}
use orthrus.Orderer.Instance.Ready.{
  Ready, IsAfter, IsAfter_refl, IsAfter_trans, Fits, has_proposal, proposes, uncommitted,
  set_batch-Ready, set_batch-IsAfter, batch_at-set_batch,
}
use orthrus.Orderer.Instance.Finishing.{Returns, returned}
use orthrus.Orderer.Instance.Termination.{announce-Settles}
use orthrus.Orderer.Instance.Settled.{Done, settled_from}
use orthrus.Orderer.Instance.Handlers.{
  VoteError, Guard, guard_vote, add_message, commit_batch, register_commit_msg, handle_commit,
}

Guard-cases :
    (g : Guard)
    → ((e : VoteError) × (g ≡ Guard.refused e)) ⊎ (g ≡ Guard.later) ⊎ (g ≡ Guard.current_view)
Guard-cases (Guard.refused e) = inl (e, refl)
Guard-cases Guard.later = inr (inl refl)
Guard-cases Guard.current_view = inr (inr refl)

-- A batch whose maps are there, and that has a proposal if it is prepared.
abbrev pub is_sound : Option PbftBatch → Bool
is_sound none = true
is_sound (some batch) = batch.has_maps && (not batch.prepared || has_proposal (some batch))

-- What `CheckCommits` leaves as it is.
check_commits-keeps :
    (faults : ℕ) (batch : PbftBatch)
    → ((check_commits faults batch).0.preprepare_msg ≡ batch.preprepare_msg)
      × ((check_commits faults batch).0.batch ≡ batch.batch)
      × ((check_commits faults batch).0.committed ≡ batch.committed)
      × (((check_commits faults batch).1 ≡ false) ⊎ (batch.prepared ≡ true))
unfolding check_commits
check_commits-keeps faults batch = elim (Bool-cases batch.preprepared) [
  | inr e ↦ rw (e, check_commits) (refl, refl, refl, inl refl)
  | inl p ↦ elim (Bool-cases batch.prepared) [
    | inr e ↦ rw (p, e, check_commits) (refl, refl, refl, inl refl)
    | inl e ↦ rw (p, e, check_commits) (refl, refl, refl, inr refl)
  ]
]

proposed_of :
    (p accepted h : Bool)
    → accepted ≡ true
    → (accepted ≡ false) ⊎ (p ≡ true)
    → (not p || h) ≡ true
    → h ≡ true
proposed_of p accepted h v w s = ground arith

-- One batch replaced by another of the same proposal that is committed if that is.
module _ (pi : PbftInstance) (sn : ℕ) (batch b : PbftBatch) (here : batch_at pi sn ≡ some batch)
    (message : b.preprepare_msg ≡ batch.preprepare_msg) (payload : b.batch ≡ batch.batch)
    (mark : b.committed ≡ batch.committed) where
  same_proposal : has_proposal (some b) ≡ has_proposal (some batch)
  same_proposal = ap (λ m. proposes m b.batch) message ∙ ap (proposes batch.preprepare_msg) payload

  replaced-proposal : has_proposal (batch_at pi sn) ≡ true → has_proposal (some b) ≡ true
  replaced-proposal h = same_proposal ∙ subst (λ o. has_proposal o ≡ true) here h

  replaced-IsAfter : IsAfter pi (set_batch sn b pi)
  unfolding is_committed
  replaced-IsAfter =
      set_batch-IsAfter sn b replaced-proposal
        (λ h. mark ∙ subst (λ o. is_committed o ≡ true) here h) (rw here (ground (arith, mark)))

  replaced-Ready : {node : Node} → Ready node pi → Ready node (set_batch sn b pi)
  replaced-Ready = set_batch-Ready sn b replaced-proposal

  batch_at-replaced : batch_at (set_batch sn b pi) sn ≡ some b
  batch_at-replaced = rw (batch_at-set_batch sn sn b pi) (ground arith)

  -- The batch that `CheckCommits` accepts is prepared, so it has a proposal.
  proposed_lem :
      {accepted : Bool}
      → accepted ≡ true
      → (accepted ≡ false) ⊎ (batch.prepared ≡ true)
      → (not batch.prepared || has_proposal (some batch)) ≡ true
      → has_proposal (batch_at (set_batch sn b pi) sn) ≡ true
  proposed_lem v w sound =
      rw batch_at-replaced (same_proposal ∙ proposed_of batch.prepared _ _ v w sound)

maps_lem : (batch : PbftBatch) → is_sound (some batch) ≡ true → batch.has_maps ≡ true
maps_lem batch h = ground arith

sound_lem :
    (batch : PbftBatch)
    → is_sound (some batch) ≡ true
    → (not batch.prepared || has_proposal (some batch)) ≡ true
sound_lem batch h = ground (arith, maps_lem batch h)

proposal_of :
    (o : Option PbftBatch)
    → has_proposal o ≡ true
    → (b : PbftBatch) × (m : PbftPreprepare) × (o ≡ some b) × (b.preprepare_msg ≡ some m)
proposal_of none h = absurd (ground (arith, h))
proposal_of (some b) h = elim (Option-cases b.preprepare_msg) [
  | inl e ↦ absurd (ground (arith, h, e))
  | inr (m, e) ↦ (b, m, refl, e)
]

pick {ℓ} : {A : Type ℓ} (b : Bool) (x y : A) → b ≡ true → (elim b [ false ↦ x | true ↦ y ]) ≡ y
pick true x y h = refl
pick false x y h = absurd (ground (arith, h))

-- The batch with one more COMMIT.
abbrev pub with_vote : ℕ → PbftCommit → PbftBatch → PbftBatch
with_vote sender_id commit batch = record batch {
  commit_msgs = insert sender_id (some commit) batch.commit_msgs;
}

-- The vote is the first of its sender, and CheckCommits accepts the batch with it.
abbrev pub suffices : ℕ → ℕ → PbftCommit → Option PbftBatch → Bool
suffices faults sender_id commit none = false
suffices faults sender_id commit (some batch) = elim (lookup sender_id batch.commit_msgs) [
  | some seen ↦ false
  | none ↦ (check_commits faults (with_vote sender_id commit batch)).1
]

abbrev pub completes : Node → PbftInstance → PbftCommit → ProtocolMessage → Bool
completes node pi commit msg = elim (guard_vote pi msg commit.sn commit.view) [
  | Guard.refused e ↦ false
  | Guard.later ↦ false
  | Guard.current_view ↦ suffices node.faults msg.sender_id commit (batch_at pi msg.sn)
]

-- A run that returns; and if it should settle the batch, that is so.
pub record Handles (node : Node) (pi : PbftInstance) (sn : ℕ) (should : Bool) (o : Outcome)
    : Type 0 where
  pub returns : Returns node pi o
  pub settled : (should ≡ false) ⊎ Done returns.state sn

Handles-earlier :
    {node : Node} {before pi : PbftInstance} {sn : ℕ} {should : Bool} {o : Outcome}
    → IsAfter before pi
    → Handles node pi sn should o
    → Handles node before sn should o
Handles-earlier a h = record {
  returns = record {
    state = h.returns.state;
    runs = h.returns.runs;
    ready = h.returns.ready;
    after = IsAfter_trans a h.returns.after;
  };
  settled = h.settled;
}

module _ (node : Node) (positive : 0 < node.num_nodes) (steps : modulus ≤ node.steps)
    (fuel : ℕ) where
  announce_batch-Settles :
      {should : Bool} (pi : PbftInstance) (sn : ℕ)
      → Ready node pi
      → Fits node sn
      → has_proposal (batch_at pi sn) ≡ true
      → uncommitted (current pi) < fuel
      → Handles node pi sn should (announce_batch (announce node fuel) pi sn)
  unfolding announce_batch
  announce_batch-Settles pi sn r f h u =
      let (b, m, e, q) = proposal_of (batch_at pi sn) h in
      let s =
        announce-Settles node positive steps fuel pi sn m.batch m.aborted m.ts b.last_commit_ts r f
          h u in
      rw (e, q, announce_batch) (record { returns = s.returns; settled = inr s.settled })

  commit_batch-Settles :
      (should : Bool) (pi : PbftInstance) (sn : ℕ) (batch : PbftBatch)
      → (check_commits node.faults batch).1 ≡ should
      → Ready node pi
      → Fits node sn
      → batch_at pi sn ≡ some batch
      → (not batch.prepared || has_proposal (some batch)) ≡ true
      → uncommitted (current pi) < fuel
      → Handles node pi sn should (commit_batch node fuel sn batch pi)
  unfolding commit_batch announce_batch is_committed
  commit_batch-Settles should pi sn batch accepted r f here sound u =
      elim (Bool-cases batch.committed) [
        | inl c ↦
            let t = settled_from (IsAfter_refl pi) (rw (here, is_committed) c) (returned r) in
            rw (c, commit_batch) (record { returns = t.returns; settled = inr t.settled })
        | inr c ↦
            let checked = (check_commits node.faults batch).0 in
            let (message, payload, mark, voted) = check_commits-keeps node.faults batch in
            let written = set_batch sn checked pi in
            let after = replaced-IsAfter pi sn batch checked here message payload mark in
            let ready = replaced-Ready pi sn batch checked here message payload mark r in
            elim (Bool-cases (check_commits node.faults batch).1) [
              | inr v ↦
                  rw (c, v, commit_batch)
                    (record {
                      returns = record {
                        state = written;
                        runs = refl;
                        ready = ready;
                        after = after;
                      };
                      settled = inl (sym accepted ∙ v);
                    })
              | inl v ↦
                  rw (c, v, commit_batch)
                    (Handles-earlier after (
                      announce_batch-Settles written sn ready f
                        (proposed_lem pi sn batch checked here message payload mark v voted sound)
                        (omega (arith, after.fewer))))
            ]
      ]

  -- The first COMMIT of its sender is counted.
  registered :
      (pi : PbftInstance) (batch : PbftBatch) (commit : PbftCommit) (msg : ProtocolMessage)
      → lookup msg.sender_id batch.commit_msgs ≡ none
      → batch.has_maps ≡ true
      → (register_commit_msg node fuel batch commit msg pi).1
        ≡ commit_batch node fuel msg.sn
            (with_vote msg.sender_id commit batch)
            (set_batch msg.sn (with_vote msg.sender_id commit batch) pi)
  unfolding register_commit_msg
  registered pi batch commit msg d maps =
      rw (d, register_commit_msg)
        (ap (λ (q : Option VoteError × Outcome). q.1) (pick batch.has_maps _ _ maps))

  register_commit_msg-Settles :
      (pi : PbftInstance) (batch : PbftBatch) (commit : PbftCommit) (msg : ProtocolMessage)
      → Ready node pi
      → Fits node msg.sn
      → batch_at pi msg.sn ≡ some batch
      → is_sound (some batch) ≡ true
      → uncommitted (current pi) < fuel
      → Handles node pi msg.sn
          (suffices node.faults msg.sender_id commit (some batch))
          (register_commit_msg node fuel batch commit msg pi).1
  unfolding register_commit_msg
  register_commit_msg-Settles pi batch commit msg r f here sound u =
      elim (Option-cases (lookup msg.sender_id batch.commit_msgs)) [
        | inr (seen, d) ↦
            rw (d, register_commit_msg)
              (record { returns = returned r; settled = inl (rw (d, suffices) refl) })
        | inl d ↦
            let voted = with_vote msg.sender_id commit batch in
            let after = replaced-IsAfter pi msg.sn batch voted here refl refl refl in
            rw (d, registered pi batch commit msg d (maps_lem batch sound), suffices)
              (Handles-earlier after (
                commit_batch-Settles _ (set_batch msg.sn voted pi) msg.sn voted refl
                  (replaced-Ready pi msg.sn batch voted here refl refl refl r) f
                  (batch_at-replaced pi msg.sn batch voted here refl refl refl)
                  (sound_lem batch sound) (omega (arith, after.fewer))))
      ]

  -- A COMMIT comes to an instance whose own batches are there and whose waiting blocks have their
  -- proposals, where the batch it names, if there is one, has its maps, and a proposal if it is
  -- prepared. The segment has a leader and counts its sequence numbers, no checkpoint message of this
  -- node is kept, no sequence number overflows, there is a node, the loops have 2 ^ 32 steps and the
  -- recursion more fuel than batches are uncommitted. Then handleCommit returns without a panic, the
  -- instance is so again, no proposal is lost and no batch becomes uncommitted; and if the COMMIT passes the
  -- guard, is the first of its sender, and CheckCommits accepts the batch with it, then the batch is
  -- committed afterwards, or waits for an earlier block for which a proposal or a vote has come.
  pub handle_commit-Returns :
      (pi : PbftInstance) (commit : PbftCommit) (msg : ProtocolMessage)
      → Ready node pi
      → Fits node msg.sn
      → is_sound (batch_at pi msg.sn) ≡ true
      → uncommitted (current pi) < fuel
      → Handles node pi msg.sn
          (completes node pi commit msg)
          (handle_commit node fuel pi commit msg).1
  unfolding handle_commit add_message batch_at current
  handle_commit-Returns pi commit msg r f sound u =
      elim (Guard-cases (guard_vote pi msg commit.sn commit.view)) [
        | inl (e, g) ↦
            rw (g, handle_commit, completes) (record { returns = returned r; settled = inl refl })
        | inr (inl g) ↦
            rw (g, handle_commit, completes)
              (record {
                returns = record {
                  state = add_message msg commit.view pi;
                  runs = refl;
                  ready = record {
                    waiting = r.waiting;
                    handled = r.handled;
                    led = r.led;
                    measured = r.measured;
                    unsent = r.unsent;
                  };
                  after = record { fewer = omega arith; kept = λ k h. h; stays = λ k h. h };
                };
                settled = inl refl;
              })
        | inr (inr g) ↦ elim (Option-cases (batch_at pi msg.sn)) [
          | inl b ↦
              rw (g, b, handle_commit, completes)
                (record { returns = returned r; settled = inl refl })
          | inr (batch, b) ↦
              rw (g, b, handle_commit, completes)
                (register_commit_msg-Settles pi batch commit msg r f b
                  (subst (λ o. is_sound o ≡ true) b sound) u)
        ]
      ]

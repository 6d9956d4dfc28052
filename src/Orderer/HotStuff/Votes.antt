-- ===== src/Orderer/HotStuff/Votes.antt =====
-- The handler of proposals: it votes at most once, above the last vote, for a proposal that passes its
-- checks.
use orthrus.Request.Requests.{Requests}
use orthrus.Orderer.HotStuff.{
  NodeMsg, qc_height, qc_signature, batch_of, certificate_of, height_of, parent_of, HotStuffVote,
  HotStuffNode, Call, Externals, HotStuffInstance, call,
}
use orthrus.Orderer.HotStuff.Handlers.{send_vote, extends}
use orthrus.Orderer.HotStuff.Quiet.{
  Quiet, same-Linked, place, height_in, votes_sent, votes_sent-snoc, call_votes,
}
use orthrus.Orderer.HotStuff.Proposals.{Kept}
use orthrus.Orderer.HotStuff.Steps.{VotesRise, Step, Step_trans, Quiet-Step, same-VotesRise, risen}
use orthrus.Prelude.{
  ℕ, ◌≡◌, ◌≤◌, ◌<◌, ◌⊎◌, ◌∙◌, refl, sym, ap, subst, inl, inr, Bool, not, ◌&&◌, true, false, some,
  List, [], ◌∷◌, ◌++◌, arith, get_elem?, get_elem?-snoc, le32, lt32, Option-cases,
}

pub below : (a b : ℕ) → le32 a b ≡ false → place b < place a
unfolding le32
below a b h = ground arith

-- A step whose votes are those before or, if `J` holds, those and one for `height`.
pub record Voting {R : Type 0} (ext : Externals) (J : Type 0) (height : ℕ)
    (hi h : HotStuffInstance R) : Type 0 where
  pub step : Step ext hi h
  pub vote :
      (votes_sent ext h.calls ≡ votes_sent ext hi.calls)
      ⊎ (J × (votes_sent ext h.calls ≡ votes_sent ext hi.calls ++ height ∷ []))

-- What a batch has passed: it is valid, not in flight, and of the buckets of the segment.
pub record Accepted {R : Type 0} (requests : Requests R) (node : NodeMsg) (hi : HotStuffInstance R)
    : Type 0 where
  pub batch : List ℕ
  pub left : R
  pub valid : requests.new_batch hi.requests (batch_of node) ≡ some (left, some batch)
  pub unseen : requests.has_in_flight left batch ≡ false
  pub inside : requests.in_buckets left hi.segment.buckets batch ≡ true

-- The rule of the lock: a proposal extends the locked node, or its certificate is of a greater height.
pub record Unlocked {R : Type 0} (requests : Requests R) (ext : Externals) (node : NodeMsg)
    (at : HotStuffNode) : Type 0 where
  pub locked : NodeMsg
  pub there : at.node ≡ some locked
  pub rule :
      (extends requests ext node locked ≡ true)
      ⊎ (place at.height < place (qc_height (certificate_of node)))

pub record Rules {R : Type 0} (requests : Requests R) (ext : Externals) (node : NodeMsg)
    (hi : HotStuffInstance R) : Type 0 where
  pub accepted : Accepted requests node hi
  pub unlocked : Unlocked requests ext node (hi.heap hi.locked)
  -- The certificate is not checked at heights 0 and 1.
  pub certified :
      (place (height_of node) ≤ place 1)
      ⊎ (ext.check_cert (parent_of node) (qc_signature (certificate_of node)) ≡ true)

pub unlocked_rule :
    (extended : Bool) (a b : ℕ)
    → not extended && le32 a b ≡ false
    → (extended ≡ true) ⊎ (place b < place a)
unlocked_rule true a b h = inl refl
unlocked_rule false a b h = inr (below a b h)

pub certified_rule :
    (height : ℕ) (checked : Bool)
    → lt32 1 height && not checked ≡ false
    → (place height ≤ place 1) ⊎ (checked ≡ true)
unfolding lt32
certified_rule height true h = inr refl
certified_rule height false h = inl (ground arith)

pub Quiet-Voting :
    {R : Type 0} {ext : Externals} {J : Type 0} {height : ℕ} {hi h : HotStuffInstance R}
    → Quiet ext hi h
    → Voting ext J height hi h
Quiet-Voting q = record { step = Quiet-Step q; vote = inl q.same_votes }

-- A vote after a quiet part, with other facts.
pub after-Voting :
    {R : Type 0} {ext : Externals} {J K : Type 0} {height : ℕ} {hi m h : HotStuffInstance R}
    → (J → K)
    → Quiet ext hi m
    → Voting ext J height m h
    → Voting ext K height hi h
after-Voting {height = height} f q v = record {
  step = Step_trans (Quiet-Step q) v.step;
  vote = elim v.vote [
    | inl same ↦ inl (same ∙ q.same_votes)
    | inr more ↦ inr (f more.0, more.1 ∙ ap (λ xs. xs ++ height ∷ []) q.same_votes)
  ];
}

module _ {R : Type 0} {requests : Requests R} {ext : Externals} {hi h : HotStuffInstance R} where
  pub same-Accepted :
      (node : NodeMsg)
      → Kept requests ext hi h
      → Accepted requests node h
      → Accepted requests node hi
  same-Accepted node k a = record {
    batch = a.batch;
    left = a.left;
    valid = ap (λ r. requests.new_batch r (batch_of node)) (sym k.same_requests) ∙ a.valid;
    unseen = a.unseen;
    inside = ap (λ s. requests.in_buckets a.left s.buckets a.batch) (sym k.same_segment) ∙ a.inside;
  }

  pub same-Unlocked :
      (node : NodeMsg)
      → Kept requests ext hi h
      → Unlocked requests ext node (h.heap h.locked)
      → Unlocked requests ext node (hi.heap hi.locked)
  same-Unlocked node k u =
      subst (Unlocked requests ext node)
        (ap (λ f. f h.locked) k.same_heap ∙ ap hi.heap k.same_locked) u

module _ {R : Type 0} (requests : Requests R) (ext : Externals) where
  -- The height of the last vote is raised, nothing else changes that is read here, and a vote is sent for
  -- a node of that height.
  module _
      (codec : (v : HotStuffVote) (bytes : List ℕ)
        → ext.marshal v ≡ some bytes
        → ext.unmarshal bytes ≡ some v) where
    raised-Step :
        (height : ℕ) {hi x : HotStuffInstance R}
        → place hi.vheight < place height
        → Quiet ext (record hi { vheight = height }) x
        → Step ext hi x
    raised-Step height before q = record {
      grows = q.grows;
      stays = q.stays;
      high = q.high;
      lock = q.lock;
      vheight = omega (arith, before, ap place q.same_vheight);
      no_views = q.no_views;
      linked = q.linked;
      votes = same-VotesRise q.same_votes (omega (arith, before, ap place q.same_vheight));
    }

    more-VotesRise :
        (height : ℕ) {hi h : HotStuffInstance R}
        → place hi.vheight < place height
        → votes_sent ext h.calls ≡ votes_sent ext hi.calls ++ height ∷ []
        → h.vheight ≡ height
        → VotesRise ext hi
        → VotesRise ext h
    more-VotesRise height {hi} before e top v = record {
      rise = λ i j a b p q.
          risen (votes_sent ext hi.calls) height (λ k c r. omega (arith, before, v.voted k c r))
            v.rise i j a b (ap (λ xs. get_elem? xs i) (sym e) ∙ p)
            (ap (λ xs. get_elem? xs j) (sym e) ∙ q);
      voted = λ i a p.
          elim (get_elem?-snoc (votes_sent ext hi.calls) height i a
            (ap (λ xs. get_elem? xs i) (sym e) ∙ p)) [
              | inl old ↦ omega (arith, before, v.voted i a old, ap place top)
              | inr new ↦ omega (arith, ap place new.0, ap place top)
            ];
    }

    call_vote-Voting :
        (c : Call) (height : ℕ) {hi x : HotStuffInstance R}
        → place hi.vheight < place height
        → Quiet ext (record hi { vheight = height }) x
        → call_votes ext c ≡ height ∷ []
        → Voting ext Unit height hi (call c x)
    unfolding call
    call_vote-Voting c height {hi} {x} before q e =
        let s = raised-Step height before q in
        let more =
          votes_sent-snoc ext c x.calls
          ∙ ap (λ xs. votes_sent ext x.calls ++ xs) e
          ∙ ap (λ xs. xs ++ height ∷ []) q.same_votes in
        record {
          vote = inr (tt, more);
          step = record {
            grows = s.grows;
            stays = s.stays;
            high = s.high;
            lock = s.lock;
            vheight = s.vheight;
            no_views = s.no_views;
            linked = same-Linked refl s.linked;
            votes = more-VotesRise height before more q.same_vheight;
          };
        }

    -- The vote for a proposal, after what is quiet.
    pub send_vote-Voting :
        (at height : ℕ) {hi x : HotStuffInstance R}
        → place hi.vheight < place height
        → Quiet ext (record hi { vheight = height }) x
        → (x.heap at).height ≡ height
        → Voting ext Unit height hi (send_vote requests ext at x)
    unfolding send_vote
    send_vote-Voting at height {hi} {x} before q e =
        let still : Voting ext Unit height hi x = record {
          step = raised-Step height before q;
          vote = inl q.same_votes;
        } in
        elim (Option-cases
          (ext.marshal (record { height = (x.heap at).height; digest = (x.heap at).digest }))) [
            | inl t ↦ rw (t, send_vote) still
            | inr t ↦ elim (Option-cases (ext.sign (x.heap at).digest)) [
              | inl n ↦ rw (t.1, n, send_vote) still
              | inr n ↦
                  rw (t.1, n.1, send_vote)
                    (call_vote-Voting _ height before q
                      (ap height_in (codec _ t.0 t.1) ∙ ap (λ k. k ∷ []) e))
            ]
          ]

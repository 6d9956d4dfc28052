-- ===== src/Orderer/HotStuff/Safety.antt =====
-- What holds in every run of a HotStuff instance, whatever messages it is given.
use orthrus.Manager.Segments.{Segment}
use orthrus.Request.Requests.{Requests}
use orthrus.Orderer.HotStuff.{
  NodeMsg, height_of, Qc, qc_height, HotStuffVote, ProtocolMessage, Externals, HotStuffInstance,
}
use orthrus.Orderer.HotStuff.Handlers.{HotStuffError, done, fail, handle_proposal}
use orthrus.Orderer.HotStuff.Votes.{Rules}
use orthrus.Orderer.HotStuff.Checks.{handle_proposal-Voting}
use orthrus.Orderer.HotStuff.Leading.{votes_for}
use orthrus.Orderer.HotStuff.Loop.{
  with_votes_for, handle_new_view, process_serialized_messages, root_node, init, start, run,
  handle_message,
}
use orthrus.Orderer.HotStuff.Quiet.{Linked, NoNewViews, place, votes_sent}
use orthrus.Orderer.HotStuff.Steps.{VotesRise, Step, Step_refl, Step_trans}
use orthrus.Orderer.HotStuff.Leads.{propose_sn-Step}
use orthrus.Orderer.HotStuff.Views.{process_serialized_messages-Step}
use orthrus.Prelude.{
  Option, ℕ, zero, suc, ◌+◌, ◌*◌, ◌≡◌, ◌≤◌, ◌<◌, ◌⊎◌, ◌++◌, refl, ap, true, some, List, [], ◌∷◌,
  arith, get_elem?, the_same, nothing_there, lookup, length, ltb, lt32, Result, ok, ◌>>=◌, ◌∙◌,
  bind_assoc, sym, Holds, ok-Holds, bind-Holds, deref-Holds, when-Holds, weaken-Holds, holds_of,
  when◌then◌else◌, in_case,
}

-- What every state that is reached satisfies.
pub record Sound {R : Type 0} (ext : Externals) (hi : HotStuffInstance R) : Type 0 where
  pub linked : Linked hi
  pub votes : VotesRise ext hi
  pub no_views : NoNewViews hi

-- The height of the last vote, the lock and the highest certificate do not go back, in the order of
-- `int32`, and what is announced stays so.
pub record Forward {R : Type 0} (hi h : HotStuffInstance R) : Type 0 where
  pub vheight : place hi.vheight ≤ place h.vheight
  pub lock : place (hi.heap hi.locked).height ≤ place (h.heap h.locked).height
  pub high : place (qc_height hi.high_qc) ≤ place (qc_height h.high_qc)
  pub stays : (a : ℕ) → a < hi.fresh → (hi.heap a).announced ≡ true → (h.heap a).announced ≡ true

first_in : (k a : ℕ) → get_elem? (0 ∷ []) k ≡ some a → a < 1
first_in zero a e = omega (arith, the_same e)
first_in (suc k) a e = elim (nothing_there e) [ ]

some_needed : (n : ℕ) → ltb 0 (2 * n + 1) ≡ true
some_needed n = ground arith

-- Without votes there is no quorum.
no_quorum :
    {A : Type 0} (n sender_id : ℕ) (votes : List (ℕ × (ℕ × Qc))) (few many : Result A)
    (seen : (ℕ × Qc) → Result A)
    → votes ≡ []
    → in_case (lookup sender_id votes) (when ltb (length votes) (2 * n + 1) then few else many) seen
      ≡ few
unfolding in_case when◌then◌else◌
no_quorum n sender_id votes few many seen e = rw e (rw (some_needed n) refl)

module _ {R : Type 0} (requests : Requests R) (ext : Externals) where
  process_serialized_messages-append :
      (first later : List ProtocolMessage) (hi : HotStuffInstance R)
      → process_serialized_messages requests ext (first ++ later) hi
        ≡ process_serialized_messages requests ext first hi
          >>= process_serialized_messages requests ext later
  unfolding process_serialized_messages ◌>>=◌
  process_serialized_messages-append [] later hi = refl
  process_serialized_messages-append (msg ∷ first) later hi =
      ap (λ f. handle_message requests ext msg hi >>= f)
        (λ i h. process_serialized_messages-append first later h i)
      ∙ sym (bind_assoc (handle_message requests ext msg hi) _ _)

  -- A run over more messages goes on from the run over those before.
  pub run-append :
      (segment : Segment) (batches : List (List ℕ)) (r : R) (first later : List ProtocolMessage)
      (hi h : HotStuffInstance R)
      → run requests ext segment batches r first ≡ ok hi
      → process_serialized_messages requests ext later hi ≡ ok h
      → run requests ext segment batches r (first ++ later) ≡ ok h
  unfolding run ◌>>=◌
  run-append segment batches r first later hi h e d =
      let process = process_serialized_messages requests ext in
      let begin = init requests ext segment batches r in
      let start_of = start requests ext in
      ap (λ p. begin >>= (λ a. start_of a >>= p))
        (λ i a. process_serialized_messages-append first later a i)
      ∙ (λ i. begin >>= (λ a. sym (bind_assoc (start_of a) (process first) (process later)) i))
      ∙ sym (bind_assoc begin (λ a. start_of a >>= process first) (process later))
      ∙ ap (λ m. m >>= process later) e
      ∙ d

  init-Sound :
      (segment : Segment) (batches : List (List ℕ)) (r : R)
      → Holds (Sound ext) (init requests ext segment batches r)
  unfolding init root_node votes_for
  init-Sound segment batches r = deref-Holds (λ leader e. ok-Holds _ (record {
    linked = record {
      nodes_in = first_in;
      parents_in = λ a p b d. omega (arith, the_same d);
      leaf_in = omega arith;
      locked_in = omega arith;
    };
    votes = record {
      rise = λ i j a b p q l. elim (nothing_there p) [ ];
      voted = λ i a p. elim (nothing_there p) [ ];
    };
    no_views = λ k. refl;
  }))

  module _
      (codec : (v : HotStuffVote) (bytes : List ℕ)
        → ext.marshal v ≡ some bytes
        → ext.unmarshal bytes ≡ some v) where
    Step-Sound : {hi h : HotStuffInstance R} → Sound ext hi → Step ext hi h → Sound ext h
    Step-Sound i s = record {
      linked = s.linked;
      votes = s.votes i.votes;
      no_views = s.no_views i.no_views;
    }

    start-Step : {hi : HotStuffInstance R} → Linked hi → Holds (Step ext hi) (start requests ext hi)
    unfolding start
    start-Step {hi} l = deref-Holds (λ leader e.
        when-Holds (λ t. propose_sn-Step requests ext codec hi.segment.first_sn l)
          (λ t. ok-Holds _ (Step_refl l)))

    pub run-Sound :
        (segment : Segment) (batches : List (List ℕ)) (r : R) (msgs : List ProtocolMessage)
        → Holds (Sound ext) (run requests ext segment batches r msgs)
    unfolding run
    run-Sound segment batches r msgs = bind-Holds (init-Sound segment batches r) (λ hi i.
        bind-Holds (start-Step i.linked) (λ started s.
          weaken-Holds (λ h p. Step-Sound i (Step_trans s p))
            (process_serialized_messages-Step requests ext codec msgs s.linked)))

    -- In a run over any start and any messages, the votes that a node has sent are for heights that go up, in
    -- the order of `int32`; so no height is voted for twice. What a vote is encoded to decodes to it.
    pub run-votes :
        (segment : Segment) (batches : List (List ℕ)) (r : R) (msgs : List ProtocolMessage)
        (h : HotStuffInstance R) (i j a b : ℕ)
        → run requests ext segment batches r msgs ≡ ok h
        → get_elem? (votes_sent ext h.calls) i ≡ some a
        → get_elem? (votes_sent ext h.calls) j ≡ some b
        → i < j
        → place a < place b
    run-votes segment batches r msgs h i j a b e p q lt =
        (holds_of (run-Sound segment batches r msgs) e).votes.rise i j a b p q lt

    -- From a state that a run has reached, more messages never lower the height of the last vote, of the
    -- locked node or of the highest certificate, and a node that is announced stays so. What a vote is encoded
    -- to decodes to it.
    pub process_serialized_messages-Forward :
        (segment : Segment) (batches : List (List ℕ)) (r : R) (first later : List ProtocolMessage)
        (hi h : HotStuffInstance R)
        → run requests ext segment batches r first ≡ ok hi
        → process_serialized_messages requests ext later hi ≡ ok h
        → Forward hi h
    process_serialized_messages-Forward segment batches r first later hi h e d =
        let sound = holds_of (run-Sound segment batches r first) e in
        let s =
          holds_of (process_serialized_messages-Step requests ext codec later sound.linked) d in
        record { vheight = s.vheight; lock = s.lock; high = s.high; stays = s.stays }

    -- In a state that a run has reached, a new-view message is either too old or makes an entry for its height:
    -- no message enters a new view, since the votes for it are never kept. What a vote is encoded to decodes to
    -- it.
    pub run-handle_new_view :
        (segment : Segment) (batches : List (List ℕ)) (r : R) (msgs : List ProtocolMessage)
        (h : HotStuffInstance R) (view : ℕ) (certificate : Qc) (sender_id : ℕ)
        → run requests ext segment batches r msgs ≡ ok h
        → handle_new_view requests ext view certificate sender_id h ≡ (
            when lt32 view h.view
            then fail requests ext HotStuffError.old_view h
            else done requests ext (with_votes_for requests ext (qc_height certificate) h))
    unfolding handle_new_view
    run-handle_new_view segment batches r msgs h view certificate sender_id e =
        ap
          (λ result.
            when lt32 view h.view then fail requests ext HotStuffError.old_view h else result)
          (no_quorum ext.faults sender_id (votes_for (qc_height certificate) h.new_view_votes) _ _ _
            ((holds_of (run-Sound segment batches r msgs) e).no_views (qc_height certificate)))

    -- In a state that a run has reached, a proposal whose handler returns adds one vote at most, for its height,
    -- and only if its sender is the leader it names, it is above the last vote, its batch is valid, not in
    -- flight and of the buckets of the segment, its certificate is valid (which is not looked at up to height
    -- 1), and it extends the locked node or has a certificate above it. What a vote is encoded to decodes to it.
    pub handle_proposal-Rules :
        (segment : Segment) (batches : List (List ℕ)) (r : R) (msgs : List ProtocolMessage)
        (hi h : HotStuffInstance R) (leader : ℕ) (node : NodeMsg) (msg : ProtocolMessage)
        (result : Option HotStuffError)
        → run requests ext segment batches r msgs ≡ ok hi
        → handle_proposal requests ext leader node msg hi ≡ ok (result, h)
        → (votes_sent ext h.calls ≡ votes_sent ext hi.calls)
          ⊎ (((msg.sender_id ≡ leader)
                × (place hi.vheight < place (height_of node))
                × Rules requests ext node hi)
              × (votes_sent ext h.calls ≡ votes_sent ext hi.calls ++ height_of node ∷ []))
    handle_proposal-Rules segment batches r msgs hi h leader node msg result e d =
        (holds_of
          (handle_proposal-Voting requests ext codec leader node msg
            (holds_of (run-Sound segment batches r msgs) e).linked)
          d).vote

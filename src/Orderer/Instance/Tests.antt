-- ===== src/Orderer/Instance/Tests.antt =====
-- Four nodes, one of them faulty at most; a segment of two blocks of node 0.
use orthrus.Protobufs.{Batch}
use orthrus.Manager.Segments.{Segment}
use orthrus.Orderer.Votes.{
  check_commits, accept_loop, is_valid, PbftPreprepare, PbftCommit, PbftBatch,
}
use orthrus.Prelude.{
  same_bytes, lookup, contains, ℕ, ◌≡◌, ◌==◌, ◌<◌, ◌⊎◌, refl, sym, subst, inl, inr, count,
  Bool-cases, if◌then◌else◌, Bool, true, false, Option, none, some, List, [], ◌∷◌, arith, lt32,
  add32,
}
use orthrus.Orderer.Instance.{
  Body, ProtocolMessage, Call, Node, PbftInstance, Outcome, call, current, batch_at, set_batch,
  as_committed, entry_or, find_previous, is_valid_block, commit_empty, ladon_leader, wait_for,
}
use orthrus.Orderer.Instance.Announce.{
  announce, announce_step, order_before, stop_running, settle, suspect_of, announce_next,
  announce_waiting, announce_batch, then_finish, finish, await_checkpoint, set_view_change_timer,
}
use orthrus.Orderer.Instance.Handlers.{handle_commit, guard_vote}
use orthrus.Orderer.Instance.Ready.{Ready, Fits, has_proposal, is_present}
use orthrus.Orderer.Instance.Settled.{Settles}
use orthrus.Orderer.Instance.Termination.{announce-Settles}
use orthrus.Orderer.Instance.View.{start_view}
use orthrus.Orderer.Instance.Carrying.{can_carry, carried}
use orthrus.Orderer.Instance.Starting.{start_view-carried}
use orthrus.Orderer.Agreement.{
  Agreement, handle_checkpoints, handle_pbft_checkpoint, no_agreement, append_node, nodes_with,
  ready, save_digests,
}
use orthrus.Orderer.Instance.Deciding.{votes, Decided, handle_checkpoints-Decided}
use orthrus.Orderer.Instance.Progress.{Handles, completes, handle_commit-Returns}

-- The first byte stands for the hash.
abbrev first_byte : List (List ℕ) → List ℕ
first_byte [] = 0 ∷ []
first_byte ([] ∷ rest) = first_byte rest
first_byte ((b ∷ bytes) ∷ rest) = b ∷ []

abbrev node : Node
node = record {
  own_id = 1;
  num_nodes = 4;
  faults = 1;
  is_silent = false;
  steps = 4294967296;
  hash = first_byte;
}

abbrev segment : Segment
segment = record {
  seg_id = 0;
  leaders = 0 ∷ [];
  followers = 0 ∷ 1 ∷ 2 ∷ 3 ∷ [];
  sns = 0 ∷ 4 ∷ [];
  first_sn = 0;
  last_sn = some 4;
  len = 2;
  starts_after = 0;
  buckets = [];
  batch_size = 1;
}

abbrev payload : Option Batch
payload = some (record { requests = [] })

abbrev proposal : ℕ → PbftPreprepare
proposal sn = record {
  sn = sn;
  view = 0;
  leader = 0;
  batch = payload;
  ts = 3;
  aborted = false;
  tn = 0;
}

abbrev vote : ℕ → PbftCommit
vote sn = record { sn = sn; view = 0; digest = 9 ∷ []; ts = 5 }

abbrev slot : ℕ → PbftBatch
slot sn = record {
  prepare_msgs = [];
  commit_msgs = (1, some (vote sn)) ∷ (2, some (vote sn)) ∷ [];
  valid_commit_msgs = [];
  last_commit_ts = 0;
  digest = 9 ∷ [];
  preprepared = true;
  prepared = true;
  committed = false;
  preprepare_msg = some (proposal sn);
  batch = payload;
  view_change_timer = false;
  has_maps = true;
}

-- The block of 4 has been announced already, and waits for that of 0.
abbrev instance_now : PbftInstance
instance_now = record {
  view = 0;
  segment = segment;
  batches = (0, (0, slot 0) ∷ (4, slot 4) ∷ []) ∷ [];
  agreement = no_agreement false;
  in_view_change = false;
  backlog_msgs = [];
  htn_log = [];
  htn_recv = [];
  wait_for_previous_block = (0, 4 ∷ []) ∷ [];
  first_uncommit_sn = (0, 0) ∷ [];
  in_ladon_view_change = false;
  htn = 0;
  calls = [];
}

announced_of : List Call → List ℕ
announced_of [] = []
announced_of (Call.announcer_announce e ∷ cs) = e.sn ∷ announced_of cs
announced_of (c ∷ cs) = announced_of cs

announced_by : Outcome → List ℕ
unfolding announced_of
announced_by (Outcome.done pi) = announced_of pi.calls
announced_by o = []

both_in_order : announced_by (announce node 3 instance_now 0 payload false 3 5) ≡ 0 ∷ 4 ∷ []
unfolding announced_by announced_of announce announce_step order_before stop_running settle
    suspect_of announce_next announce_waiting announce_batch then_finish finish await_checkpoint
    set_view_change_timer call current batch_at set_batch as_committed entry_or find_previous
    no_agreement same_bytes is_valid_block commit_empty ladon_leader wait_for lt32 add32
both_in_order = refl

pick : Bool → List ℕ
pick test =
    let o : Option (List ℕ) = if test then some (4 ∷ []) else none in
    elim o [ none ↦ [] | some xs ↦ xs ]

in_one : (v : ℕ) → 0 < count v (4 ∷ []) → v ≡ 4
in_one v h = ground arith

waiting_is : (i v : ℕ) → 0 < count v (entry_or [] i ((0, 4 ∷ []) ∷ [])) → v ≡ 4
unfolding entry_or pick
waiting_is i v h = elim (Bool-cases (0 == i)) [
  | inl e ↦ in_one v (subst (λ b. 0 < count v (pick b)) e h)
  | inr e ↦ elim (subst (λ b. 0 < count v (pick b)) e h) [ ]
]

handled_are : (v : ℕ) → 0 < count v (0 ∷ 4 ∷ []) → (v ≡ 0) ⊎ (v ≡ 4)
handled_are v h = ground arith

instance-Ready : Ready node instance_now
unfolding entry_or batch_at current no_agreement
instance-Ready = record {
  waiting = λ i v h.
      subst (λ k. Fits node k × (has_proposal (batch_at instance_now k) ≡ true))
        (sym (waiting_is i v h)) (omega arith, refl);
  handled = λ v h. elim (handled_are v h) [
    | inl e ↦ subst (λ k. is_present (batch_at instance_now k) ≡ true) (sym e) refl
    | inr e ↦ subst (λ k. is_present (batch_at instance_now k) ≡ true) (sym e) refl
  ];
  led = omega arith;
  measured = omega arith;
  unsent = refl;
}

announce-Settles_example :
    Settles node instance_now 0 (announce node 3 instance_now 0 payload false 3 5)
unfolding batch_at current entry_or
announce-Settles_example =
    announce-Settles node (omega arith) (omega arith) 3 instance_now 0 payload false 3 5
      instance-Ready (omega arith) refl (omega arith)

commit_msg : ℕ → ProtocolMessage
commit_msg sender = record { sender_id = sender; sn = 0; msg = Body.commit (vote 0) }

handle_commit-Returns_example :
    Handles node instance_now 0
      (completes node instance_now (vote 0) (commit_msg 3))
      (handle_commit node 3 instance_now (vote 0) (commit_msg 3)).1
unfolding batch_at current entry_or commit_msg
handle_commit-Returns_example =
    handle_commit-Returns node (omega arith) (omega arith) 3 instance_now (vote 0) (commit_msg 3)
      instance-Ready (omega arith) refl (omega arith)

-- The third vote completes the batch.
completed : completes node instance_now (vote 0) (commit_msg 3) ≡ true
unfolding guard_vote batch_at current entry_or commit_msg check_commits accept_loop lt32 same_bytes
    is_valid
completed = refl

-- The block of 4 is committed, that of 0 only proposed.
abbrev half_done : PbftInstance
half_done = record instance_now {
  batches = (0, (0, slot 0) ∷ (4, record (slot 4) { committed = true }) ∷ []) ∷ [];
}

carries : (j : ℕ) → contains j (0 ∷ 4 ∷ []) ≡ true → can_carry (batch_at half_done j) ≡ true
unfolding batch_at current entry_or
carries j h = ground arith

start_view-carried_example :
    (later : PbftInstance) × (start_view true 1 half_done ≡ Outcome.done later)
    × (later.view ≡ 1)
    × (batch_at later 4 ≡ some (carried true (record (slot 4) { committed = true })))
    × (lookup 0 later.batches ≡ lookup 0 half_done.batches)
    × (later.calls
        ≡ Call.stop_proposing
          ∷ Call.start_timer 0
          ∷ Call.resurrect (record { requests = [] })
          ∷ Call.start_timer 4
          ∷ [])
unfolding batch_at current entry_or
start_view-carried_example =
    start_view-carried true 1 4 0 half_done (omega arith) (omega arith) refl carries refl

-- Three messages of one sender.
abbrev copies : List (ℕ × List (List ℕ))
copies =
    (2, (7 ∷ []) ∷ (8 ∷ []) ∷ [])
    ∷ (2, (7 ∷ []) ∷ (8 ∷ []) ∷ [])
    ∷ (2, (7 ∷ []) ∷ (8 ∷ []) ∷ [])
    ∷ []

finals_of : Option Agreement → Option (List (ℕ × List ℕ))
finals_of none = none
finals_of (some a) = a.final_digests

decided_by_one :
    finals_of (handle_checkpoints first_byte 3 (0 ∷ 4 ∷ []) copies (no_agreement true))
    ≡ some ((0, 7 ∷ []) ∷ (4, 8 ∷ []) ∷ [])
unfolding finals_of handle_checkpoints handle_pbft_checkpoint no_agreement append_node nodes_with
    ready save_digests first_byte same_bytes
decided_by_one = refl

handle_checkpoints-Decided_example :
    (later : Agreement) × (handle_checkpoints first_byte 3 (0 ∷ 4 ∷ []) copies (no_agreement true)
      ≡ some later)
    × Decided first_byte 3 (0 ∷ 4 ∷ []) (λ d. votes first_byte d copies) later.final_digests
handle_checkpoints-Decided_example =
    handle_checkpoints-Decided first_byte 3 (0 ∷ 4 ∷ []) true copies (omega arith)
      (omega arith, (omega arith, (omega arith, tt)))

-- ===== src/Orderer/HotStuff/Tests.antt =====
-- Runs of a HotStuff instance, in which the theorems about every run are applied. Node 1 follows node 0,
-- which has proposed two batches.
use orthrus.Manager.Segments.{Segment}
use orthrus.Request.Digest.{batch_digest}
use orthrus.Request.Requests.{Requests}
use orthrus.Orderer.HotStuff.{
  NodeMsg, node_msg, qc, no_node, HotStuffVote, Body, ProtocolMessage, Externals, HotStuffInstance,
  call, write, node_at, sn_of, is_known_sn, segment_leader, kept_at,
}
use orthrus.Orderer.HotStuff.Tree.{
  allocate, new_node, placeholder, pad, set_view_change_timer, set_at, place_node, add_node,
  new_batch_of, adopt_node, update_high_qc, announce, stop_timer, mark_announced,
}
use orthrus.Orderer.HotStuff.Handlers.{
  HotStuffError, done, fail, extends, send_vote, serialize_all, backlog_process, announce_decided,
  create, index, lock, commit, accept_proposal, check_batch, catch_up, check_locked,
  check_certificate, handle_proposal,
}
use orthrus.Orderer.HotStuff.Loop.{
  handle_body, handle_message, process_serialized_messages, init, start, run, root_node,
  handle_new_view, with_votes_for, handle_missing_entry, resurrected, mark_missing,
}
use orthrus.Orderer.HotStuff.Quiet.{place, votes_sent}
use orthrus.Orderer.HotStuff.Votes.{Rules}
use orthrus.Orderer.HotStuff.Safety.{
  Forward, run-append, run-votes, process_serialized_messages-Forward, run-handle_new_view,
  handle_proposal-Rules,
}
use orthrus.Orderer.HotStuff.Missing.{entries, handle_missing_entry-silent}
use orthrus.Prelude.{
  ℕ, ◌<◌, ◌⊎◌, ◌++◌, arith, ◌≡◌, refl, sym, subst, true, false, Option, none, some, List, [], ◌∷◌,
  Result, ok, ◌>>=◌, deref, when◌then◌else◌, in_case, the_same, lt32, le32, minus_one, add32,
  same_bytes,
}

decoded : List ℕ → Option HotStuffVote
decoded [] = none
decoded (height ∷ digest) = some (record { height = height; digest = digest })

-- Digests and signatures are empty, and every signature is valid.
abbrev follower : Externals
follower = record {
  own_id = 1;
  faults = 1;
  hash = λ bytes. [];
  sign = λ bytes. some [];
  check_sig = λ bytes id signature. true;
  check_cert = λ bytes certificate. true;
  assemble_cert = λ bytes signatures. some [];
  marshal = λ v. some (v.height ∷ v.digest);
  unmarshal = decoded;
}

-- Batches without requests.
abbrev no_requests : Requests Unit
no_requests = record {
  new_batch = λ r batch. some (r, some []);
  message = λ r batch. record { requests = [] };
  has_in_flight = λ r batch. false;
  in_buckets = λ r ids batch. true;
  mark_in_flight = λ r batch. r;
  resurrect = λ r batch. some r;
  remove_batch = λ r batch. r;
}

abbrev segment : Segment
segment = record {
  seg_id = 0;
  leaders = 0 ∷ 1 ∷ 2 ∷ 3 ∷ [];
  followers = 0 ∷ 1 ∷ 2 ∷ 3 ∷ [];
  sns = 0 ∷ 4 ∷ [];
  first_sn = 0;
  last_sn = some 4;
  len = 2;
  starts_after = minus_one;
  buckets = 0 ∷ [];
  batch_size = 1;
}

abbrev next_node : NodeMsg
next_node = node_msg 2 0 [] (record { requests = [] }) (qc 1 no_node []) false

abbrev proposal : ℕ → ℕ → ℕ → ProtocolMessage
proposal height sn certified = record {
  sender_id = 0;
  sn = sn;
  msg =
      Body.proposal 0
        (node_msg height 0 [] (record { requests = [] }) (qc certified no_node []) false);
}

codec :
    (v : HotStuffVote) (bytes : List ℕ)
    → follower.marshal v ≡ some bytes
    → follower.unmarshal bytes ≡ some v
unfolding decoded
codec v bytes e = subst (λ b. decoded b ≡ some v) (sym (the_same e)) refl

abbrev first_run : Result (HotStuffInstance Unit)
first_run = run no_requests follower segment [] tt (proposal 1 0 0 ∷ [])

unfoldable reached : (hi : HotStuffInstance Unit) × (first_run ≡ ok hi)
unfolding run init root_node start process_serialized_messages handle_message handle_body
    handle_proposal check_certificate check_locked check_batch catch_up accept_proposal create index
    lock commit announce_decided backlog_process serialize_all send_vote extends done fail
    new_batch_of update_high_qc adopt_node add_node place_node set_view_change_timer set_at pad
    placeholder new_node allocate write call node_at sn_of is_known_sn segment_leader kept_at
    same_bytes lt32 le32 add32 minus_one batch_digest ◌>>=◌ deref when◌then◌else◌ in_case
reached = (_, refl)

unfoldable second :
    (h : HotStuffInstance Unit) × (handle_proposal no_requests follower 0 next_node
        (proposal 2 4 1)
        reached.0
      ≡ ok (none, h))
unfolding reached run init root_node start process_serialized_messages handle_message handle_body
    handle_proposal check_certificate check_locked check_batch catch_up accept_proposal create index
    lock commit announce_decided backlog_process serialize_all send_vote extends done fail
    new_batch_of update_high_qc adopt_node add_node place_node set_view_change_timer set_at pad
    placeholder new_node allocate write call node_at sn_of is_known_sn segment_leader kept_at
    same_bytes lt32 le32 add32 minus_one batch_digest ◌>>=◌ deref when◌then◌else◌ in_case
second = (_, refl)

unfoldable fetched :
    (h : HotStuffInstance Unit) × (handle_missing_entry no_requests follower 0
        (record { requests = [] })
        []
        false
        reached.0
      ≡ ok h)
unfolding handle_missing_entry resurrected mark_missing announce stop_timer mark_announced reached
    run init root_node start process_serialized_messages handle_message handle_body handle_proposal
    check_certificate check_locked check_batch catch_up accept_proposal create index lock commit
    announce_decided backlog_process serialize_all send_vote extends done fail new_batch_of
    update_high_qc adopt_node add_node place_node set_view_change_timer set_at pad placeholder
    new_node allocate write call node_at sn_of is_known_sn segment_leader kept_at same_bytes lt32
    le32 add32 minus_one batch_digest ◌>>=◌ deref when◌then◌else◌ in_case
fetched = (_, refl)

unfoldable later :
    (h : HotStuffInstance Unit) × (process_serialized_messages no_requests follower
        (proposal 2 4 1 ∷ [])
        reached.0
      ≡ ok h)
unfolding reached run init root_node start process_serialized_messages handle_message handle_body
    handle_proposal check_certificate check_locked check_batch catch_up accept_proposal create index
    lock commit announce_decided backlog_process serialize_all send_vote extends done fail
    new_batch_of update_high_qc adopt_node add_node place_node set_view_change_timer set_at pad
    placeholder new_node allocate write call node_at sn_of is_known_sn segment_leader kept_at
    same_bytes lt32 le32 add32 minus_one batch_digest ◌>>=◌ deref when◌then◌else◌ in_case
later = (_, refl)

run-votes_example : place 1 < place 2
unfolding reached later decoded
run-votes_example =
    run-votes no_requests follower codec segment [] tt (proposal 1 0 0 ∷ proposal 2 4 1 ∷ [])
      later.0 0 1 1 2
      (run-append no_requests follower segment [] tt (proposal 1 0 0 ∷ []) (proposal 2 4 1 ∷ [])
        reached.0 later.0 reached.1 later.1)
      refl refl (omega arith)

process_serialized_messages-Forward_example : Forward reached.0 later.0
process_serialized_messages-Forward_example =
    process_serialized_messages-Forward no_requests follower codec segment [] tt
      (proposal 1 0 0 ∷ []) (proposal 2 4 1 ∷ []) reached.0 later.0 reached.1 later.1

run-handle_new_view_example :
    handle_new_view no_requests follower 1 (qc 1 no_node []) 2 reached.0 ≡ (
      when lt32 1 (reached.0).view
      then fail no_requests follower HotStuffError.old_view reached.0
      else done no_requests follower (with_votes_for no_requests follower 1 reached.0))
run-handle_new_view_example =
    run-handle_new_view no_requests follower codec segment [] tt (proposal 1 0 0 ∷ []) reached.0 1
      (qc 1 no_node []) 2 reached.1

handle_proposal-Rules_example :
    (votes_sent follower (second.0).calls ≡ votes_sent follower (reached.0).calls)
    ⊎ ((((proposal 2 4 1).sender_id ≡ 0)
          × (place (reached.0).vheight < place 2)
          × Rules no_requests follower next_node reached.0)
        × (votes_sent follower (second.0).calls ≡ votes_sent follower (reached.0).calls ++ 2 ∷ []))
handle_proposal-Rules_example =
    handle_proposal-Rules no_requests follower codec segment [] tt (proposal 1 0 0 ∷ []) reached.0
      second.0 0 next_node (proposal 2 4 1) none reached.1 second.1

handle_missing_entry-silent_example : entries (fetched.0).calls ≡ entries (reached.0).calls
handle_missing_entry-silent_example =
    handle_missing_entry-silent no_requests follower 0 (record { requests = [] }) [] false reached.0
      fetched.0 fetched.1

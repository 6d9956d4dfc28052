-- ===== src/Orderer/Instance/Finishing.antt =====
-- The end of `announce` returns: the timer of a batch or the checkpoint is set.
use orthrus.Orderer.Votes.{PbftBatch}
use orthrus.Prelude.{
  ℕ, zero, suc, ◌+◌, ◌*◌, ◌==◌, ◌≤◌, length, lookup, ◌≡◌, ◌<◌, refl, subst, inl, inr, true, Option,
  none, some, List, [], ◌∷◌, arith, count, Bool-cases, Option-cases,
}
use orthrus.Orderer.Instance.{
  Call, Node, PbftInstance, Outcome, call, current, batch_at, set_batch, is_committed,
}
use orthrus.Orderer.Agreement.{Agreement, nodes_with, append_node, handle_pbft_checkpoint, ready}
use orthrus.Orderer.Instance.Deciding.{save_digests-some}
use orthrus.Orderer.Instance.Announce.{
  finish, await_checkpoint, set_view_change_timer, then_await, nils, prepend_digest,
  collect_digests, enqueue_to_followers, with_agreement, own_checkpoint, send_checkpoint,
}
use orthrus.Orderer.Instance.Ready.{
  Ready, IsAfter, IsAfter_refl, IsAfter_trans, call-Ready, call-IsAfter, has_proposal, is_present,
  set_batch-Ready, set_batch-IsAfter,
}

-- A run of the code that returns, in a state that is ready again.
pub record Returns (node : Node) (pi : PbftInstance) (o : Outcome) : Type 0 where
  pub state : PbftInstance
  pub runs : o ≡ Outcome.done state
  pub ready : Ready node state
  pub after : IsAfter pi state

pub returned : {node : Node} {pi : PbftInstance} → Ready node pi → Returns node pi (Outcome.done pi)
returned {pi = pi} r = record { state = pi; runs = refl; ready = r; after = IsAfter_refl pi }

-- The same run, seen from an earlier state.
pub from_earlier :
    {node : Node} {before pi : PbftInstance} {o : Outcome}
    → IsAfter before pi
    → Returns node pi o
    → Returns node before o
from_earlier a r = record {
  state = r.state;
  runs = r.runs;
  ready = r.ready;
  after = IsAfter_trans a r.after;
}

pub call-Returns :
    {node : Node} (c : Call) (pi : PbftInstance)
    → Ready node pi
    → Returns node pi (Outcome.done (call c pi))
call-Returns c pi r = record {
  state = call c pi;
  runs = refl;
  ready = call-Ready c r;
  after = call-IsAfter c pi;
}

abbrev timed : PbftBatch → PbftBatch
timed batch = record batch { view_change_timer = true }

module _ (sn : ℕ) (batch : PbftBatch) (pi : PbftInstance) (e : batch_at pi sn ≡ some batch) where
  timed-proposal : has_proposal (batch_at pi sn) ≡ true → has_proposal (some (timed batch)) ≡ true
  timed-proposal h = subst (λ o. has_proposal o ≡ true) e h

  timed-IsAfter : IsAfter pi (set_batch sn (timed batch) pi)
  unfolding is_committed
  timed-IsAfter =
      set_batch-IsAfter sn (timed batch) timed-proposal
        (λ h. subst (λ o. is_committed o ≡ true) e h) (rw e (omega arith))

timer-Returns :
    {node : Node} (sn : ℕ) (batch : PbftBatch) (pi : PbftInstance)
    → batch_at pi sn ≡ some batch
    → Ready node pi
    → Returns node pi (Outcome.done (set_view_change_timer sn batch pi))
unfolding set_view_change_timer
timer-Returns sn batch pi e r = elim (Bool-cases batch.view_change_timer) [
  | inl t ↦ rw (t, set_view_change_timer) (returned r)
  | inr t ↦
      rw (t, set_view_change_timer)
        (from_earlier (timed-IsAfter sn batch pi e) (
          call-Returns (Call.start_timer sn) (set_batch sn (timed batch) pi)
            (set_batch-Ready sn (timed batch) (timed-proposal sn batch pi e) r)))
]

absent : (o : Option PbftBatch) → o ≡ none → is_present o ≡ true → 0 < 0
absent o e h = ground arith

-- Another agreement, which does not keep a message of this node.
agreement-Ready :
    {node : Node} {pi : PbftInstance} (a : Agreement)
    → Ready node pi
    → lookup node.own_id a.checkpoint_msgs ≡ none
    → Ready node (record pi { agreement = a })
unfolding batch_at current
agreement-Ready a r unsent = record {
  waiting = r.waiting;
  handled = r.handled;
  led = r.led;
  measured = r.measured;
  unsent = unsent;
}

agreement-IsAfter : (a : Agreement) (pi : PbftInstance) → IsAfter pi (record pi { agreement = a })
unfolding batch_at current
agreement-IsAfter a pi = record { fewer = omega arith; kept = λ k h. h; stays = λ k h. h }

await-Returns :
    {node : Node} (digests : Option (List (ℕ × List ℕ))) (pi : PbftInstance)
    → Ready node pi
    → Returns node pi (Outcome.done (await_checkpoint digests pi))
unfolding await_checkpoint batch_at current
await-Returns none pi r =
    let timed_out : Agreement = record pi.agreement { checkpoint_timer = true } in
    from_earlier (agreement-IsAfter timed_out pi) (
      call-Returns Call.set_checkpoint_timer (record pi { agreement = timed_out })
        (agreement-Ready timed_out r r.unsent))
await-Returns (some digests) pi r = returned r

then_await-Returns :
    {node : Node} {pi : PbftInstance} {o : Outcome}
    → Returns node pi o
    → Returns node pi (then_await o)
unfolding then_await
then_await-Returns r =
    from_earlier r.after
      (rw (r.runs, then_await) (await-Returns r.state.agreement.final_digests r.state r.ready))

length-nils : (n : ℕ) → length (nils n) ≡ n
unfolding nils
length-nils zero = refl
length-nils (suc n) = ground (arith, length-nils n)

-- The batches are there, so the digests are collected, as many as the segment counts.
collect_digests-some :
    (len : ℕ) (sns : List ℕ) (pi : PbftInstance)
    → length sns ≤ len
    → ((v : ℕ) → 0 < count v sns → is_present (batch_at pi v) ≡ true)
    → (digests : List (List ℕ)) × (collect_digests len sns pi ≡ some digests)
      × (length digests ≡ len)
unfolding collect_digests prepend_digest
collect_digests-some len [] pi h p = (nils len, refl, length-nils len)
collect_digests-some zero (sn ∷ sns) pi h p = elim h [ ]
collect_digests-some (suc len) (sn ∷ sns) pi h p = elim (Option-cases (batch_at pi sn)) [
  | inl e ↦ elim (absent (batch_at pi sn) e (p sn (ground arith))) [ ]
  | inr (batch, e) ↦
      let (digests, q, l) =
        collect_digests-some len sns pi (omega (arith, h)) (λ v k. p v (ground arith)) in
      (batch.digest ∷ digests, rw (e, q, collect_digests, prepend_digest) refl, ground (arith, l))
]

-- A message with enough digests does not panic, and is not kept.
heard_lem :
    (hash : List (List ℕ) → List ℕ) (quorum : ℕ) (sns : List ℕ) (digests : List (List ℕ)) (id : ℕ)
    (a : Agreement)
    → length sns ≤ length digests
    → lookup id a.checkpoint_msgs ≡ none
    → (later : Agreement) × (handle_pbft_checkpoint hash quorum sns digests id a ≡ some later)
      × (later.checkpoint_msgs ≡ a.checkpoint_msgs)
unfolding handle_pbft_checkpoint ready
heard_lem hash quorum sns digests id a long silent =
    let (finals, saved) = save_digests-some sns digests [] long in
    let nodes = nodes_with (hash digests) (append_node (hash digests) id a.checkpoint_digests) in
    elim (Bool-cases (length nodes == quorum)) [
      | inl e ↦ rw (silent, e, saved, handle_pbft_checkpoint) (_, refl, refl)
      | inr e ↦ rw (silent, e, handle_pbft_checkpoint) (_, refl, refl)
    ]

own_checkpoint-Returns :
    {node : Node} (digests : List (List ℕ)) (pi : PbftInstance)
    → Ready node pi
    → length pi.segment.sns ≤ length digests
    → Returns node pi (own_checkpoint node digests pi)
unfolding own_checkpoint with_agreement batch_at current
own_checkpoint-Returns {node} digests pi r long =
    let (a, runs, same) =
      heard_lem node.hash (2 * node.faults + 1) pi.segment.sns digests node.own_id pi.agreement long
        r.unsent in
    rw (r.unsent, runs, own_checkpoint, with_agreement)
      (record {
        state = record pi { agreement = a };
        runs = refl;
        ready = agreement-Ready a r (rw same r.unsent);
        after = agreement-IsAfter a pi;
      })

-- Sending changes nothing but the calls.
enqueue_to_followers-Returns :
    {node : Node} (digests : List (List ℕ)) (peers : List ℕ) (pi : PbftInstance)
    → Ready node pi
    → length pi.segment.sns ≤ length digests
    → Returns node pi
        (own_checkpoint node digests (enqueue_to_followers node.own_id digests peers pi))
unfolding enqueue_to_followers call
enqueue_to_followers-Returns digests [] pi r long = own_checkpoint-Returns digests pi r long
enqueue_to_followers-Returns {node} digests (peer ∷ peers) pi r long =
    elim (Bool-cases (peer == node.own_id)) [
      | inl e ↦ rw (e, enqueue_to_followers) (enqueue_to_followers-Returns digests peers pi r long)
      | inr e ↦
          let c = Call.enqueue_checkpoint digests peer in
          rw (e, enqueue_to_followers)
            (from_earlier (call-IsAfter c pi)
              (enqueue_to_followers-Returns digests peers (call c pi) (call-Ready c r) long))
    ]

send_checkpoint-Returns :
    {node : Node} (pi : PbftInstance) → Ready node pi → Returns node pi (send_checkpoint node pi)
unfolding send_checkpoint
send_checkpoint-Returns {node} pi r =
    let (digests, e, l) =
      collect_digests-some pi.segment.len pi.segment.sns pi r.measured r.handled in
    rw (e, send_checkpoint)
      (enqueue_to_followers-Returns digests pi.segment.followers pi r
        (omega (arith, r.measured, l)))

-- The segment's batches are there, so the loop finds the first uncommitted one, or there is none.
pub finish-Returns :
    {node : Node} (sns : List ℕ) (pi : PbftInstance)
    → Ready node pi
    → ((v : ℕ) → 0 < count v sns → is_present (batch_at pi v) ≡ true)
    → Returns node pi (finish node sns pi)
unfolding finish
finish-Returns [] pi r h = then_await-Returns (send_checkpoint-Returns pi r)
finish-Returns (sn ∷ sns) pi r h = elim (Option-cases (batch_at pi sn)) [
  | inl e ↦ elim (absent (batch_at pi sn) e (h sn (ground arith))) [ ]
  | inr (batch, e) ↦ elim (Bool-cases batch.committed) [
    | inl c ↦ rw (e, c, finish) (finish-Returns sns pi r (λ v k. h v (ground arith)))
    | inr c ↦ rw (e, c, finish) (timer-Returns sn batch pi e r)
  ]
]

-- ===== src/Orderer/Instance/Ready.antt =====
-- When `announce` can run: the batches that it reads are there, and what keeps it so.
use orthrus.Protobufs.{Batch}
use orthrus.Orderer.Votes.{PbftPreprepare, PbftBatch}
use orthrus.Prelude.{
  ℕ, ◌+◌, ◌%◌, ◌≡◌, ◌≤◌, ◌<◌, ◌==◌, refl, inl, inr, Bool, true, false, if◌then◌else◌, Option, none,
  some, List, [], ◌∷◌, arith, sym, subst, ==_iff, lookup, insert, lookup-insert, count, length,
  half, modulus, Bool-cases,
}
use orthrus.Orderer.Instance.{
  Call, call, Node, PbftInstance, entry_or, current, batch_at, set_batch, is_committed,
  as_committed, empty_committed,
}

abbrev pub proposes : Option PbftPreprepare → Option Batch → Bool
proposes (some m) (some b) = true
proposes m b = false

-- A batch with a PRE-PREPARE and with the requests that were proposed.
abbrev pub has_proposal : Option PbftBatch → Bool
has_proposal none = false
has_proposal (some batch) = proposes batch.preprepare_msg batch.batch

abbrev pub is_present : Option PbftBatch → Bool
is_present none = false
is_present (some batch) = true

-- The place of an integer in the order of `int32`.
abbrev pub place : ℕ → ℕ
place n = (n + half) % modulus

-- The sequence number after `sn` of the same leader does not overflow.
abbrev pub Fits : Node → ℕ → Type 0
Fits node sn = place sn + node.num_nodes ≤ modulus

-- The batches of the segment are there, and so are the proposals of those that wait; the segment has a leader,
-- and counts its sequence numbers; and no checkpoint message of this node is kept.
pub record Ready (node : Node) (pi : PbftInstance) : Type 0 where
  pub waiting :
      (i v : ℕ)
      → 0 < count v (entry_or [] i pi.wait_for_previous_block)
      → Fits node v × (has_proposal (batch_at pi v) ≡ true)
  pub handled : (v : ℕ) → 0 < count v pi.segment.sns → is_present (batch_at pi v) ≡ true
  pub led : 0 < length pi.segment.leaders
  pub measured : length pi.segment.sns ≤ pi.segment.len
  pub unsent : lookup node.own_id pi.agreement.checkpoint_msgs ≡ none

-- The number of batches of the view that are not committed.
abbrev pub open_one : Option PbftBatch → ℕ
open_one none = 0
open_one (some batch) = if batch.committed then 0 else 1

abbrev pub uncommitted : List (ℕ × PbftBatch) → ℕ
uncommitted [] = 0
uncommitted ((k, b) ∷ m) = open_one (some b) + uncommitted m

-- `p` is a later state than `pi`.
pub record IsAfter (pi p : PbftInstance) : Type 0 where
  pub fewer : uncommitted (current p) ≤ uncommitted (current pi)
  pub kept : (k : ℕ) → has_proposal (batch_at pi k) ≡ true → has_proposal (batch_at p k) ≡ true
  pub stays : (k : ℕ) → is_committed (batch_at pi k) ≡ true → is_committed (batch_at p k) ≡ true

pub IsAfter_refl : (pi : PbftInstance) → IsAfter pi pi
IsAfter_refl pi = record { fewer = omega arith; kept = λ k h. h; stays = λ k h. h }

pub IsAfter_trans : {a b c : PbftInstance} → IsAfter a b → IsAfter b c → IsAfter a c
IsAfter_trans p q = record {
  fewer = omega (arith, p.fewer, q.fewer);
  kept = λ k h. q.kept k (p.kept k h);
  stays = λ k h. q.stays k (p.stays k h);
}

uncommitted-insert :
    (k : ℕ) (b : PbftBatch) (m : List (ℕ × PbftBatch))
    → uncommitted (insert k b m) + open_one (lookup k m) ≡ uncommitted m + open_one (some b)
uncommitted-insert k b [] = omega arith
uncommitted-insert k b ((j, c) ∷ m) = ground (arith, uncommitted-insert k b m)

pub call-Ready :
    {node : Node} {pi : PbftInstance} (c : Call) → Ready node pi → Ready node (call c pi)
unfolding call batch_at current
call-Ready c r = record {
  waiting = r.waiting;
  handled = r.handled;
  led = r.led;
  measured = r.measured;
  unsent = r.unsent;
}

pub call-IsAfter : (c : Call) (pi : PbftInstance) → IsAfter pi (call c pi)
unfolding call batch_at current
call-IsAfter c pi = record { fewer = omega arith; kept = λ k h. h; stays = λ k h. h }

entry_of-if {ℓ} :
    {A : Type ℓ} (d v : A) (test : Bool) (o : Option A)
    → (elim (if test then some v else o) [ none ↦ d | some a ↦ a ])
      ≡ (if test then v else (elim o [ none ↦ d | some a ↦ a ]))
entry_of-if d v true o = refl
entry_of-if d v false o = refl

pub entry_or-insert {ℓ} :
    {A : Type ℓ} (d : A) (k j : ℕ) (v : A) (m : List (ℕ × A))
    → entry_or d j (insert k v m) ≡ (if k == j then v else entry_or d j m)
unfolding entry_or
entry_or-insert d k j v m =
    rw (lookup-insert k j v m, entry_or) (entry_of-if d v (k == j) (lookup j m))

current-set_batch :
    (sn : ℕ) (b : PbftBatch) (pi : PbftInstance)
    → current (set_batch sn b pi) ≡ insert sn b (current pi)
unfolding current set_batch
current-set_batch sn b pi =
    ground (arith, entry_or-insert [] pi.view pi.view (insert sn b (current pi)) pi.batches)

pub batch_at-set_batch :
    (sn k : ℕ) (b : PbftBatch) (pi : PbftInstance)
    → batch_at (set_batch sn b pi) k ≡ (if sn == k then some b else batch_at pi k)
unfolding batch_at
batch_at-set_batch sn k b pi = rw (current-set_batch sn b pi) (lookup-insert sn k b (current pi))

pub uncommitted-set_batch :
    (sn : ℕ) (b : PbftBatch) (pi : PbftInstance)
    → uncommitted (current (set_batch sn b pi)) + open_one (batch_at pi sn)
      ≡ uncommitted (current pi) + open_one (some b)
unfolding batch_at
uncommitted-set_batch sn b pi =
    rw (current-set_batch sn b pi) (uncommitted-insert sn b (current pi))

-- A test of batches that holds of the one that is written, if it did of the one before.
module _ (test : Option PbftBatch → Bool) where
  pub test-set_batch :
      (sn : ℕ) (b : PbftBatch) (pi : PbftInstance)
      → (test (batch_at pi sn) ≡ true → test (some b) ≡ true)
      → (k : ℕ) → test (batch_at pi k) ≡ true
      → test (batch_at (set_batch sn b pi) k) ≡ true
  test-set_batch sn b pi h k t = rw (batch_at-set_batch sn k b pi) (elim (Bool-cases (sn == k)) [
    | inl e ↦ rw e (h (subst (λ j. test (batch_at pi j) ≡ true) (sym ((==_iff sn k).0 e)) t))
    | inr e ↦ rw e t
  ])

-- The state with one batch written: as ready, and later, if the batch keeps what the one there had.
module _ {pi : PbftInstance} (sn : ℕ) (b : PbftBatch)
    (proposal : has_proposal (batch_at pi sn) ≡ true → has_proposal (some b) ≡ true) where
  pub set_batch-Ready : {node : Node} → Ready node pi → Ready node (set_batch sn b pi)
  unfolding set_batch
  set_batch-Ready ready = record {
    waiting = λ i v h.
        let (f, t) = ready.waiting i v h in (f, test-set_batch has_proposal sn b pi proposal v t);
    handled = λ v h. test-set_batch is_present sn b pi (λ t. refl) v (ready.handled v h);
    led = ready.led;
    measured = ready.measured;
    unsent = ready.unsent;
  }

  pub set_batch-IsAfter :
      (is_committed (batch_at pi sn) ≡ true → b.committed ≡ true)
      → open_one (some b) ≤ open_one (batch_at pi sn)
      → IsAfter pi (set_batch sn b pi)
  unfolding is_committed
  set_batch-IsAfter c less = record {
    fewer = omega (arith, uncommitted-set_batch sn b pi, less);
    kept = test-set_batch has_proposal sn b pi proposal;
    stays = test-set_batch is_committed sn b pi c;
  }

as_committed-proposal :
    (o : Option PbftBatch) → has_proposal o ≡ true → has_proposal (some (as_committed o)) ≡ true
unfolding as_committed
as_committed-proposal none h = ground arith
as_committed-proposal (some b) h = h

as_committed-committed : (o : Option PbftBatch) → (as_committed o).committed ≡ true
unfolding as_committed empty_committed
as_committed-committed none = refl
as_committed-committed (some b) = refl

-- The state with the batch of a sequence number marked as committed.
module _ (pi : PbftInstance) (sn : ℕ) where
  abbrev pub marked : PbftInstance
  marked = set_batch sn (as_committed (batch_at pi sn)) pi

  pub marked-Ready : {node : Node} → Ready node pi → Ready node marked
  marked-Ready =
      set_batch-Ready sn (as_committed (batch_at pi sn)) (as_committed-proposal (batch_at pi sn))

  pub marked-IsAfter : IsAfter pi marked
  marked-IsAfter =
      set_batch-IsAfter sn (as_committed (batch_at pi sn)) (as_committed-proposal (batch_at pi sn))
        (λ h. as_committed-committed (batch_at pi sn))
        (ground (arith, as_committed-committed (batch_at pi sn)))

  pub marked-uncommitted :
      uncommitted (current marked) + open_one (batch_at pi sn) ≡ uncommitted (current pi)
  marked-uncommitted = ground (
    arith,
    uncommitted-set_batch sn (as_committed (batch_at pi sn)) pi,
    as_committed-committed (batch_at pi sn),
  )

  pub marked-committed : is_committed (batch_at marked sn) ≡ true
  unfolding is_committed
  marked-committed =
      rw (batch_at-set_batch sn sn (as_committed (batch_at pi sn)) pi)
        (ground (arith, as_committed-committed (batch_at pi sn)))

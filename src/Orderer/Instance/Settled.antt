-- ===== src/Orderer/Instance/Settled.antt =====
-- What `announce` leaves: a batch that is committed, or one that waits for an earlier one.
use orthrus.Manager.Segments.{Segment}
use orthrus.Prelude.{
  ℕ, ◌≡◌, ◌<◌, ◌⊎◌, ◌==◌, if◌then◌else◌, refl, sym, subst, inl, inr, Bool, true, false, some, List,
  [], ◌∷◌, arith, count, lt32, contains, count_of_contains, insert, length, get_elem?,
}
use orthrus.Orderer.Instance.{
  Node, PbftInstance, Outcome, current, batch_at, is_committed, entry_or, wait_for, is_valid_block,
}
use orthrus.Orderer.Instance.Announce.{suspect_of}
use orthrus.Orderer.Instance.Ready.{
  Ready, IsAfter, IsAfter_trans, Fits, has_proposal, entry_or-insert,
}
use orthrus.Orderer.Instance.Finishing.{Returns}

-- The batch is committed; or it waits for an earlier block, for which a proposal or a vote has come.
abbrev pub Done : PbftInstance → ℕ → Type 0
Done pi sn =
    (is_committed (batch_at pi sn) ≡ true)
    ⊎ ((i : ℕ) × (lt32 i sn ≡ true)
        × (is_valid_block (batch_at pi i) ≡ true)
        × (0 < count sn (entry_or [] i pi.wait_for_previous_block)))

-- A run that returns, with the batch committed or waiting for an earlier one.
pub record Settles (node : Node) (pi : PbftInstance) (sn : ℕ) (o : Outcome) : Type 0 where
  pub returns : Returns node pi o
  pub settled : Done returns.state sn

abbrev joined : ℕ → List ℕ → List ℕ
joined sn xs = if contains sn xs then xs else sn ∷ xs

joined-back : (sn v : ℕ) (xs : List ℕ) → 0 < count v (joined sn xs) → (0 < count v xs) ⊎ (v ≡ sn)
joined-back sn v xs h = ground arith

back_of :
    (test : Bool) (sn v : ℕ) (a b : List ℕ)
    → 0 < count v (if test then joined sn a else b)
    → (0 < count v a) ⊎ (0 < count v b) ⊎ (v ≡ sn)
back_of true sn v a b h = elim (joined-back sn v a h) [ inl p ↦ inl p | inr e ↦ inr (inr e) ]
back_of false sn v a b h = inr (inl h)

joined-has : (sn : ℕ) (xs : List ℕ) → 0 < count sn (joined sn xs)
joined-has sn xs = ground (arith, count_of_contains sn xs)

wait-back :
    (i j sn v : ℕ) (w : List (ℕ × List ℕ))
    → 0 < count v (entry_or [] j (insert i (joined sn (entry_or [] i w)) w))
    → (0 < count v (entry_or [] i w)) ⊎ (0 < count v (entry_or [] j w)) ⊎ (v ≡ sn)
wait-back i j sn v w h =
    back_of (i == j) sn v (entry_or [] i w) (entry_or [] j w)
      (subst (λ xs. 0 < count v xs) (entry_or-insert [] i j (joined sn (entry_or [] i w)) w) h)

wait-has :
    (i sn : ℕ) (xs : List ℕ) (w : List (ℕ × List ℕ))
    → 0 < count sn (entry_or [] i (insert i (joined sn xs) w))
wait-has i sn xs w = rw (entry_or-insert [] i i (joined sn xs) w) (ground (arith, joined-has sn xs))

wait_for-Ready :
    {node : Node} (i sn : ℕ) (pi : PbftInstance)
    → Ready node pi
    → Fits node sn
    → has_proposal (batch_at pi sn) ≡ true
    → Ready node (wait_for i sn pi)
unfolding wait_for batch_at current
wait_for-Ready {node = node} i sn pi r f t = record {
  waiting = λ j v h. elim (wait-back i j sn v pi.wait_for_previous_block h) [
    | inl c ↦ r.waiting i v c
    | inr (inl c) ↦ r.waiting j v c
    | inr (inr e) ↦ subst (λ k. Fits node k × (has_proposal (batch_at pi k) ≡ true)) (sym e) (f, t)
  ];
  handled = r.handled;
  led = r.led;
  measured = r.measured;
  unsent = r.unsent;
}

pub wait_for-Settles :
    {node : Node} (i sn : ℕ) (pi : PbftInstance)
    → Ready node pi
    → Fits node sn
    → has_proposal (batch_at pi sn) ≡ true
    → lt32 i sn ≡ true
    → is_valid_block (batch_at pi i) ≡ true
    → Settles node pi sn (Outcome.done (wait_for i sn pi))
unfolding wait_for batch_at current
wait_for-Settles i sn pi r f t earlier valid = record {
  returns = record {
    state = wait_for i sn pi;
    runs = refl;
    ready = wait_for-Ready i sn pi r f t;
    after = record { fewer = omega arith; kept = λ k h. h; stays = λ k h. h };
  };
  settled = inr (
    i,
    earlier,
    valid,
    wait-has i sn (entry_or [] i pi.wait_for_previous_block) pi.wait_for_previous_block,
  );
}

-- A run from a later state, in which the batch is committed.
pub settled_from :
    {node : Node} {pi q : PbftInstance} {sn : ℕ} {o : Outcome}
    → IsAfter pi q
    → is_committed (batch_at q sn) ≡ true
    → Returns node q o
    → Settles node pi sn o
settled_from {sn = sn} a c r = record {
  returns = record {
    state = r.state;
    runs = r.runs;
    ready = r.ready;
    after = IsAfter_trans a r.after;
  };
  settled = inl (r.after.stays sn c);
}

first_of : (xs : List ℕ) → 0 < length xs → (s : ℕ) × (get_elem? xs 0 ≡ some s)
first_of [] h = elim h [ ]
first_of (x ∷ xs) h = (x, refl)

pub suspect_found :
    (segment : Segment) (aborted : Bool)
    → 0 < length segment.leaders
    → (s : ℕ) × (suspect_of segment aborted ≡ some s)
unfolding suspect_of
suspect_found segment false h = (0, refl)
suspect_found segment true h = first_of segment.leaders h

-- The same run, seen from an earlier state.
pub Settles-earlier :
    {node : Node} {before pi : PbftInstance} {sn : ℕ} {o : Outcome}
    → IsAfter before pi
    → Settles node pi sn o
    → Settles node before sn o
Settles-earlier a s = record {
  returns = record {
    state = s.returns.state;
    runs = s.returns.runs;
    ready = s.returns.ready;
    after = IsAfter_trans a s.returns.after;
  };
  settled = s.settled;
}

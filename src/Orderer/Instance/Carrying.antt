-- ===== src/Orderer/Instance/Carrying.antt =====
-- What one round of the loop of `startView` does, of orderer/pbftinstance.go.
use mathlib.Core.List.{append-nil, append_assoc}
use orthrus.Protobufs.{Batch}
use orthrus.Orderer.Votes.{PbftBatch}
use orthrus.Prelude.{
  ℕ, ◌==◌, ◌||◌, ◌≡◌, ◌∙◌, refl, sym, ap, inl, inr, Bool, true, false, not, if◌then◌else◌, Option,
  none, some, List, [], ◌∷◌, ◌++◌, lookup, insert, arith, lookup-insert, Bool-cases,
}
use orthrus.Orderer.Instance.{Call, PbftInstance, entry_or, call, current, batch_at, set_batch}
use orthrus.Orderer.Instance.Announce.{set_view_change_timer}
use orthrus.Orderer.Instance.Ready.{batch_at-set_batch}
use orthrus.Orderer.Instance.View.{
  fresh_batch, take_committed, resurrect_previous, carry_over, start_batch,
}

-- A batch that `startView` can carry over: a proposal for it that is not committed has its batch.
abbrev pub can_carry : Option PbftBatch → Bool
can_carry none = false
can_carry (some b) =
    b.committed || (not b.preprepared || elim b.batch [ none ↦ false | some batch ↦ true ])

-- The batch of the new view: a fresh one, with the digest and the batch of one that is committed.
abbrev pub carried : Bool → PbftBatch → PbftBatch
carried timed previous = record fresh_batch {
  view_change_timer = timed;
  committed = previous.committed;
  digest = if previous.committed then previous.digest else [];
  batch = if previous.committed then previous.batch else none;
}

abbrev pub carried_or : Bool → Option PbftBatch → Option PbftBatch
carried_or timed none = none
carried_or timed (some previous) = some (carried timed previous)

abbrev pub resurrected : Bool → Bool → Option Batch → List Call
resurrected false true (some batch) = Call.resurrect batch ∷ []
resurrected committed preprepared batch = []

abbrev pub resurrected_of : Option PbftBatch → List Call
resurrected_of none = []
resurrected_of (some b) = resurrected b.committed b.preprepared b.batch

-- The calls for the sequence numbers: a timer for each, if there is a commit time, and the requests of
-- a proposal that is not committed go back.
abbrev pub start_calls : Bool → List (ℕ × PbftBatch) → List ℕ → List Call
start_calls timed previous [] = []
start_calls timed previous (sn ∷ sns) =
    (if timed then Call.start_timer sn ∷ [] else [])
    ++ (resurrected_of (lookup sn previous) ++ start_calls timed previous sns)

-- `later` is `pi` with the batch `b` for `sn`, and with `calls` more calls.
pub record Puts (sn : ℕ) (b : PbftBatch) (calls : List Call) (pi later : PbftInstance)
    : Type 0 where
  pub same_view : later.view ≡ pi.view
  pub put : (k : ℕ) → batch_at later k ≡ (if sn == k then some b else batch_at pi k)
  pub others : (w : ℕ) → (w == pi.view) ≡ false → lookup w later.batches ≡ lookup w pi.batches
  pub called : later.calls ≡ pi.calls ++ calls

set_batch-Puts : (sn : ℕ) (b : PbftBatch) (pi : PbftInstance) → Puts sn b [] pi (set_batch sn b pi)
unfolding set_batch
set_batch-Puts sn b pi = record {
  same_view = refl;
  put = λ k. batch_at-set_batch sn k b pi;
  others = λ w h. ground (arith, lookup-insert pi.view w (insert sn b (current pi)) pi.batches);
  called = sym (append-nil pi.calls);
}

put_again :
    {sn : ℕ} {b : PbftBatch} {cs : List Call} {pi later : PbftInstance} (c : PbftBatch)
    → Puts sn b cs pi later
    → Puts sn c cs pi (set_batch sn c later)
unfolding set_batch
put_again {sn} {b} {cs} {pi} {later} c p = record {
  same_view = p.same_view;
  put = λ k. ground (arith, batch_at-set_batch sn k c later, p.put k);
  others = λ w h. ground (
    arith,
    lookup-insert later.view w (insert sn c (current later)) later.batches,
    p.others w h,
    p.same_view,
  );
  called = p.called;
}

call-Puts :
    {sn : ℕ} {b : PbftBatch} {cs : List Call} {pi later : PbftInstance} (c : Call)
    → Puts sn b cs pi later
    → Puts sn b (cs ++ c ∷ []) pi (call c later)
unfolding call batch_at current
call-Puts {sn} {b} {cs} {pi} {later} c p = record {
  same_view = p.same_view;
  put = p.put;
  others = p.others;
  called = rw p.called (append_assoc pi.calls cs (c ∷ []));
}

abbrev pub timer : Bool → ℕ → List Call
timer timed sn = if timed then Call.start_timer sn ∷ [] else []

abbrev timed_batch : Bool → PbftBatch
timed_batch timed = record fresh_batch { view_change_timer = timed }

abbrev started : Bool → ℕ → PbftInstance → PbftInstance
started timed sn pi =
    let made = set_batch sn fresh_batch pi in
    if timed then set_view_change_timer sn fresh_batch made else made

started-Puts :
    (timed : Bool) (sn : ℕ) (pi : PbftInstance)
    → Puts sn (timed_batch timed) (timer timed sn) pi (started timed sn pi)
unfolding set_view_change_timer
started-Puts false sn pi = set_batch-Puts sn fresh_batch pi
started-Puts true sn pi =
    call-Puts (Call.start_timer sn) (
      put_again (record fresh_batch { view_change_timer = true })
        (set_batch-Puts sn fresh_batch pi))

-- A result, and what it has put.
pub record Does (o : Option PbftInstance) (sn : ℕ) (b : PbftBatch) (cs : List Call)
    (pi : PbftInstance) : Type 0 where
  pub later : PbftInstance
  pub returned : o ≡ some later
  pub puts : Puts sn b cs pi later

module _ (timed : Bool) {sn : ℕ} {cs : List Call} {pi st : PbftInstance}
    (p : Puts sn (timed_batch timed) cs pi st) where
  present : batch_at st sn ≡ some (timed_batch timed)
  present = ground (arith, p.put sn)

  resurrect-Does :
      (preprepared : Bool) (batch : Option Batch)
      → (not preprepared || elim batch [ none ↦ false | some b ↦ true ]) ≡ true
      → Does
          (if preprepared then resurrect_previous batch st else some st)
          sn
          (timed_batch timed)
          (cs ++ resurrected false preprepared batch)
          pi
  unfolding resurrect_previous
  resurrect-Does false batch h = record { later = st; returned = refl; puts = rw (append-nil cs) p }
  resurrect-Does true none h = absurd (ground (arith, h))
  resurrect-Does true (some batch) h = record {
    later = call (Call.resurrect batch) st;
    returned = refl;
    puts = call-Puts (Call.resurrect batch) p;
  }

  carry_over-Does :
      (previous : PbftBatch)
      → can_carry (some previous) ≡ true
      → Does
          (carry_over sn (some previous) st)
          sn
          (carried timed previous)
          (cs ++ resurrected_of (some previous))
          pi
  unfolding carry_over take_committed
  carry_over-Does previous h = elim (Bool-cases previous.committed) [
    | inl e ↦
        rw (e, present, append-nil cs, carry_over)
          (record {
            later = _;
            returned = refl;
            puts = put_again (carried timed (record previous { committed = true })) p;
          })
    | inr e ↦
        rw (e, carry_over)
          (resurrect-Does previous.preprepared previous.batch (ground (arith, h, e)))
  ]

abbrev pub batches_of : Option (List (ℕ × PbftBatch)) → List (ℕ × PbftBatch)
batches_of none = []
batches_of (some m) = m

-- One round of the loop: the batch that it makes, and its calls.
pub start_batch-Does :
    (timed : Bool) (last sn : ℕ) (previous : PbftBatch) (pi : PbftInstance)
    → (pi.view == 0) ≡ false
    → (last == pi.view) ≡ false
    → lookup sn (entry_or [] last pi.batches) ≡ some previous
    → can_carry (some previous) ≡ true
    → Does
        (start_batch timed last sn pi)
        sn
        (carried timed previous)
        (timer timed sn ++ resurrected_of (some previous))
        pi
unfolding start_batch entry_or
start_batch-Does timed last sn previous pi nonzero other found ok =
    let p = started-Puts timed sn pi in
    let same : lookup sn (entry_or [] last (started timed sn pi).batches) ≡ some previous =
      ap (λ o. lookup sn (batches_of o)) (p.others last other) ∙ found in
    rw (p.same_view, nonzero, same, start_batch) (carry_over-Does timed p previous ok)

-- ===== src/Orderer/Instance/Starting.antt =====
-- What a new view starts with, of orderer/pbftinstance.go.
use mathlib.Core.List.{append-nil, append_assoc}
use orthrus.Orderer.Votes.{PbftBatch}
use orthrus.Prelude.{
  ℕ, ◌==◌, ◌&&◌, ◌≡◌, ◌≤◌, ◌<◌, ◌∙◌, refl, sym, ap, inl, inr, Bool, true, false, not, if◌then◌else◌,
  Option, none, some, List, [], ◌∷◌, ◌++◌, lookup, insert, contains, arith, lookup-insert,
  max_int32, Bool-cases, Option-cases, lt32, ==_iff,
}
use orthrus.Orderer.Instance.{Call, PbftInstance, Outcome, entry_or, call, current, batch_at}
use orthrus.Orderer.Instance.Ready.{entry_or-insert}
use orthrus.Orderer.Instance.View.{start_batches, enter_view, finished, start_view}
use orthrus.Orderer.Instance.Carrying.{
  can_carry, carried, carried_or, resurrected_of, start_calls, timer, batches_of, start_batch-Does,
}

-- What the whole loop does, where `previous` are the batches of the view before.
record Starts (o : Option PbftInstance) (timed : Bool) (previous : List (ℕ × PbftBatch))
    (sns : List ℕ) (pi : PbftInstance) : Type 0 where
  later : PbftInstance
  returned : o ≡ some later
  same_view : later.view ≡ pi.view
  put :
      (k : ℕ)
      → batch_at later k
        ≡ (if contains k sns then carried_or timed (lookup k previous) else batch_at pi k)
  others : (w : ℕ) → (w == pi.view) ≡ false → lookup w later.batches ≡ lookup w pi.batches
  called : later.calls ≡ pi.calls ++ start_calls timed previous sns

-- The last round for a sequence number decides; all rounds for it do the same.
latest :
    (timed : Bool) (sn k : ℕ) (sns : List ℕ) (previous : List (ℕ × PbftBatch)) (b : PbftBatch)
    (before after : Option PbftBatch)
    → lookup sn previous ≡ some b
    → after ≡ (if sn == k then some (carried timed b) else before)
    → (if contains k sns then carried_or timed (lookup k previous) else after)
      ≡ (if contains k (sn ∷ sns) then carried_or timed (lookup k previous) else before)
latest timed sn k sns previous b before after e h = elim (Bool-cases (sn == k)) [
  | inr f ↦ ground (arith, h, f)
  | inl f ↦
      let found : lookup k previous ≡ some b =
        ap (λ j. lookup j previous) (sym ((==_iff sn k).0 f)) ∙ e in
      rw (h, f, found) (ground arith)
]

calls_assoc : (a b c d : List Call) → (a ++ (b ++ c)) ++ d ≡ a ++ (b ++ (c ++ d))
calls_assoc a b c d = append_assoc a (b ++ c) d ∙ ap (λ x. a ++ x) (append_assoc b c d)

start_batches-Starts :
    (timed : Bool) (last : ℕ) (previous : List (ℕ × PbftBatch)) (sns : List ℕ) (pi : PbftInstance)
    → (pi.view == 0) ≡ false
    → (last == pi.view) ≡ false
    → entry_or [] last pi.batches ≡ previous
    → ((k : ℕ) → contains k sns ≡ true → can_carry (lookup k previous) ≡ true)
    → Starts (start_batches timed last sns pi) timed previous sns pi
unfolding start_batches entry_or
start_batches-Starts timed last previous [] pi nonzero other same ok = record {
  later = pi;
  returned = refl;
  same_view = refl;
  put = λ k. refl;
  others = λ w h. refl;
  called = sym (append-nil pi.calls);
}
start_batches-Starts timed last previous (sn ∷ sns) pi nonzero other same ok =
    elim (Option-cases (lookup sn previous)) [
      | inl e ↦ absurd (ground (arith, ok sn, e))
      | inr (b, e) ↦
          let d =
            start_batch-Does timed last sn b pi nonzero other (ap (lookup sn) same ∙ e)
              (ground (arith, ok sn, e)) in
          let q = d.puts in
          let r =
            start_batches-Starts timed last previous sns d.later (rw q.same_view nonzero)
              (rw q.same_view other) (ap batches_of (q.others last other) ∙ same)
              (λ k h. ok k (ground (arith, h))) in
          rw (d.returned, start_batches)
            (record {
              later = r.later;
              returned = r.returned;
              same_view = r.same_view ∙ q.same_view;
              put = λ k. r.put k ∙ latest timed sn k sns previous b _ _ e (q.put k);
              others = λ w h. r.others w (rw q.same_view h) ∙ q.others w h;
              called =
                  rw (r.called, q.called, e)
                    (calls_assoc pi.calls (timer timed sn) (resurrected_of (some b))
                      (start_calls timed previous sns));
            })
    ]

-- The instance before the loop.
abbrev entered : ℕ → PbftInstance → PbftInstance
entered view pi = record pi {
  view = view;
  batches = insert view [] pi.batches;
  calls = pi.calls ++ Call.stop_proposing ∷ [];
}

start_view-later :
    (timed : Bool) (view : ℕ) (pi : PbftInstance)
    → pi.view < view
    → view ≤ max_int32
    → lookup view pi.batches ≡ none
    → start_view timed view pi
      ≡ finished (start_batches timed pi.view pi.segment.sns (entered view pi))
unfolding start_view enter_view call
start_view-later timed view pi newer small empty =
    let not_older : lt32 view pi.view ≡ false = unfold lt32 in ground arith in
    let positive : lt32 0 view ≡ true = unfold lt32 in ground arith in
    let other : (not (pi.view == 0) && pi.view == view) ≡ false = ground arith in
    rw (not_older, other, empty, positive, start_view) refl

-- In view `pi.view`, where each sequence number of the segment has a batch, and each proposal that is not
-- committed has its batch: startView returns for a later view that has no batches yet. The new view then has
-- for each sequence number of the segment a fresh batch, which keeps the digest and the batch of one that is
-- committed, and nothing else; the batches of any other view are the same; and it has stopped proposing, and
-- then for each sequence number in turn set a timer, if there is a commit time, and resurrected the
-- batch of a proposal that is not committed.
pub start_view-carried :
    (timed : Bool) (view k w : ℕ) (pi : PbftInstance)
    → pi.view < view
    → view ≤ max_int32
    → lookup view pi.batches ≡ none
    → ((j : ℕ) → contains j pi.segment.sns ≡ true → can_carry (batch_at pi j) ≡ true)
    → (w == view) ≡ false
    → (later : PbftInstance) × (start_view timed view pi ≡ Outcome.done later)
      × (later.view ≡ view)
      × (batch_at later k
          ≡ (if contains k pi.segment.sns then carried_or timed (batch_at pi k) else none))
      × (lookup w later.batches ≡ lookup w pi.batches)
      × (later.calls
          ≡ pi.calls ++ Call.stop_proposing ∷ start_calls timed (current pi) pi.segment.sns)
unfolding finished batch_at current entry_or
start_view-carried timed view k w pi newer small empty ok elsewhere =
    let last : entry_or [] pi.view (insert view [] pi.batches) ≡ current pi =
      ground (arith, entry_or-insert [] view pi.view [] pi.batches) in
    let empty_now : entry_or [] view (insert view [] pi.batches) ≡ [] =
      ground (arith, entry_or-insert [] view view [] pi.batches) in
    let nothing : batch_at (entered view pi) k ≡ none = ap (lookup k) empty_now in
    let s =
      start_batches-Starts timed pi.view (current pi) pi.segment.sns (entered view pi)
        (ground arith) (ground arith) last ok in
    (
      s.later,
      rw (start_view-later timed view pi newer small empty, s.returned) refl,
      s.same_view,
      s.put k ∙ rw nothing refl,
      s.others w elsewhere ∙ ground (arith, lookup-insert view w [] pi.batches, elsewhere),
      s.called
          ∙ append_assoc pi.calls (Call.stop_proposing ∷ [])
              (start_calls timed (current pi) pi.segment.sns),
    )

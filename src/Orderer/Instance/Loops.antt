-- ===== src/Orderer/Instance/Loops.antt =====
-- The loops of `announce` over the sequence numbers of a leader end.
use orthrus.Prelude.{
  ℕ, zero, suc, ◌+◌, ap, subst, ◌≡◌, ◌∙◌, ◌==◌, ◌≤◌, ◌<◌, refl, inl, inr, Bool, true, false, some,
  arith, add32, lt32, modulus, Bool-cases,
}
use orthrus.Orderer.Instance.{
  Node, PbftInstance, Search, Call, call, as_committed, batch_at, current, is_valid_block,
  find_previous, commit_empty, empty_entry,
}
use orthrus.Orderer.Instance.Ready.{
  Ready, IsAfter, IsAfter_refl, IsAfter_trans, place, batch_at-set_batch, marked, call-Ready,
  call-IsAfter, marked-Ready, marked-IsAfter,
}

abbrev pub is_finished : Search → Bool
is_finished Search.unfinished = false
is_finished Search.missing = true
is_finished (Search.found i) = true

pub place-lt : (i sn : ℕ) → lt32 i sn ≡ true → place i < place sn
unfolding lt32
place-lt i sn h = ground arith

pub place-ge : (i sn : ℕ) → lt32 i sn ≡ false → place sn ≤ place i
unfolding lt32
place-ge i sn h = ground arith

abbrev found_at : ℕ → Search → ℕ
found_at d (Search.found i) = i
found_at d s = d

-- The next sequence number of a leader is later, where it does not overflow.
pub place-add32 :
    (i n sn : ℕ) → place i < place sn → place sn + n ≤ modulus → place (add32 i n) ≡ place i + n
unfolding add32
place-add32 i n sn h k = omega arith

place-ne : (i sn : ℕ) → place i < place sn → (i == sn) ≡ false
place-ne i sn h = ground arith

marked-other :
    (called : PbftInstance) (i sn : ℕ)
    → place i < place sn
    → batch_at (marked called i) sn ≡ batch_at called sn
marked-other called i sn h =
    rw (batch_at-set_batch i sn (as_committed (batch_at called i)) called, place-ne i sn h) refl

module _ (n sn : ℕ) (positive : 0 < n) (fits : place sn + n ≤ modulus) where
  pub find_previous-ends :
      (steps : ℕ) (pi : PbftInstance) (i : ℕ)
      → 0 < steps
      → place sn < place i + steps
      → is_finished (find_previous steps n pi i sn) ≡ true
  unfolding find_previous
  find_previous-ends zero pi i p h = elim p [ ]
  find_previous-ends (suc steps) pi i p h = elim (Bool-cases (lt32 i sn)) [
    | inr e ↦ rw (e, find_previous) refl
    | inl e ↦ elim (Bool-cases (is_valid_block (batch_at pi i))) [
      | inl v ↦ rw (e, v, find_previous) refl
      | inr v ↦
          rw (e, v, find_previous)
            (find_previous-ends steps pi (add32 i n) (omega (arith, place-lt i sn e))
              (omega (arith, place-lt i sn e, place-add32 i n sn (place-lt i sn e) fits)))
    ]
  ]

  pub find_previous-found :
      (steps : ℕ) (pi : PbftInstance) (first i : ℕ)
      → find_previous steps n pi first sn ≡ Search.found i
      → (lt32 i sn ≡ true) × (is_valid_block (batch_at pi i) ≡ true)
  unfolding find_previous
  find_previous-found zero pi first i h = absurd cc
  find_previous-found (suc steps) pi first i h = elim (Bool-cases (lt32 first sn)) [
    | inr e ↦ let k : Search.missing ≡ Search.found i = rw (e, find_previous) at h in absurd cc
    | inl e ↦ elim (Bool-cases (is_valid_block (batch_at pi first))) [
      | inl v ↦
          let same : first ≡ i = ap (found_at i) (rw (e, v, find_previous) at h) in
          (
            subst (λ j. lt32 j sn ≡ true) same e,
            subst (λ j. is_valid_block (batch_at pi j) ≡ true) same v,
          )
      | inr v ↦ find_previous-found steps pi (add32 first n) i (rw (e, v, find_previous) at h)
    ]
  ]

  pub commit_empty-runs :
      {node : Node} (aborted : Bool) (propose_ts commit_ts steps : ℕ) (pi : PbftInstance) (i : ℕ)
      → 0 < steps
      → place sn < place i + steps
      → Ready node pi
      → (p : PbftInstance) × (commit_empty steps n aborted propose_ts commit_ts i sn pi ≡ some p)
        × (batch_at p sn ≡ batch_at pi sn)
        × Ready node p
        × IsAfter pi p
  unfolding commit_empty batch_at current call
  commit_empty-runs aborted propose_ts commit_ts zero pi i p h r = elim p [ ]
  commit_empty-runs aborted propose_ts commit_ts (suc steps) pi i p h r =
      elim (Bool-cases (lt32 i sn)) [
        | inr e ↦ (pi, rw (e, commit_empty) refl, refl, r, IsAfter_refl pi)
        | inl e ↦
            let called =
              call (Call.announcer_announce (empty_entry i aborted propose_ts commit_ts)) pi in
            let (q, runs, same, ready, after) =
              commit_empty-runs aborted propose_ts commit_ts steps (marked called i) (add32 i n)
                (omega (arith, place-lt i sn e))
                (omega (arith, place-lt i sn e, place-add32 i n sn (place-lt i sn e) fits))
                (marked-Ready called i (call-Ready _ r)) in
            (
              q,
              rw (e, commit_empty) runs,
              same ∙ marked-other called i sn (place-lt i sn e),
              ready,
              IsAfter_trans (IsAfter_trans (call-IsAfter _ pi) (marked-IsAfter called i)) after,
            )
      ]

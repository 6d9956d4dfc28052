-- ===== src/Checkpoint/Stable.antt =====
-- A stable checkpoint carries the votes of a quorum, and a quorum of votes makes one.
use mathlib.Core.List.{append-nil, append_assoc}
use orthrus.Prelude.{
  subst, ℕ, ◌+◌, ◌≤◌, ◌<◌, ◌≡◌, refl, inl, inr, Bool, true, if◌then◌else◌, ◌==◌, ◌&&◌, none, some,
  List, [], ◌∷◌, ◌++◌, arith, lookup, insert, lookup-insert, keys, count, count-keys-insert,
  IsDistinct, length, le32, leb, Bool-cases, Option-cases,
}
use orthrus.Log.Checkpoints.{StableCheckpoint, commit_checkpoint, get_checkpoint, is_newer}
use orthrus.Checkpoint.{
  Received, State, is_current, senders_of, prune_old, dummy_proof, handle, run, init,
}

-- How often a sender's message for a sequence number stands in a run.
abbrev pub sent : ℕ → ℕ → List Received → ℕ
sent sn sender [] = 0
sent sn sender (m ∷ ms) = (if m.sn == sn && m.sender_id == sender then 1 else 0) + sent sn sender ms

pub sent-append :
    (sn sender : ℕ) (front back : List Received)
    → sent sn sender (front ++ back) ≡ sent sn sender front + sent sn sender back
sent-append sn sender [] back = omega arith
sent-append sn sender (m ∷ front) back = omega (arith, sent-append sn sender front back)

-- The registered senders are distinct, have sent their message, and are too few for a quorum.
pub record Votes (history : List Received) (sn : ℕ) (voters : List ℕ) : Type 0 where
  pub distinct : IsDistinct voters
  pub genuine : (k : ℕ) → 0 < count k voters → 0 < sent sn k history

pub record Inv (quorum : ℕ) (history : List Received) (s : State) : Type 0 where
  pub registered :
      (sn : ℕ) (senders : List (ℕ × Bool))
      → lookup sn s.pending ≡ some senders
      → Votes history sn (keys senders)
  pub certified :
      (c : StableCheckpoint)
      → get_checkpoint s.log ≡ some c
      → Votes history c.sn (keys c.proof) × (quorum ≤ length c.proof)

Votes-grow :
    (history more : List Received) (sn : ℕ) (voters : List ℕ)
    → Votes history sn voters
    → Votes (history ++ more) sn voters
Votes-grow history more sn voters v = record {
  distinct = v.distinct;
  genuine = λ k h. omega (arith, sent-append sn k history more, v.genuine k h);
}

Votes-insert :
    (history : List Received) (m : Received) (senders : List (ℕ × Bool))
    → Votes history m.sn (keys senders)
    → Votes (history ++ m ∷ []) m.sn (keys (insert m.sender_id true senders))
Votes-insert history m senders v = record {
  distinct = λ k. ground (arith, count-keys-insert m.sender_id k true senders, v.distinct k);
  genuine = λ k h. ground (
    arith,
    sent-append m.sn k history (m ∷ []),
    count-keys-insert m.sender_id k true senders,
    v.genuine k,
  );
}

senders_of-Votes :
    (quorum : ℕ) (history : List Received) (s : State) (sn : ℕ)
    → Inv quorum history s
    → Votes history sn (keys (senders_of sn s.pending))
unfolding senders_of
senders_of-Votes quorum history s sn inv = elim (Option-cases (lookup sn s.pending)) [
  | inl e ↦
      rw (e, senders_of)
        (record { distinct = λ k. omega arith; genuine = λ k h. absurd (omega arith) })
  | inr (senders, e) ↦ rw (e, senders_of) (inv.registered sn senders e)
]

pub lookup-prune_old :
    (stable sn : ℕ) (pending : List (ℕ × List (ℕ × Bool)))
    → lookup sn (prune_old stable pending) ≡ (if le32 sn stable then none else lookup sn pending)
unfolding prune_old
lookup-prune_old stable sn [] = ground arith
lookup-prune_old stable sn ((k, v) ∷ rest) = ground (arith, lookup-prune_old stable sn rest)

keys-dummy_proof : (senders : List (ℕ × Bool)) → keys (dummy_proof senders) ≡ keys senders
unfolding dummy_proof
keys-dummy_proof [] = refl
keys-dummy_proof ((k, b) ∷ rest) = ground (arith, keys-dummy_proof rest)

length-dummy_proof : (senders : List (ℕ × Bool)) → length (dummy_proof senders) ≡ length senders
unfolding dummy_proof
length-dummy_proof [] = refl
length-dummy_proof ((k, b) ∷ rest) = omega (arith, length-dummy_proof rest)

module _ (quorum : ℕ) (history : List Received) (s : State) (m : Received)
    (inv : Inv quorum history s) where
  abbrev senders : List (ℕ × Bool)
  senders = insert m.sender_id true (senders_of m.sn s.pending)

  senders-Votes : Votes (history ++ m ∷ []) m.sn (keys senders)
  senders-Votes =
      Votes-insert history m (senders_of m.sn s.pending)
        (senders_of-Votes quorum history s m.sn inv)

  registered_then :
      (sn : ℕ) (vs : List (ℕ × Bool))
      → lookup sn (insert m.sn senders s.pending) ≡ some vs
      → Votes (history ++ m ∷ []) sn (keys vs)
  registered_then sn vs h = elim (Bool-cases (m.sn == sn)) [
    | inl q ↦
        let at : sn ≡ m.sn = ground arith in
        let e : senders ≡ vs = ground (arith, lookup-insert m.sn sn senders s.pending) in
        rw (at, ← e) senders-Votes
    | inr q ↦
        Votes-grow history (m ∷ []) sn (keys vs)
          (inv.registered sn vs (ground (arith, lookup-insert m.sn sn senders s.pending)))
  ]

  certified_then :
      (c : StableCheckpoint)
      → get_checkpoint s.log ≡ some c
      → Votes (history ++ m ∷ []) c.sn (keys c.proof) × (quorum ≤ length c.proof)
  certified_then c h =
      let (v, n) = inv.certified c h in (Votes-grow history (m ∷ []) c.sn (keys c.proof) v, n)

  commit-certified :
      quorum ≤ length senders
      → (c : StableCheckpoint)
      → get_checkpoint (commit_checkpoint s.log (record { sn = m.sn; proof = dummy_proof senders }))
        ≡ some c
      → Votes (history ++ m ∷ []) c.sn (keys c.proof) × (quorum ≤ length c.proof)
  unfolding commit_checkpoint get_checkpoint
  commit-certified enough c h = elim (Bool-cases (is_newer s.log.checkpoint new)) [
    | inr old ↦ certified_then c (ground arith)
    | inl newer ↦
        let e : new ≡ c = ground arith in
        subst (λ d. Votes (history ++ m ∷ []) d.sn (keys d.proof) × (quorum ≤ length d.proof)) e
          (rw (keys-dummy_proof senders) senders-Votes, rw (length-dummy_proof senders) enough)
  ]
    where
      new : StableCheckpoint
      new = record { sn = m.sn; proof = dummy_proof senders }

  handle-Inv : Inv quorum (history ++ m ∷ []) (handle quorum s m)
  unfolding handle
  handle-Inv = elim (Bool-cases (is_current (get_checkpoint s.log) m.sn)) [
    | inr obsolete ↦
        rw (obsolete, handle)
          (record {
            registered =
                λ sn vs h. Votes-grow history (m ∷ []) sn (keys vs) (inv.registered sn vs h);
            certified = certified_then;
          })
    | inl current ↦ elim (Bool-cases (leb quorum (length senders))) [
      | inr few ↦
          rw (current, few, handle)
            (record { registered = registered_then; certified = certified_then })
      | inl enough ↦
          rw (current, enough, handle)
            (record {
              registered = λ sn vs h.
                  registered_then sn vs
                    (ground (arith, lookup-prune_old m.sn sn (insert m.sn senders s.pending)));
              certified = commit-certified (ground arith);
            })
    ]
  ]

run-Inv :
    (quorum : ℕ) (history : List Received) (s : State) (ms : List Received)
    → Inv quorum history s
    → Inv quorum (history ++ ms) (run quorum s ms)
unfolding run
run-Inv quorum history s [] inv = rw append-nil inv
run-Inv quorum history s (m ∷ ms) inv =
    rw append_assoc at (
      run-Inv quorum (history ++ m ∷ []) (handle quorum s m) ms (handle-Inv quorum history s m inv))

-- A checkpoint that is stable after a run from the start carries at least a quorum of distinct
-- voters, and each of them sent a message for its sequence number.
pub run-certified :
    (quorum : ℕ) (subscribers : List (List StableCheckpoint)) (ms : List Received)
    (c : StableCheckpoint)
    → get_checkpoint (run quorum (init subscribers) ms).log ≡ some c
    → (quorum ≤ length c.proof)
      × IsDistinct (keys c.proof)
      × ((k : ℕ) → 0 < count k (keys c.proof) → 0 < sent c.sn k ms)
unfolding get_checkpoint
run-certified quorum subscribers ms c h =
    let inv =
      run-Inv quorum [] (init subscribers) ms
        (record { registered = λ sn vs e. cc; certified = λ d e. absurd (cc) }) in
    let (v, n) = inv.certified c h in (n, v.distinct, v.genuine)

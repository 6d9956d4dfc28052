-- ===== src/Checkpoint/Progress.antt =====
-- Once a quorum of nodes has sent its messages for a sequence number, a checkpoint at or above it is
-- stable.
use mathlib.Core.List.{append-nil, append_assoc}
use orthrus.Prelude.{
  ℕ, ◌+◌, ◌≤◌, ◌<◌, ◌≡◌, refl, inl, inr, Bool, true, false, if◌then◌else◌, ◌==◌, ◌&&◌, Option, none,
  some, List, [], ◌∷◌, ◌++◌, arith, insert, lookup-insert, keys, count, count-keys-insert,
  IsDistinct, length, lt32, le32, leb, Bool-cases, length-le_of_subset,
}
use orthrus.Log.Checkpoints.{
  StableCheckpoint, Checkpoints, commit_checkpoint, get_checkpoint, is_newer,
}
use orthrus.Checkpoint.{
  Received, State, is_current, senders_of, prune_old, dummy_proof, handle, run, init,
}
use orthrus.Checkpoint.Stable.{sent, sent-append, lookup-prune_old}

record Complete (quorum : ℕ) (history : List Received) (s : State) : Type 0 where
  collected :
      (sn k : ℕ)
      → is_current (get_checkpoint s.log) sn ≡ true
      → 0 < sent sn k history
      → 0 < count k (keys (senders_of sn s.pending))
  few :
      (sn : ℕ)
      → is_current (get_checkpoint s.log) sn ≡ true
      → length (senders_of sn s.pending) < quorum

sent-one :
    (sn k : ℕ) (history : List Received) (m : Received)
    → sent sn k (history ++ m ∷ [])
      ≡ sent sn k history + (if m.sn == sn && m.sender_id == k then 1 else 0)
sent-one sn k history m = omega (arith, sent-append sn k history (m ∷ []))

senders_of-insert :
    (sn other : ℕ) (vs : List (ℕ × Bool)) (pending : List (ℕ × List (ℕ × Bool)))
    → senders_of other (insert sn vs pending)
      ≡ (if sn == other then vs else senders_of other pending)
unfolding senders_of
senders_of-insert sn other vs pending = ground (arith, lookup-insert sn other vs pending)

senders_of-prune_old :
    (stable sn : ℕ) (pending : List (ℕ × List (ℕ × Bool)))
    → le32 sn stable ≡ false
    → senders_of sn (prune_old stable pending) ≡ senders_of sn pending
unfolding senders_of
senders_of-prune_old stable sn pending h = ground (arith, lookup-prune_old stable sn pending)

-- A checkpoint that passes the test of the handler passes that of the log.
committed :
    (log : Checkpoints) (c : StableCheckpoint)
    → is_current (get_checkpoint log) c.sn ≡ true
    → get_checkpoint (commit_checkpoint log c) ≡ some c
unfolding commit_checkpoint get_checkpoint is_current is_newer
committed log c h = ground arith

current_after :
    (o : Option StableCheckpoint) (c : StableCheckpoint) (sn : ℕ)
    → is_current o c.sn ≡ true
    → is_current (some c) sn ≡ true
    → (is_current o sn ≡ true) × (le32 sn c.sn ≡ false) × ((c.sn == sn) ≡ false)
unfolding is_current lt32 le32
current_after none c sn h k = (refl, ground arith, ground arith)
current_after (some d) c sn h k = (ground arith, ground arith, ground arith)

module _ (quorum : ℕ) (history : List Received) (s : State) (m : Received)
    (inv : Complete quorum history s) where
  abbrev senders : List (ℕ × Bool)
  senders = insert m.sender_id true (senders_of m.sn s.pending)

  length-senders :
      (sn : ℕ) → (m.sn == sn) ≡ true → senders_of m.sn s.pending ≡ senders_of sn s.pending
  length-senders sn q = ground arith

  collected_then :
      (sn k : ℕ)
      → is_current (get_checkpoint s.log) sn ≡ true
      → 0 < sent sn k (history ++ m ∷ [])
      → 0 < count k (keys (senders_of sn (insert m.sn senders s.pending)))
  collected_then sn k c h = rw (senders_of-insert m.sn sn senders s.pending) (
      ground (
        arith,
        sent-one sn k history m,
        count-keys-insert m.sender_id k true (senders_of m.sn s.pending),
        inv.collected sn k c,
        length-senders sn,
      ))

  few_then :
      (sn : ℕ)
      → length senders < quorum
      → is_current (get_checkpoint s.log) sn ≡ true
      → length (senders_of sn (insert m.sn senders s.pending)) < quorum
  few_then sn l c = rw (senders_of-insert m.sn sn senders s.pending) (ground (arith, inv.few sn c))

  -- What is current after the commit was so before it, and it is above the new checkpoint.
  after_commit :
      (proof : List (ℕ × List ℕ)) (sn : ℕ)
      → is_current (get_checkpoint s.log) m.sn ≡ true
      → is_current
          (get_checkpoint (commit_checkpoint s.log (record { sn = m.sn; proof = proof })))
          sn
        ≡ true
      → (is_current (get_checkpoint s.log) sn ≡ true)
        × (le32 sn m.sn ≡ false)
        × ((m.sn == sn) ≡ false)
  after_commit proof sn cur c =
      let new : StableCheckpoint = record { sn = m.sn; proof = proof } in
      current_after (get_checkpoint s.log) new sn cur (rw (committed s.log new cur) at c)

  obsolete_differs :
      (sn : ℕ)
      → is_current (get_checkpoint s.log) m.sn ≡ false
      → is_current (get_checkpoint s.log) sn ≡ true
      → (m.sn == sn) ≡ false
  obsolete_differs sn o c = ground arith

  handle-Complete : Complete quorum (history ++ m ∷ []) (handle quorum s m)
  unfolding handle
  handle-Complete = elim (Bool-cases (is_current (get_checkpoint s.log) m.sn)) [
    | inr obsolete ↦
        rw (obsolete, handle)
          (record {
            collected = λ sn k c h.
                inv.collected sn k c
                  (ground (arith, sent-one sn k history m, obsolete_differs sn obsolete c));
            few = inv.few;
          })
    | inl current ↦ elim (Bool-cases (leb quorum (length senders))) [
      | inr less ↦
          rw (current, less, handle)
            (record { collected = collected_then; few = λ sn c. few_then sn (ground arith) c })
      | inl enough ↦
          rw (current, enough, handle)
            (record {
              collected = λ sn k c h.
                  let (before, above, other) = after_commit (dummy_proof senders) sn current c in
                  rw (senders_of-prune_old m.sn sn (insert m.sn senders s.pending) above)
                    (collected_then sn k before h);
              few = λ sn c.
                  let (before, above, other) = after_commit (dummy_proof senders) sn current c in
                  rw
                    (
                      senders_of-prune_old m.sn sn (insert m.sn senders s.pending) above,
                      senders_of-insert m.sn sn senders s.pending,
                      other,
                    )
                    (inv.few sn before);
            })
    ]
  ]

length-keys : (senders : List (ℕ × Bool)) → length (keys senders) ≡ length senders
length-keys [] = refl
length-keys ((k, b) ∷ rest) = omega (arith, length-keys rest)

run-Complete :
    (quorum : ℕ) (history : List Received) (s : State) (ms : List Received)
    → Complete quorum history s
    → Complete quorum (history ++ ms) (run quorum s ms)
unfolding run
run-Complete quorum history s [] inv = rw append-nil inv
run-Complete quorum history s (m ∷ ms) inv = rw append_assoc at (
    run-Complete quorum (history ++ m ∷ []) (handle quorum s m) ms
      (handle-Complete quorum history s m inv))

init-Complete :
    (quorum : ℕ) (subscribers : List (List StableCheckpoint))
    → 0 < quorum
    → Complete quorum [] (init subscribers)
unfolding senders_of
init-Complete quorum subscribers pos = record {
  collected = λ n k c z. absurd (omega arith);
  few = λ n c. omega arith;
}

-- The log's stable checkpoint is at or above a sequence number for which a quorum of distinct nodes
-- has sent its messages, in whatever order the messages of the run came.
pub run-stable :
    (quorum : ℕ) (subscribers : List (List StableCheckpoint)) (ms : List Received) (sn : ℕ)
    (voters : List ℕ)
    → 0 < quorum
    → IsDistinct voters
    → quorum ≤ length voters
    → ((k : ℕ) → 0 < count k voters → 0 < sent sn k ms)
    → is_current (get_checkpoint (run quorum (init subscribers) ms).log) sn ≡ false
run-stable quorum subscribers ms sn voters pos d q h =
    elim (Bool-cases (is_current (get_checkpoint s.log) sn)) [
      | inr e ↦ e
      | inl e ↦ absurd (
          omega (
            arith,
            length-keys (senders_of sn s.pending),
            inv.few sn e,
            length-le_of_subset voters (keys (senders_of sn s.pending)) d
                (λ k v. inv.collected sn k e (h k v)),
          ))
    ]
  where
    s : State
    s = run quorum (init subscribers) ms

    inv : Complete quorum ms s
    inv = run-Complete quorum [] (init subscribers) ms (init-Complete quorum subscribers pos)

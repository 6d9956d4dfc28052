-- ===== src/Orderer/Votes/Committed.antt =====
-- `CheckCommits` counts each sender's COMMIT once, however often it is called.
use orthrus.Prelude.{
  ap, ℕ, suc, ◌+◌, ◌*◌, ◌≡◌, refl, inl, inr, true, false, if◌then◌else◌, Option, none, some, List,
  [], ◌∷◌, ◌++◌, arith, keys, IsDistinct, length, leb, Bool-cases,
}
use orthrus.Orderer.Votes.{PbftCommit, PbftBatch, is_valid, accept_loop, check_commits}

-- The senders whose COMMIT has been validated, and those whose COMMIT has a digest but has not.
abbrev pub validated : List (ℕ × Option PbftCommit) → List ℕ
validated [] = []
validated ((k, none) ∷ rest) = k ∷ validated rest
validated ((k, some c) ∷ rest) = validated rest

abbrev pub waiting : List ℕ → List (ℕ × Option PbftCommit) → ℕ
waiting digest [] = 0
waiting digest ((k, none) ∷ rest) = waiting digest rest
waiting digest ((k, some c) ∷ rest) =
    (if is_valid digest (some c) then 1 else 0) + waiting digest rest

-- Each sender has one entry, and the valid messages are those of the validated entries.
pub record IsCounted (batch : PbftBatch) : Type 0 where
  pub distinct : IsDistinct (keys batch.commit_msgs)
  pub counted : length batch.valid_commit_msgs ≡ length (validated batch.commit_msgs)

length-snoc {ℓ} : {A : Type ℓ} (xs : List A) (x : A) → length (xs ++ x ∷ []) ≡ suc (length xs)
length-snoc [] x = refl
length-snoc (y ∷ xs) x = omega (arith, length-snoc xs x)

abbrev later_of : ℕ → PbftCommit → ℕ
later_of ts c = if leb ts c.ts then c.ts else ts

module _ (digest : List ℕ) (valid : List PbftCommit) (ts k : ℕ) (c : PbftCommit)
    (rest : List (ℕ × Option PbftCommit)) where
  accept_valid :
      is_valid digest (some c) ≡ true
      → accept_loop digest valid ts ((k, some c) ∷ rest)
        ≡ record (accept_loop digest (valid ++ c ∷ []) (later_of ts c) rest) {
          commit_msgs =
              (k, none) ∷ (accept_loop digest (valid ++ c ∷ []) (later_of ts c) rest).commit_msgs;
        }
  unfolding accept_loop
  accept_valid q = rw (q, accept_loop) refl

  accept_other :
      is_valid digest (some c) ≡ false
      → accept_loop digest valid ts ((k, some c) ∷ rest)
        ≡ record (accept_loop digest valid ts rest) {
          commit_msgs = (k, some c) ∷ (accept_loop digest valid ts rest).commit_msgs;
        }
  unfolding accept_loop
  accept_other q = rw (q, accept_loop) refl

pub keys-accept_loop :
    (digest : List ℕ) (valid : List PbftCommit) (ts : ℕ) (ms : List (ℕ × Option PbftCommit))
    → keys (accept_loop digest valid ts ms).commit_msgs ≡ keys ms
unfolding accept_loop
keys-accept_loop digest valid ts [] = refl
keys-accept_loop digest valid ts ((k, none) ∷ rest) =
    ground (arith, keys-accept_loop digest valid ts rest)
keys-accept_loop digest valid ts ((k, some c) ∷ rest) =
    elim (Bool-cases (is_valid digest (some c))) [
      | inl q ↦
          rw (accept_valid digest valid ts k c rest q)
            (ap (λ z. k ∷ z) (keys-accept_loop digest (valid ++ c ∷ []) (later_of ts c) rest))
      | inr q ↦
          rw (accept_other digest valid ts k c rest q)
            (ap (λ z. k ∷ z) (keys-accept_loop digest valid ts rest))
    ]

accept_loop-counts :
    (digest : List ℕ) (valid : List PbftCommit) (ts : ℕ) (ms : List (ℕ × Option PbftCommit))
    → (length (accept_loop digest valid ts ms).valid_commit_msgs ≡ length valid + waiting digest ms)
      × (length (validated (accept_loop digest valid ts ms).commit_msgs)
          ≡ length (validated ms) + waiting digest ms)
      × (waiting digest (accept_loop digest valid ts ms).commit_msgs ≡ 0)
unfolding accept_loop
accept_loop-counts digest valid ts [] = (omega arith, refl, refl)
accept_loop-counts digest valid ts ((k, none) ∷ rest) =
    let (a, b, c) = accept_loop-counts digest valid ts rest in
    (omega (arith, a), omega (arith, b), c)
accept_loop-counts digest valid ts ((k, some m) ∷ rest) =
    elim (Bool-cases (is_valid digest (some m))) [
      | inl q ↦
          let (a, b, c) = accept_loop-counts digest (valid ++ m ∷ []) (later_of ts m) rest in
          rw (accept_valid digest valid ts k m rest q)
            (ground (arith, a, length-snoc valid m), ground (arith, b), c)
      | inr q ↦
          let (a, b, c) = accept_loop-counts digest valid ts rest in
          rw (accept_other digest valid ts k m rest q)
            (ground (arith, a), ground (arith, b), ground (arith, c))
    ]

-- After `CheckCommits` on a batch that is prepared, no message that waits has the batch's digest;
-- the result is true exactly when at least 2 * Faults() + 1 distinct senders have validated messages,
-- which are those from before and those that waited.
pub check_commits-counts :
    (faults : ℕ) (batch : PbftBatch)
    → batch.preprepared ≡ true
    → batch.prepared ≡ true
    → IsCounted batch
    → IsCounted (check_commits faults batch).0
      × ((check_commits faults batch).1
          ≡ leb (2 * faults + 1) (length (validated (check_commits faults batch).0.commit_msgs)))
      × (length (validated (check_commits faults batch).0.commit_msgs)
          ≡ length (validated batch.commit_msgs) + waiting batch.digest batch.commit_msgs)
      × (waiting batch.digest (check_commits faults batch).0.commit_msgs ≡ 0)
unfolding check_commits
check_commits-counts faults batch pp p inv =
    let (a, b, c) =
      accept_loop-counts batch.digest batch.valid_commit_msgs batch.last_commit_ts
        batch.commit_msgs in
    rw (pp, p, check_commits)
      (
        record {
          distinct =
              rw
                (keys-accept_loop batch.digest batch.valid_commit_msgs batch.last_commit_ts
                  batch.commit_msgs)
                inv.distinct;
          counted = omega (arith, a, b, inv.counted);
        },
        ground (arith, a, b, inv.counted),
        b,
        c,
      )

-- ===== src/Orderer/Votes/Quorum.antt =====
-- The COMMITs of a run: a batch is committed by the messages of a quorum of distinct nodes.
use orthrus.Prelude.{
  ap, ℕ, ◌+◌, ◌*◌, ◌≡◌, ◌≤◌, ◌<◌, ◌⊎◌, refl, inl, inr, Bool, true, false, if◌then◌else◌, Option,
  none, some, List, [], ◌∷◌, arith, lookup, insert, keys, count, IsDistinct, count-keys-insert,
  count-keys_of_none, length, Bool-cases, Option-cases,
}
use orthrus.Orderer.Votes.{
  PbftCommit, PbftBatch, check_commits, register_commit, vote_commit, vote_all,
}
use orthrus.Orderer.Votes.Committed.{validated, IsCounted, keys-accept_loop, check_commits-counts}

check_commits-IsCounted :
    (faults : ℕ) (batch : PbftBatch) → IsCounted batch → IsCounted (check_commits faults batch).0
unfolding check_commits
check_commits-IsCounted faults batch inv = elim (Bool-cases batch.preprepared) [
  | inr e ↦ rw (e, check_commits) (record { distinct = inv.distinct; counted = inv.counted })
  | inl pp ↦ elim (Bool-cases batch.prepared) [
    | inr e ↦ rw (pp, e, check_commits) (record { distinct = inv.distinct; counted = inv.counted })
    | inl p ↦ (check_commits-counts faults batch pp p inv).0
  ]
]

validated-insert :
    (k : ℕ) (c : PbftCommit) (ms : List (ℕ × Option PbftCommit))
    → lookup k ms ≡ none
    → validated (insert k (some c) ms) ≡ validated ms
validated-insert k c [] h = refl
validated-insert k c ((j, none) ∷ ms) h = ground (arith, validated-insert k c ms)
validated-insert k c ((j, some d) ∷ ms) h = ground (arith, validated-insert k c ms)

count-validated :
    (k : ℕ) (ms : List (ℕ × Option PbftCommit)) → count k (validated ms) ≤ count k (keys ms)
count-validated k [] = omega arith
count-validated k ((j, none) ∷ ms) = ground (arith, count-validated k ms)
count-validated k ((j, some c) ∷ ms) = ground (arith, count-validated k ms)

register-IsCounted :
    (batch : PbftBatch) (k : ℕ) (c : PbftCommit)
    → lookup k batch.commit_msgs ≡ none
    → IsCounted batch
    → IsCounted (record batch { commit_msgs = insert k (some c) batch.commit_msgs })
register-IsCounted batch k c h inv = record {
  distinct = λ j. ground (
    arith,
    count-keys-insert k j (some c) batch.commit_msgs,
    count-keys_of_none k batch.commit_msgs,
    inv.distinct j,
  );
  counted = rw (validated-insert k c batch.commit_msgs h) inv.counted;
}

after-IsCounted :
    (done : Bool) (b : PbftBatch) (r : PbftBatch × Bool)
    → IsCounted b
    → IsCounted r.0
    → IsCounted (if done then (b, false) else r).0
after-IsCounted true b r h k = h
after-IsCounted false b r h k = k

-- The senders of the messages of a batch.
abbrev pub senders : PbftBatch → List ℕ
senders batch = keys batch.commit_msgs

keys-check_commits :
    (faults : ℕ) (batch : PbftBatch) → senders (check_commits faults batch).0 ≡ senders batch
unfolding check_commits
keys-check_commits faults batch = ground (
  arith,
  keys-accept_loop batch.digest batch.valid_commit_msgs batch.last_commit_ts batch.commit_msgs,
)

after-senders :
    (done : Bool) (b : PbftBatch) (r : PbftBatch × Bool)
    → senders r.0 ≡ senders b
    → senders (if done then (b, false) else r).0 ≡ senders b
after-senders true b r h = refl
after-senders false b r h = h

-- A vote is a duplicate, or leads to a batch that is counted again and has its sender besides.
vote_commit-cases :
    (faults : ℕ) (batch : PbftBatch) (k : ℕ) (c : PbftCommit)
    → IsCounted batch
    → (vote_commit faults batch k c ≡ none)
      ⊎ ((r : PbftBatch × Bool) × (vote_commit faults batch k c ≡ some r)
          × IsCounted r.0
          × (senders r.0 ≡ keys (insert k (some c) batch.commit_msgs)))
unfolding vote_commit
vote_commit-cases faults batch k c inv = elim (Option-cases (lookup k batch.commit_msgs)) [
  | inr (seen, e) ↦ inl (rw (e, register_commit, vote_commit) refl)
  | inl e ↦
      let b : PbftBatch = record batch { commit_msgs = insert k (some c) batch.commit_msgs } in
      let counted : IsCounted b = register-IsCounted batch k c e inv in
      inr (
        (if b.committed then (b, false) else check_commits faults b),
        rw (e, register_commit, vote_commit) refl,
        after-IsCounted b.committed b (check_commits faults b) counted
            (check_commits-IsCounted faults b counted),
        after-senders b.committed b (check_commits faults b) (keys-check_commits faults b),
      )
]

-- Whatever COMMITs a batch gets, each sender is counted once, and each has sent a message.
vote_all-IsCounted :
    (faults : ℕ) (batch : PbftBatch) (votes : List (ℕ × PbftCommit))
    → IsCounted batch
    → IsCounted (vote_all faults batch votes)
      × ((j : ℕ)
          → count j (senders (vote_all faults batch votes))
            ≤ count j (senders batch) + count j (keys votes))
unfolding vote_all
vote_all-IsCounted faults batch [] inv = (inv, λ j. omega arith)
vote_all-IsCounted faults batch ((k, c) ∷ votes) inv =
    elim (vote_commit-cases faults batch k c inv) [
      | inl e ↦
          let (counted, sent) = vote_all-IsCounted faults batch votes inv in
          rw (e, vote_all) (counted, λ j. ground (arith, sent j))
      | inr (r, e, again, more) ↦
          let (counted, sent) = vote_all-IsCounted faults r.0 votes again in
          rw (e, vote_all)
            (
              counted,
              λ j. ground (
                arith,
                sent j,
                ap (count j) more,
                count-keys-insert k j (some c) batch.commit_msgs,
              ),
            )
    ]

check_commits-true :
    (faults : ℕ) (batch : PbftBatch)
    → (check_commits faults batch).1 ≡ true
    → 2 * faults + 1 ≤ length (check_commits faults batch).0.valid_commit_msgs
unfolding check_commits
check_commits-true faults batch h = ground arith

-- A batch that gets COMMITs, one after another and duplicates among them, and that `CheckCommits`
-- then finds committed, has validated messages of at least 2 * Faults() + 1 distinct senders, and
-- each of them had a message in the batch before or has sent one of the COMMITs.
pub vote_all-quorum :
    (faults : ℕ) (batch : PbftBatch) (votes : List (ℕ × PbftCommit))
    → IsCounted batch
    → (check_commits faults (vote_all faults batch votes)).1 ≡ true
    → IsDistinct (validated (check_commits faults (vote_all faults batch votes)).0.commit_msgs)
      × (2 * faults + 1
          ≤ length (validated (check_commits faults (vote_all faults batch votes)).0.commit_msgs))
      × ((j : ℕ)
          → 0
            < count j (validated (check_commits faults (vote_all faults batch votes)).0.commit_msgs)
          → 0 < count j (keys batch.commit_msgs) + count j (keys votes))
vote_all-quorum faults batch votes inv h =
    let (counted, sent) = vote_all-IsCounted faults batch votes inv in
    let now = check_commits-IsCounted faults (vote_all faults batch votes) counted in
    let b = (check_commits faults (vote_all faults batch votes)).0 in
    let same = keys-check_commits faults (vote_all faults batch votes) in
    (
      λ j. omega (arith, now.distinct j, count-validated j b.commit_msgs),
      omega (arith, now.counted, check_commits-true faults (vote_all faults batch votes) h),
      λ j v. omega (arith, sent j, ap (count j) same, count-validated j b.commit_msgs),
    )

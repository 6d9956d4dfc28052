-- ===== src/Orderer/Votes/Prepared.antt =====
-- `isPrepared` finds out whether enough PREPARE messages match, though it stops early.
use orthrus.Prelude.{
  same_bytes, ℕ, suc, ◌+◌, ◌*◌, ◌≡◌, ◌≤◌, if◌then◌else◌, List, [], ◌∷◌, ◌&&◌, arith, length, leb,
  Bool-cases, inl, inr,
}
use orthrus.Orderer.Votes.{PbftPrepare, PbftBatch, matching_loop, is_prepared}

-- The number of senders whose PREPARE has a digest.
abbrev pub matching : List ℕ → List (ℕ × PbftPrepare) → ℕ
matching digest [] = 0
matching digest ((k, p) ∷ rest) =
    (if same_bytes p.digest digest then 1 else 0) + matching digest rest

matching-le : (digest : List ℕ) (ms : List (ℕ × PbftPrepare)) → matching digest ms ≤ length ms
matching-le digest [] = omega arith
matching-le digest ((k, p) ∷ rest) = ground (arith, matching-le digest rest)

leb-matching_loop :
    (enough : ℕ) (digest : List ℕ) (n : ℕ) (ms : List (ℕ × PbftPrepare))
    → leb enough (matching_loop enough digest n ms) ≡ leb enough (n + matching digest ms)
unfolding matching_loop
leb-matching_loop enough digest n [] = ground arith
leb-matching_loop enough digest n ((k, p) ∷ rest) = elim (Bool-cases (same_bytes p.digest digest)) [
  | inr q ↦ rw (q, matching_loop) (ground (arith, leb-matching_loop enough digest n rest))
  | inl q ↦ elim (Bool-cases (leb enough (suc n))) [
    | inl e ↦ rw (q, e, matching_loop) (ground arith)
    | inr e ↦
        rw (q, e, matching_loop) (ground (arith, leb-matching_loop enough digest (suc n) rest))
  ]
]

-- `isPrepared` is true exactly when the proposal has come and the PREPARE messages of at least
-- 2 * Faults() senders have its digest.
pub is_prepared_lem :
    (faults : ℕ) (batch : PbftBatch)
    → is_prepared faults batch
      ≡ (batch.preprepared && leb (2 * faults) (matching batch.digest batch.prepare_msgs))
unfolding is_prepared
is_prepared_lem faults batch = ground (
  arith,
  matching-le batch.digest batch.prepare_msgs,
  leb-matching_loop (2 * faults) batch.digest 0 batch.prepare_msgs,
)

-- ===== src/Checkpoint/Tests.antt =====
-- Four nodes, three of which make a quorum, and a run of the checkpointer.
use orthrus.Prelude.{
  ℕ, ◌≤◌, ◌<◌, ◌≡◌, refl, false, some, List, [], ◌∷◌, arith, count, IsDistinct, lt32,
}
use orthrus.Log.Checkpoints.{StableCheckpoint, commit_checkpoint, get_checkpoint, is_newer}
use orthrus.Checkpoint.{Received, is_current, senders_of, prune_old, handle, run, init}
use orthrus.Checkpoint.Stable.{sent, run-certified}
use orthrus.Checkpoint.Progress.{run-stable}

abbrev from : ℕ → Received
from k = record { sn = 7; sender_id = k }

-- Node 2 votes twice.
abbrev votes : List Received
votes = from 2 ∷ from 0 ∷ from 2 ∷ from 3 ∷ from 1 ∷ []

abbrev certificate : StableCheckpoint
certificate = record { sn = 7; proof = (2, []) ∷ (0, []) ∷ (3, []) ∷ [] }

votes_stable : get_checkpoint (run 3 (init []) votes).log ≡ some certificate
unfolding run handle is_current get_checkpoint commit_checkpoint is_newer senders_of prune_old lt32
votes_stable = refl

run-certified_example :
    (3 ≤ 3)
    × IsDistinct (2 ∷ 0 ∷ 3 ∷ [])
    × ((k : ℕ) → 0 < count k (2 ∷ 0 ∷ 3 ∷ []) → 0 < sent 7 k votes)
run-certified_example = run-certified 3 [] votes certificate votes_stable

voters-IsDistinct : IsDistinct (0 ∷ 1 ∷ 3 ∷ [])
voters-IsDistinct k = ground arith

voters_sent : (k : ℕ) → 0 < count k (0 ∷ 1 ∷ 3 ∷ []) → 0 < sent 7 k votes
voters_sent k h = ground arith

run-stable_example : is_current (get_checkpoint (run 3 (init []) votes).log) 7 ≡ false
run-stable_example =
    run-stable 3 [] votes 7 (0 ∷ 1 ∷ 3 ∷ []) (omega arith) voters-IsDistinct (omega arith)
      voters_sent

-- ===== src/Orderer/Votes/Tests.antt =====
-- One faulty node at most: COMMITs of nodes 2 and 3, one of them twice, after this node's own.
use orthrus.Prelude.{
  same_bytes, ℕ, ◌+◌, ◌*◌, ◌≡◌, ◌≤◌, ◌<◌, refl, true, false, some, none, List, [], ◌∷◌, ◌&&◌, arith,
  count, IsDistinct, length, leb,
}
use orthrus.Orderer.Votes.{
  PbftPrepare, PbftCommit, PbftBatch, is_valid, accept_loop, check_commits, register_commit,
  vote_commit, vote_all, is_prepared,
}
use orthrus.Orderer.Votes.Prepared.{matching, is_prepared_lem}
use orthrus.Orderer.Votes.Committed.{validated, waiting, IsCounted, check_commits-counts}
use orthrus.Orderer.Votes.Quorum.{vote_all-quorum}

abbrev commit : ℕ → PbftCommit
commit t = record { sn = 4; view = 0; digest = 9 ∷ []; ts = t }

abbrev prepare : PbftPrepare
prepare = record { sn = 4; view = 0; digest = 9 ∷ [] }

abbrev batch : PbftBatch
batch = record {
  prepare_msgs = (2, prepare) ∷ (3, prepare) ∷ [];
  commit_msgs = (1, some (commit 5)) ∷ [];
  valid_commit_msgs = [];
  last_commit_ts = 0;
  digest = 9 ∷ [];
  preprepared = true;
  prepared = true;
  committed = false;
  preprepare_msg = none;
  batch = none;
  view_change_timer = false;
  has_maps = true;
}

batch-IsCounted : IsCounted batch
batch-IsCounted = record { distinct = λ j. ground arith; counted = refl }

abbrev votes : List (ℕ × PbftCommit)
votes = (2, commit 6) ∷ (2, commit 7) ∷ (3, commit 6) ∷ []

committed_now : (check_commits 1 (vote_all 1 batch votes)).1 ≡ true
unfolding check_commits vote_all vote_commit register_commit accept_loop is_valid same_bytes
committed_now = refl

is_prepared_lem_example :
    is_prepared 1 batch ≡ (true && leb (2 * 1) (matching (9 ∷ []) batch.prepare_msgs))
is_prepared_lem_example = is_prepared_lem 1 batch

check_commits-counts_example :
    IsCounted (check_commits 1 batch).0
    × ((check_commits 1 batch).1
        ≡ leb (2 * 1 + 1) (length (validated (check_commits 1 batch).0.commit_msgs)))
    × (length (validated (check_commits 1 batch).0.commit_msgs)
        ≡ length (validated batch.commit_msgs) + waiting (9 ∷ []) batch.commit_msgs)
    × (waiting (9 ∷ []) (check_commits 1 batch).0.commit_msgs ≡ 0)
check_commits-counts_example = check_commits-counts 1 batch refl refl batch-IsCounted

vote_all-quorum_example :
    IsDistinct (validated (check_commits 1 (vote_all 1 batch votes)).0.commit_msgs)
    × (2 * 1 + 1 ≤ length (validated (check_commits 1 (vote_all 1 batch votes)).0.commit_msgs))
    × ((j : ℕ)
        → 0 < count j (validated (check_commits 1 (vote_all 1 batch votes)).0.commit_msgs)
        → 0 < count j (1 ∷ []) + count j (2 ∷ 2 ∷ 3 ∷ []))
vote_all-quorum_example = vote_all-quorum 1 batch votes batch-IsCounted committed_now

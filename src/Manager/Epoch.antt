-- ===== src/Manager/Epoch.antt =====
-- manager/mirmanager.go, `createSegments`: the sequence numbers of an epoch are dealt out to the
-- leaders round robin, one segment for each. Configuration values and counts of nodes are Go's
-- 64-bit `int`, here unbounded; sequence numbers and lengths are converted to `int32` as in the
-- source. `Epoch/Partition` has what the segments cover, `Epoch/Buckets` assigns the buckets.
pub mod Buckets
pub mod Rotation
pub mod Partition
use orthrus.Prelude.{
  ℕ, zero, suc, ◌+◌, ◌*◌, ◌/◌, ◌%◌, ◌≡◌, Bool, true, false, if◌then◌else◌, ◌==◌, Option, none, some,
  List, [], ◌∷◌, ◌++◌, lookup, insert, length, take, drop, add32, sub32, int32, ltb, sort, ◌<◌,
  keep, contains,
}
use orthrus.Manager.Segments.{SkippingSegment, init_sns}
use Buckets.{assign_buckets, bucket_list}

pub record Config : Type 0 where
  pub epoch_length : ℕ
  pub segment_length : ℕ
  pub batch_size : ℕ

-- What `createSegments` reads of the other packages: the ordered node ids, this node's id and the
-- number of request buckets.
pub record Context : Type 0 where
  pub node_ids : List ℕ
  pub own_id : ℕ
  pub num_buckets : ℕ

unfoldable pub epoch_length : Config → ℕ → ℕ
epoch_length c num_leaders =
    if c.segment_length == 0 then c.epoch_length else c.segment_length * num_leaders

-- `segmentLengths[i]`: one more for the first `remainder` leaders.
unfoldable pub segment_length : ℕ → ℕ → ℕ → ℕ
segment_length total num_leaders i =
    if ltb i (total % num_leaders)
    then add32 (int32 (total / num_leaders)) 1
    else int32 (total / num_leaders)

-- Where the search loop over the nodes stops: at the leader, or else at the last node.
unfoldable pub leader_offset : ℕ → List ℕ → ℕ
leader_offset leader [] = 0
leader_offset leader (x ∷ []) = 0
leader_offset leader (x ∷ y ∷ ys) = if x == leader then 0 else suc (leader_offset leader (y ∷ ys))

-- `append(allNodeIDs[leaderOffset:], allNodeIDs[:leaderOffset]...)`
unfoldable pub rotated : ℕ → List ℕ → List ℕ
unfolding leader_offset
rotated leader ids = drop (leader_offset leader ids) ids ++ take (leader_offset leader ids) ids

-- The segment of the `i`-th leader.
unfoldable pub leader_segment :
    Config → Context → ℕ → ℕ → ℕ → List (ℕ × List ℕ) → ℕ → ℕ → SkippingSegment
unfolding epoch_length segment_length rotated init_sns bucket_list
leader_segment c ctx num_leaders next_id offset buckets i leader = init_sns (record {
  seg_id = next_id + i;
  sn_distance = int32 num_leaders;
  seq_nos = [];
  leaders = rotated leader ctx.node_ids;
  followers = ctx.node_ids;
  sn_offset = add32 offset (int32 i);
  sn_length = segment_length (epoch_length c num_leaders) num_leaders i;
  starts_after = sub32 offset 1;
  buckets = sort ltb (bucket_list leader buckets);
  batch_size = if leader == ctx.own_id then c.batch_size else 0;
})

-- The loop over the leaders; the segments are kept in a map from the leader's id.
unfoldable pub segments_loop :
    Config
    → Context
    → ℕ
    → ℕ
    → ℕ
    → List (ℕ × List ℕ)
    → ℕ
    → List ℕ
    → List (ℕ × SkippingSegment)
    → List (ℕ × SkippingSegment)
segments_loop c ctx d next_id offset buckets i [] m = m
segments_loop c ctx d next_id offset buckets i (l ∷ ls) m =
    segments_loop c ctx d next_id offset buckets (suc i) ls
      (insert l (leader_segment c ctx d next_id offset buckets i l) m)

pub record NewSegments : Type 0 where
  pub segments : List (ℕ × SkippingSegment)
  pub next_segment_id : ℕ
  pub assignment : List (ℕ × List ℕ)  -- what is announced to the clients

-- `createSegments` in epoch `epoch`. With no leader the division panics (`none`).
unfoldable pub create_segments : Config → Context → ℕ → ℕ → List ℕ → ℕ → Option NewSegments
unfolding segments_loop assign_buckets
create_segments c ctx epoch next_id leaders offset = elim leaders [
  | [] ↦ none
  | l ∷ ls ↦
      let buckets = assign_buckets ctx.node_ids ctx.num_buckets epoch (l ∷ ls) in
      some (record {
        segments = segments_loop c ctx (length (l ∷ ls)) next_id offset buckets 0 (l ∷ ls) [];
        next_segment_id = next_id + length (l ∷ ls);
        assignment = buckets;
      })
]

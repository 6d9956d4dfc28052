-- ===== src/Manager/Tests.antt =====
-- Tests of the manager, and its theorems at concrete inputs.
use orthrus.Prelude.{
  ℕ, ◌<◌, ◌≤◌, ◌+◌, ◌-◌, ◌%◌, ◌≡◌, ◌≢◌, ◌↔◌, refl, true, Option, none, some, List, [], ◌∷◌, arith,
  length, count, contains, lookup, IsDistinct, lt32, add32, sub32, mul32, int32,
}
use orthrus.Manager.Segments.Laws.{skipping-IsLawful}
use orthrus.Manager.Segments.{IsLawful, skipping, SkippingSegment, ContiguousSegment, init_sns}
use orthrus.Manager.Epoch.{
  Config, Context, NewSegments, epoch_length, create_segments, leader_segment,
}
use orthrus.Manager.Epoch.Partition.{create_segments-contains}
use orthrus.Manager.Epoch.Buckets.{assign_buckets}
use orthrus.Manager.Epoch.Buckets.Sums.{occurrences}
use orthrus.Manager.Epoch.Buckets.Once.{assign_buckets-once}
use orthrus.Manager.Policies.{
  Backoff, new_backoff, backoff_leaders, backoff_update, new_blacklist, Combined,
}
use orthrus.Manager.Policies.Bans.{backoff_update-leads, backoff_run, backoff_run-ban}

abbrev three_apart : SkippingSegment
three_apart = record {
  seg_id = 0;
  sn_distance = 3;
  seq_nos = [];
  leaders = 0 ∷ [];
  followers = 0 ∷ [];
  sn_offset = 10;
  sn_length = 4;
  starts_after = 9;
  buckets = [];
  batch_size = 0;
}

three_apart_sns : (init_sns three_apart).seq_nos ≡ 10 ∷ 13 ∷ 16 ∷ 19 ∷ []
unfolding init_sns lt32 add32 mul32
three_apart_sns = refl

abbrev run_of_five : ContiguousSegment
run_of_five = record {
  seg_id = 1;
  leaders = 0 ∷ [];
  followers = 0 ∷ [];
  sn_offset = 10;
  sn_length = 5;
  starts_after = 9;
  buckets = [];
}

abbrev config : Config
config = record { epoch_length = 8; segment_length = 0; batch_size = 100 }

abbrev context : Context
context = record { node_ids = 0 ∷ 1 ∷ 2 ∷ 3 ∷ []; own_id = 2; num_buckets = 5 }

abbrev leaders : List ℕ
leaders = 2 ∷ 0 ∷ 3 ∷ []

leaders-IsDistinct : IsDistinct leaders
leaders-IsDistinct a = ground arith

nodes-IsDistinct : IsDistinct context.node_ids
nodes-IsDistinct a = ground arith

leaders_members : (l : ℕ) → 0 < count l leaders → count l context.node_ids ≡ 1
leaders_members l h = ground arith

buckets_shared :
    assign_buckets (0 ∷ 1 ∷ 2 ∷ 3 ∷ []) 5 1 leaders
    ≡ (0, 1 ∷ 2 ∷ []) ∷ (2, 3 ∷ []) ∷ (3, 0 ∷ 4 ∷ []) ∷ []
unfolding assign_buckets lt32
buckets_shared = refl

second_segment : Option NewSegments → List ℕ
second_segment none = []
second_segment (some r) = elim (lookup 0 r.segments) [ none ↦ [] | some s ↦ s.seq_nos ]

second_segment_sns :
    second_segment (create_segments config context 1 7 leaders 16) ≡ 17 ∷ 20 ∷ 23 ∷ []
unfolding second_segment create_segments leader_segment lt32 add32 mul32 int32 sub32
second_segment_sns = refl

new_segments : NewSegments
new_segments = elim (create_segments config context 1 7 leaders 16) [
  | none ↦ record { segments = []; next_segment_id = 0; assignment = [] }
  | some r ↦ r
]

create_segments-contains_example :
    (s : SkippingSegment) × (lookup 0 new_segments.segments ≡ some s)
    × ((contains 20 s.seq_nos ≡ true)
        ↔ ((◌≤◌ 16 20) × (20 < 16 + epoch_length config 3) × (◌≡◌ {A = ℕ} ((20 - 16) % 3) 1)))
unfolding new_segments create_segments
create_segments-contains_example =
    create_segments-contains config context 1 7 leaders 16 1 0 20 new_segments leaders-IsDistinct
      (unfold epoch_length in omega arith) refl refl

assign_buckets-once_example : occurrences 4 (assign_buckets (0 ∷ 1 ∷ 2 ∷ 3 ∷ []) 5 1 leaders) ≡ 1
assign_buckets-once_example =
    assign_buckets-once (0 ∷ 1 ∷ 2 ∷ 3 ∷ []) leaders 5 1 4 nodes-IsDistinct leaders-IsDistinct
      leaders_members (omega arith)

ids-ne-nil : ◌≢◌ {A = List ℕ} (0 ∷ 1 ∷ []) []
ids-ne-nil e = cc

backoff_update-leads_example :
    0
    < length (
        backoff_leaders (0 ∷ 1 ∷ []) (backoff_update (0 ∷ 1 ∷ []) 4 new_backoff 6 1).banned_until 7)
backoff_update-leads_example =
    backoff_update-leads (0 ∷ 1 ∷ []) 4 new_backoff 6 1 ids-ne-nil (λ k u h. cc) (omega arith)

abbrev banned_once : Backoff
banned_once = record { ban = (1, 4) ∷ []; banned_until = (1, 10) ∷ [] }

backoff_run-ban_example :
    lookup 1 (backoff_run (0 ∷ 1 ∷ []) 4 banned_once ((6, 1) ∷ (7, 0) ∷ (9, 1) ∷ [])).ban ≡ some 16
backoff_run-ban_example =
    backoff_run-ban (0 ∷ 1 ∷ []) 4 banned_once ((6, 1) ∷ (7, 0) ∷ (9, 1) ∷ []) 1 4 refl
      (omega arith)

abbrev both : Combined
both = record { backoff = banned_once; blacklist = new_blacklist }

skipping-IsLawful_example : IsLawful (skipping (init_sns three_apart))
skipping-IsLawful_example = skipping-IsLawful three_apart (omega arith) (omega arith)

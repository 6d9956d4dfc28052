-- ===== src/Manager/Segments.antt =====
-- manager/segment.go, manager/contiguoussegment.go and manager/skippingsegment.go: a segment, the
-- part of the log that one ordering instance fills. `Segment` is the interface; its two
-- implementations stand below, and `Segments/Laws` shows that they keep its contract.
pub mod Progression
pub mod Laws
use orthrus.Prelude.{
  ℕ, zero, suc, ◌≡◌, Bool, true, false, if◌then◌else◌, Option, none, some, List, [], ◌∷◌, get_elem?,
  length, add32, sub32, mul32, lt32, ◌<◌, ◌-◌,
}

-- What a client of a segment reads. `LastSN` of a skipping segment may index out of range (`none`).
pub record Segment : Type 0 where
  pub seg_id : ℕ
  pub leaders : List ℕ
  pub followers : List ℕ
  pub sns : List ℕ
  pub first_sn : ℕ
  pub last_sn : Option ℕ
  pub len : ℕ
  pub starts_after : ℕ
  pub buckets : List ℕ
  pub batch_size : ℕ

-- The contract: `Len` counts `SNs`, and `FirstSN` and `LastSN` are its ends.
pub record IsLawful (s : Segment) : Type 0 where
  pub len_counts : s.len ≡ length s.sns
  pub first : 0 < s.len → get_elem? s.sns 0 ≡ some s.first_sn
  pub last :
      0 < s.len → (k : ℕ) × (s.last_sn ≡ some k) × (get_elem? s.sns (length s.sns - 1) ≡ some k)

-- `for i := 0; i < length; i++` runs no round for a negative length.
unfoldable pub rounds : ℕ → ℕ
rounds len = if lt32 len 0 then 0 else len

pub record SkippingSegment : Type 0 where
  pub seg_id : ℕ
  pub sn_distance : ℕ
  pub seq_nos : List ℕ
  pub leaders : List ℕ
  pub followers : List ℕ
  pub sn_offset : ℕ
  pub sn_length : ℕ
  pub starts_after : ℕ
  pub buckets : List ℕ
  pub batch_size : ℕ

-- The loop of `initSNs`, with the rounds left and the loop's variable.
unfoldable pub sns_loop : ℕ → ℕ → ℕ → ℕ → List ℕ
sns_loop zero i offset distance = []
sns_loop (suc n) i offset distance =
    add32 offset (mul32 i distance) ∷ sns_loop n (add32 i 1) offset distance

unfoldable pub init_sns : SkippingSegment → SkippingSegment
unfolding rounds sns_loop
init_sns s = record s { seq_nos = sns_loop (rounds s.sn_length) 0 s.sn_offset s.sn_distance }

unfoldable pub skipping : SkippingSegment → Segment
skipping s = record {
  seg_id = s.seg_id;
  leaders = s.leaders;
  followers = s.followers;
  sns = s.seq_nos;
  first_sn = s.sn_offset;
  last_sn = get_elem? s.seq_nos (sub32 s.sn_length 1);
  len = s.sn_length;
  starts_after = s.starts_after;
  buckets = s.buckets;
  batch_size = s.batch_size;
}

pub record ContiguousSegment : Type 0 where
  pub seg_id : ℕ
  pub leaders : List ℕ
  pub followers : List ℕ
  pub sn_offset : ℕ
  pub sn_length : ℕ
  pub starts_after : ℕ
  pub buckets : List ℕ

-- The loop of `SNs`, on fuel: `for i := snOffset; i < snOffset+snLength; i++`.
unfoldable pub contiguous_loop : ℕ → ℕ → ℕ → List ℕ
contiguous_loop zero i end = []
contiguous_loop (suc fuel) i end = elim (lt32 i end) [
  | true ↦ i ∷ contiguous_loop fuel (add32 i 1) end
  | false ↦ []
]

-- The batch size is that of the configuration.
unfoldable pub contiguous : ℕ → ContiguousSegment → Segment
unfolding contiguous_loop
contiguous batch_size s = record {
  seg_id = s.seg_id;
  leaders = s.leaders;
  followers = s.followers;
  sns = contiguous_loop (suc s.sn_length) s.sn_offset (add32 s.sn_offset s.sn_length);
  first_sn = s.sn_offset;
  last_sn = some (sub32 (add32 s.sn_offset s.sn_length) 1);
  len = s.sn_length;
  starts_after = s.starts_after;
  buckets = s.buckets;
  batch_size = batch_size;
}

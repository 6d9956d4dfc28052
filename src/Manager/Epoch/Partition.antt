-- ===== src/Manager/Epoch/Partition.antt =====
-- The segments of an epoch cover its sequence numbers, each by exactly one segment.
use native.Mathlib.Nat.{div-le_self, zero-add}
use mathlib.Core.Option.{some-injective}
use orthrus.Manager.Epoch.Buckets.{assign_buckets}
use native.Mathlib.Nat.{
  mod-lt, mod-eq_of_lt, div-add-mod, div-add-mod', mul-le-mul_right, add-mul-mod_self_right,
}
use orthrus.Prelude.{
  ℕ, zero, suc, ◌+◌, ◌-◌, ◌*◌, ◌/◌, ◌%◌, ◌≤◌, ◌<◌, ◌≡◌, ◌↔◌, refl, sym, ap, ◌∙◌, inl, inr, true,
  if◌then◌else◌, some, List, [], ◌∷◌, arith, get_elem?, get_elem?-lt, length, contains, half,
  int32_small, add32_small, lookup, insert, lookup-insert, count, IsDistinct, ltb, Bool-cases,
}
use orthrus.Manager.Segments.{SkippingSegment, sns_loop}
use orthrus.Manager.Segments.Progression.{contains-sns_loop, get_elem?-sns_loop, contains-get_elem?}
use orthrus.Manager.Segments.Laws.{rounds_small}
use orthrus.Manager.Epoch.{
  Config, Context, epoch_length, segment_length, leader_segment, segments_loop, NewSegments,
  create_segments,
}

-- The unbounded length of the `i`-th of `d` segments that share `total` sequence numbers.
abbrev share : ℕ → ℕ → ℕ → ℕ
share total d i = total / d + (if ltb i (total % d) then 1 else 0)

segment_length-share :
    (total d i : ℕ) → 0 < d → total + d < half → segment_length total d i ≡ share total d i
unfolding segment_length
segment_length-share total d i pos small =
    let h : total / d ≤ total = grind (arith, div-add-mod total d) in
    ground (arith, int32_small (total / d), add32_small (total / d) 1)

-- The `j`-th term of the `i`-th progression lies in the epoch exactly if `j` is below its length.
term-lt : (total d i j : ℕ) → 0 < d → i < d → j < share total d i → i + j * d < total
term-lt total d i j pos lt h = elim (Bool-cases (ltb i (total % d))) [
  | inl q ↦
      let le : j * d ≤ total / d * d = mul-le-mul_right d (ground arith) in
      let lt' : i < total % d = ground arith in omega (arith, div-add-mod' total d)
  | inr q ↦
      let le : suc j * d ≤ total / d * d = mul-le-mul_right d (ground arith) in
      omega (arith, div-add-mod' total d)
]

term-lt-inv : (total d i j : ℕ) → 0 < d → i < d → i + j * d < total → j < share total d i
term-lt-inv total d i j pos lt h = elim (Bool-cases (ltb j (share total d i))) [
  | inl q ↦ ground arith
  | inr q ↦ elim (Bool-cases (ltb i (total % d))) [
    | inl first ↦
        let le : suc (total / d) * d ≤ j * d = mul-le-mul_right d (ground arith) in
        absurd (omega (arith, div-add-mod' total d, mod-lt total pos))
    | inr rest ↦
        let le : total / d * d ≤ j * d = mul-le-mul_right d (ground arith) in
        let lt' : total % d ≤ i = ground arith in absurd (omega (arith, div-add-mod' total d))
  ]
]

mod_of_term : (d i j : ℕ) → i < d → (i + j * d) % d ≡ i
mod_of_term d i j lt = add-mul-mod_self_right i j d ∙ mod-eq_of_lt lt

share_bound :
    (total d i : ℕ)
    → 0 < d
    → i < d
    → (i + share total d i * d ≤ total + d) × (share total d i ≤ total + 1)
share_bound total d i pos lt = elim (Bool-cases (ltb i (total % d))) [
  | inl q ↦
      let e : share total d i ≡ suc (total / d) = ground arith in
      let lt' : i < total % d = ground arith in
      (rw e (omega (arith, div-add-mod' total d)), omega (arith, div-le_self total d, e))
  | inr q ↦
      let e : share total d i ≡ total / d = ground arith in
      (rw e (omega (arith, div-add-mod' total d)), omega (arith, div-le_self total d, e))
]

module _ (c : Config) (ctx : Context) (d next_id offset : ℕ) (buckets : List (ℕ × List ℕ)) where
  -- The sequence numbers of the epoch, and two more rounds, are within `int32`.
  abbrev pub Fits : Type 0
  Fits = (0 < d) × (offset + epoch_length c d + 2 * d < half)

  abbrev segment : ℕ → ℕ → SkippingSegment
  segment = leader_segment c ctx d next_id offset buckets

  segment_sns :
      Fits
      → (i l : ℕ) → i < d
      → (segment i l).seq_nos ≡ sns_loop (share (epoch_length c d) d i) 0 (offset + i) d
  unfolding leader_segment
  segment_sns (pos, fits) i l lt =
      let e = segment_length-share (epoch_length c d) d i pos (omega arith) in
      let (_, h) = share_bound (epoch_length c d) d i pos lt in
      rw (
        e,
        rounds_small (share (epoch_length c d) d i) (omega arith),
        int32_small i (omega arith),
        int32_small d (omega arith),
        add32_small offset i (omega arith),
      )

  -- The `i`-th segment has exactly the sequence numbers of the epoch whose distance to its start is
  -- `i` modulo the number of leaders.
  leader_segment-contains :
      Fits
      → (i l k : ℕ) → i < d
      → (contains k (segment i l).seq_nos ≡ true)
        ↔ ((offset ≤ k) × (k < offset + epoch_length c d) × ((k - offset) % d ≡ i))
  leader_segment-contains (pos, fits) i l k lt = rw (segment_sns (pos, fits) i l lt) (into, onto)
    where
      total : ℕ
      total = epoch_length c d

      n : ℕ
      n = share total d i

      bound : (i + n * d ≤ total + d) × (n ≤ total + 1)
      bound = share_bound total d i pos lt

      into :
          contains k (sns_loop n 0 (offset + i) d) ≡ true
          → (offset ≤ k) × (k < offset + total) × ((k - offset) % d ≡ i)
      into h =
          let (j, _, hi, e) =
            contains-sns_loop n 0 (offset + i) d k (omega (arith, bound)) (omega (arith, bound))
              h in
          let inside : i + j * d < total = term-lt total d i j pos lt (omega arith) in
          let at : k - offset ≡ i + j * d = omega arith in
          (omega arith, omega arith, rw at (mod_of_term d i j lt))

      onto :
          (offset ≤ k) × (k < offset + total) × ((k - offset) % d ≡ i)
          → contains k (sns_loop n 0 (offset + i) d) ≡ true
      onto (lo, hi, m) =
          let j : ℕ = (k - offset) / d in
          let e : i + j * d ≡ k - offset = omega (arith, div-add-mod' (k - offset) d) in
          let below : j < n = term-lt-inv total d i j pos lt (omega arith) in
          contains-get_elem? k j (sns_loop n 0 (offset + i) d) (
            get_elem?-sns_loop n 0 (offset + i) d j below (omega (arith, bound))
              (omega (arith, bound))
            ∙ ap some (omega arith))

  -- The map of segments, with one leader after another.
  loop_absent :
      (i : ℕ) (ls : List ℕ) (m : List (ℕ × SkippingSegment)) (l : ℕ)
      → count l ls ≡ 0
      → lookup l (segments_loop c ctx d next_id offset buckets i ls m) ≡ lookup l m
  unfolding segments_loop
  loop_absent i [] m l h = refl
  loop_absent i (x ∷ ls) m l h = ground (
    arith,
    loop_absent (suc i) ls (insert x (segment i x) m) l,
    lookup-insert x l (segment i x) m,
  )

  loop_lookup :
      (i j : ℕ) (ls : List ℕ) (m : List (ℕ × SkippingSegment)) (l : ℕ)
      → IsDistinct ls
      → get_elem? ls j ≡ some l
      → lookup l (segments_loop c ctx d next_id offset buckets i ls m) ≡ some (segment (i + j) l)
  unfolding segments_loop
  loop_lookup i j [] m l d h = cc
  loop_lookup i zero (x ∷ ls) m l distinct h = ground (
    arith,
    distinct l,
    loop_absent (suc i) ls (insert x (segment i x) m) l,
    lookup-insert x l (segment i x) m,
  )
  loop_lookup i (suc j) (x ∷ ls) m l distinct h =
      let ih =
        loop_lookup (suc i) j ls (insert x (segment i x) m) l (λ a. ground (arith, distinct a)) h in
      let e : suc i + j ≡ i + suc j = omega arith in rw (← e) ih

-- `createSegments` for distinct leaders, with the epoch and two more rounds of sequence numbers
-- within `int32`: the `i`-th leader gets a segment, and it has exactly the sequence numbers of the
-- epoch at a distance from the first that is `i` modulo the number of leaders. So every sequence
-- number of the epoch is in the segment of one leader, and of no other.
pub create_segments-contains :
    (c : Config) (ctx : Context) (epoch next_id : ℕ) (leaders : List ℕ) (offset i l k : ℕ)
    (r : NewSegments)
    → IsDistinct leaders
    → offset + epoch_length c (length leaders) + 2 * length leaders < half
    → create_segments c ctx epoch next_id leaders offset ≡ some r
    → get_elem? leaders i ≡ some l
    → (s : SkippingSegment) × (lookup l r.segments ≡ some s)
      × ((contains k s.seq_nos ≡ true) ↔ (
          (offset ≤ k)
          × (k < offset + epoch_length c (length leaders))
          × ((k - offset) % length leaders ≡ i)))
unfolding create_segments
create_segments-contains c ctx epoch next_id [] offset i l k r distinct fits e at = cc
create_segments-contains c ctx epoch next_id (x ∷ xs) offset i l k r distinct fits e at =
    let leaders = x ∷ xs in
    let buckets = assign_buckets ctx.node_ids ctx.num_buckets epoch leaders in
    (
      leader_segment c ctx (length leaders) next_id offset buckets i l,
      ap (λ (r : NewSegments). lookup l r.segments) (sym (some-injective _ r e))
          ∙ (rw zero-add at (
              loop_lookup c ctx (length leaders) next_id offset buckets 0 i leaders [] l distinct
                at)),
      leader_segment-contains c ctx (length leaders) next_id offset buckets (omega arith, fits) i l
          k (get_elem?-lt i l leaders at),
    )

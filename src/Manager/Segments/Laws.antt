-- ===== src/Manager/Segments/Laws.antt =====
-- The two implementations of `Segment` keep its contract.
use orthrus.Prelude.{
  ℕ, ◌+◌, ◌-◌, ◌*◌, ◌<◌, ◌≡◌, refl, arith, half, modulus, sub32, add32_small, lt32_small,
}
use orthrus.Manager.Segments.{
  IsLawful, SkippingSegment, ContiguousSegment, rounds, init_sns, skipping, contiguous,
}
use orthrus.Manager.Segments.Progression.{
  length-sns_loop, get_elem?-sns_loop, get_elem?-contiguous_loop, length-contiguous_loop,
}

pub rounds_small : (n : ℕ) → n < half → rounds n ≡ n
unfolding rounds
rounds_small n h = ground (arith, lt32_small n 0)

sub32_one : (n : ℕ) → 0 < n → n < modulus → sub32 n 1 ≡ n - 1
unfolding sub32
sub32_one n p h = omega arith

-- A skipping segment after `initSNs`, with its last sequence number in range: `Len` counts `SNs`,
-- and `FirstSN` and `LastSN` are the first and the last of them.
pub skipping-IsLawful :
    (s : SkippingSegment)
    → s.sn_length < half
    → s.sn_offset + s.sn_length * s.sn_distance < half
    → IsLawful (skipping (init_sns s))
unfolding skipping init_sns
skipping-IsLawful s short fits = record {
  len_counts =
      ground
        (arith, rounds_small s.sn_length, length-sns_loop s.sn_length 0 s.sn_offset s.sn_distance);
  first = λ p. ground (
    arith,
    rounds_small s.sn_length,
    get_elem?-sns_loop s.sn_length 0 s.sn_offset s.sn_distance 0,
  );
  last = λ p.
      let at =
        get_elem?-sns_loop s.sn_length 0 s.sn_offset s.sn_distance (s.sn_length - 1) (omega arith)
          (omega arith) (omega arith) in
      (
        s.sn_offset + (0 + (s.sn_length - 1)) * s.sn_distance,
        rw (rounds_small s.sn_length short, sub32_one s.sn_length p (omega arith)) at,
        rw (rounds_small s.sn_length short, length-sns_loop s.sn_length 0 s.sn_offset s.sn_distance)
            at,
      );
}

-- A contiguous segment whose sequence numbers are in range keeps the contract.
pub contiguous-IsLawful :
    (batch_size : ℕ) (s : ContiguousSegment)
    → s.sn_offset + s.sn_length < half
    → IsLawful (contiguous batch_size s)
unfolding contiguous
contiguous-IsLawful batch_size s fits =
    let end = add32_small s.sn_offset s.sn_length (omega arith) in
    let len =
      length-contiguous_loop s.sn_length s.sn_offset (s.sn_offset + s.sn_length) refl fits in
    let at = λ (j : ℕ) (lt : j < s.sn_length).
      get_elem?-contiguous_loop s.sn_length s.sn_offset (s.sn_offset + s.sn_length) j refl fits
        lt in
    rw end (record {
      len_counts = omega (arith, len);
      first = λ p. ground (arith, at 0 p);
      last = λ p. (
        s.sn_offset + s.sn_length - 1,
        ground (arith, sub32_one (s.sn_offset + s.sn_length)),
        rw len (ground (arith, at (s.sn_length - 1) (omega arith))),
      );
    })

-- ===== src/Manager/Segments/Progression.antt =====
-- The sequence numbers of the loops in manager/skippingsegment.go and manager/contiguoussegment.go.
use orthrus.Prelude.{
  ℕ, zero, suc, ◌+◌, ◌*◌, ◌≤◌, ◌<◌, ◌≡◌, refl, ap, inl, inr, true, ◌&&◌, some, List, [], ◌∷◌, arith,
  get_elem?, length, contains, modulus, half, add32, mul32, add32_small, mul32_small, lt32_small,
  ltb, leb, ◌==◌, Bool-cases,
}
use orthrus.Manager.Segments.{sns_loop, contiguous_loop}

pub length-sns_loop : (n i offset d : ℕ) → length (sns_loop n i offset d) ≡ n
unfolding sns_loop
length-sns_loop zero i offset d = refl
length-sns_loop (suc n) i offset d = ap suc (length-sns_loop n (add32 i 1) offset d)

-- A round of the loop within the range of `int32`.
sns_round :
    (n i offset d : ℕ)
    → i + suc n < modulus
    → offset + (i + suc n) * d < modulus
    → (add32 offset (mul32 i d) ≡ offset + i * d) × (add32 i 1 ≡ suc i)
sns_round n i offset d h k =
    let e : (i + suc n) * d ≡ i * d + suc n * d = omega arith in
    (grind (arith, e, mul32_small i d, add32_small offset (i * d)), omega (arith, add32_small i 1))

pub get_elem?-sns_loop :
    (n i offset d j : ℕ)
    → j < n
    → i + n < modulus
    → offset + (i + n) * d < modulus
    → get_elem? (sns_loop n i offset d) j ≡ some (offset + (i + j) * d)
unfolding sns_loop
get_elem?-sns_loop zero i offset d j lt h k = elim lt [ ]
get_elem?-sns_loop (suc n) i offset d zero lt h k = ground (arith, sns_round n i offset d h k)
get_elem?-sns_loop (suc n) i offset d (suc j) lt h k = ground (
  arith,
  sns_round n i offset d h k,
  get_elem?-sns_loop n (suc i) offset d j (omega arith) (omega arith) (omega arith),
)

pub contains-get_elem? : (k j : ℕ) (xs : List ℕ) → get_elem? xs j ≡ some k → contains k xs ≡ true
contains-get_elem? k j [] h = cc
contains-get_elem? k zero (x ∷ xs) h = ground arith
contains-get_elem? k (suc j) (x ∷ xs) h = ground (arith, contains-get_elem? k j xs h)

-- Each sequence number of the loop is a term of the progression.
pub contains-sns_loop :
    (n i offset d k : ℕ)
    → i + n < modulus
    → offset + (i + n) * d < modulus
    → contains k (sns_loop n i offset d) ≡ true
    → (j : ℕ) × (i ≤ j) × (j < i + n) × (k ≡ offset + j * d)
unfolding sns_loop
contains-sns_loop zero i offset d k h b c = absurd (ground arith)
contains-sns_loop (suc n) i offset d k h b c = elim (Bool-cases (add32 offset (mul32 i d) == k)) [
  | inl here ↦ (i, omega arith, omega arith, ground (arith, sns_round n i offset d h b))
  | inr there ↦
      let (_, step) = sns_round n i offset d h b in
      let (j, lo, hi, e) =
        contains-sns_loop n (suc i) offset d k (omega arith) (omega arith) (ground arith) in
      (j, omega arith, omega arith, e)
]

-- The contiguous loop lists the `n` numbers from `i` on.
pub contiguous_loop-range :
    (n i end k : ℕ)
    → i + n ≡ end
    → end < half
    → contains k (contiguous_loop (suc n) i end) ≡ (leb i k && ltb k end)
unfolding contiguous_loop
contiguous_loop-range zero i end k e h = ground (arith, lt32_small i end)
contiguous_loop-range (suc n) i end k e h = ground (
  arith,
  lt32_small i end,
  add32_small i 1,
  contiguous_loop-range n (suc i) end k (omega arith) h,
)

pub get_elem?-contiguous_loop :
    (n i end j : ℕ)
    → i + n ≡ end
    → end < half
    → j < n
    → get_elem? (contiguous_loop (suc n) i end) j ≡ some (i + j)
unfolding contiguous_loop
get_elem?-contiguous_loop zero i end j e h lt = elim lt [ ]
get_elem?-contiguous_loop (suc n) i end zero e h lt = ground (arith, lt32_small i end)
get_elem?-contiguous_loop (suc n) i end (suc j) e h lt = ground (
  arith,
  lt32_small i end,
  add32_small i 1,
  get_elem?-contiguous_loop n (suc i) end j (omega arith) h (omega arith),
)

pub length-contiguous_loop :
    (n i end : ℕ) → i + n ≡ end → end < half → length (contiguous_loop (suc n) i end) ≡ n
unfolding contiguous_loop
length-contiguous_loop zero i end e h = ground (arith, lt32_small i end)
length-contiguous_loop (suc n) i end e h =
    ground (
      arith,
      lt32_small i end,
      add32_small i 1,
      length-contiguous_loop n (suc i) end (omega arith) h,
    )

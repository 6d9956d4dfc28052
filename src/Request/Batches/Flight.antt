-- ===== src/Request/Batches/Flight.antt =====
-- The mark "in flight" of the requests of a batch.
use orthrus.Request.Bucket.{prepend}
use orthrus.Request.Batches.{
  RequestStore, set_in_flight, mark_in_flight, has_in_flight, resurrect_one, resurrect,
}
use orthrus.Request.Batches.Kept.{Gives, given, Gives-weaken, Relinked, prepend-Relinked}
use orthrus.Prelude.{
  ℕ, ◌==◌, ◌≡◌, ◌∙◌, refl, ap, inl, inr, Bool, true, false, not, ◌||◌, ◌&&◌, if◌then◌else◌, some,
  List, [], ◌∷◌, arith, contains, get_elem?, Bool-cases, Option-cases,
}

-- Whether two batches share a request object.
abbrev pub overlaps : List ℕ → List ℕ → Bool
overlaps first [] = false
overlaps first (r ∷ batch) = contains r first || overlaps first batch

flight-set_in_flight :
    (r q : ℕ) (value : Bool) (st : RequestStore)
    → ((set_in_flight r value st).heap q).in_flight
      ≡ (if q == r then value else (st.heap q).in_flight)
unfolding set_in_flight
flight-set_in_flight r q value st = elim (Bool-cases (q == r)) [
  | inl e ↦ rw e refl
  | inr e ↦ rw e refl
]

flight-mark_in_flight :
    (batch : List ℕ) (q : ℕ) (st : RequestStore)
    → ((mark_in_flight st batch).heap q).in_flight ≡ (st.heap q).in_flight || contains q batch
unfolding mark_in_flight
flight-mark_in_flight [] q st = ground arith
flight-mark_in_flight (r ∷ batch) q st = ground (
  arith,
  flight-mark_in_flight batch q (set_in_flight r true st),
  flight-set_in_flight r q true st,
)

-- After MarkInFlight on one batch, CheckInFlight refuses another one exactly if it did so before, or they
-- share a request.
pub has_in_flight-mark_in_flight :
    (first second : List ℕ) (st : RequestStore)
    → has_in_flight (mark_in_flight st first) second
      ≡ has_in_flight st second || overlaps first second
unfolding has_in_flight
has_in_flight-mark_in_flight first [] st = refl
has_in_flight-mark_in_flight first (r ∷ batch) st =
    ground (arith, flight-mark_in_flight first r st, has_in_flight-mark_in_flight first batch st)

resurrect_one-flight :
    (r : ℕ) (st : RequestStore)
    → Gives
        (λ st1. (q : ℕ) → (st1.heap q).in_flight ≡ (st.heap q).in_flight && not (q == r))
        (resurrect_one r st)
unfolding resurrect_one
resurrect_one-flight r st = elim (Option-cases (get_elem? st.buckets (st.heap r).bucket)) [
  | inl n ↦ rw (n, resurrect_one) tt
  | inr b ↦ elim (Option-cases (prepend (set_in_flight r false st).heap b.0 r)) [
    | inl n ↦ rw (b.1, resurrect_one, n) tt
    | inr m ↦
        rw (b.1, resurrect_one, m.1)
          (λ q.
            ap (λ k. k.in_flight)
              ((given (λ k. Relinked _ k.0) (prepend-Relinked _ b.0 r) m.1).same q)
            ∙ flight-set_in_flight r q false st
            ∙ ground arith)
  ]
]

resurrect-flight :
    (batch : List ℕ) (st : RequestStore)
    → Gives
        (λ st1. (q : ℕ) → (st1.heap q).in_flight ≡ (st.heap q).in_flight && not (contains q batch))
        (resurrect st batch)
unfolding resurrect
resurrect-flight [] st = λ q. ground arith
resurrect-flight (r ∷ batch) st = elim (Option-cases (resurrect_one r st)) [
  | inl n ↦ rw (n, resurrect) tt
  | inr one ↦
      rw (one.1, resurrect)
        (Gives-weaken
          (λ st1.
            (q : ℕ) → (st1.heap q).in_flight ≡ ((one.0).heap q).in_flight && not (contains q batch))
          _ (resurrect one.0 batch)
          (λ st1 h q. ground (
            arith,
            h q,
            given (λ s. (p : ℕ) → (s.heap p).in_flight ≡ (st.heap p).in_flight && not (p == r))
                (resurrect_one-flight r st) one.1 q,
          ))
          (resurrect-flight batch one.0))
]

-- Where Resurrect returns, the requests of the batch are not in flight, and any other is in flight if it was
-- before.
pub resurrect_lem :
    (batch : List ℕ) (st st1 : RequestStore) (q : ℕ)
    → resurrect st batch ≡ some st1
    → (st1.heap q).in_flight ≡ (st.heap q).in_flight && not (contains q batch)
resurrect_lem batch st st1 q e =
    given (λ s. (r : ℕ) → (s.heap r).in_flight ≡ (st.heap r).in_flight && not (contains r batch))
      (resurrect-flight batch st) e q

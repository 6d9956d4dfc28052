-- ===== src/Request/Bucket/Cutting/Chain.antt =====
-- `PrependMultiple` puts a chain of requests in front of the queue.
use mathlib.Core.List.{append-nil}
use orthrus.Prelude.{
  subst, sym, ℕ, ◌≡◌, ◌<◌, refl, false, if◌then◌else◌, ◌==◌, some, List, [], ◌∷◌, ◌++◌, arith,
  count, count-append, length-append, IsDistinct,
}
use orthrus.Request.Bucket.{Heap, Bucket, is_nil, set_next, set_prev}
use orthrus.Request.Bucket.Links.{
  last, next_in, prev_in, IsDistinct-tail, absent, next_in_absent, prev_in_absent, next_in-append,
  prev_in-append, last-append, head_absent,
}
use orthrus.Request.Bucket.Queue.{IsQueue, SameBut, SameBut-refl}
use orthrus.Request.Bucket.Cutting.{link_loop, end_of, prepend_multiple}

-- The links of the chain, and those from before where it has none.
next-link_loop :
    (rs : List ℕ) (h : Heap) (x : ℕ)
    → IsDistinct rs
    → (link_loop rs h x).next ≡ (if is_nil (next_in rs x) then (h x).next else next_in rs x)
unfolding link_loop set_next set_prev
next-link_loop [] h x d = refl
next-link_loop (r ∷ []) h x d = ground arith
next-link_loop (r ∷ s ∷ rs) h x d = ground (
  arith,
  next-link_loop (s ∷ rs) (set_prev s (some r) (set_next r (some s) h)) x
      (IsDistinct-tail r (s ∷ rs) d),
  next_in_absent (s ∷ rs) r (absent r (s ∷ rs) d),
)

prev-link_loop :
    (rs : List ℕ) (h : Heap) (x : ℕ)
    → IsDistinct rs
    → (link_loop rs h x).prev ≡ (if is_nil (prev_in rs x) then (h x).prev else prev_in rs x)
unfolding link_loop set_next set_prev
prev-link_loop [] h x d = refl
prev-link_loop (r ∷ []) h x d = ground arith
prev-link_loop (r ∷ s ∷ rs) h x d = ground (
  arith,
  prev-link_loop (s ∷ rs) (set_prev s (some r) (set_next r (some s) h)) x
      (IsDistinct-tail r (s ∷ rs) d),
  absent s rs (IsDistinct-tail r (s ∷ rs) d),
  head_absent rs s,
  prev_in_absent rs s,
)

core-link_loop :
    (rs : List ℕ) (h : Heap) (x : ℕ)
    → link_loop rs h x
      ≡ record (h x) { next = (link_loop rs h x).next; prev = (link_loop rs h x).prev }
unfolding link_loop set_next set_prev
core-link_loop [] h x = refl
core-link_loop (r ∷ []) h x = refl
core-link_loop (r ∷ s ∷ rs) h x =
    ground (arith, core-link_loop (s ∷ rs) (set_prev s (some r) (set_next r (some s) h)) x)

other-link_loop : (rs : List ℕ) (h : Heap) (x : ℕ) → count x rs ≡ 0 → link_loop rs h x ≡ h x
unfolding link_loop set_next set_prev
other-link_loop [] h x k = refl
other-link_loop (r ∷ []) h x k = refl
other-link_loop (r ∷ s ∷ rs) h x k =
    ground (arith, other-link_loop (s ∷ rs) (set_prev s (some r) (set_next r (some s) h)) x)

last-end_of : (r : ℕ) (rs : List ℕ) → last (r ∷ rs) ≡ some (end_of r rs)
unfolding end_of
last-end_of r [] = refl
last-end_of r (s ∷ rs) = ground (arith, last-end_of s rs)

count-end_of : (r : ℕ) (rs : List ℕ) → 0 < count (end_of r rs) (r ∷ rs)
unfolding end_of
count-end_of r [] = ground arith
count-end_of r (s ∷ rs) = ground (arith, count-end_of s rs)

-- A heap and a bucket that hold a queue, where only the bucket's own requests have changed.
pub record Holds (h : Heap) (b : Bucket) (p : Heap × Bucket) (xs : List ℕ) : Type 0 where
  pub queue : IsQueue p.0 p.1 xs
  pub same : SameBut b.id h p.0
  pub id : p.1.id ≡ b.id

module _ (h : Heap) (b : Bucket) (r : ℕ) (rs : List ℕ)
    (own : (x : ℕ) → 0 < count x (r ∷ rs) → (h x).bucket ≡ b.id) where
  chain_only :
      IsDistinct (r ∷ rs) → IsQueue h b [] → Holds h b (prepend_multiple h b (r ∷ rs)) (r ∷ rs)
  unfolding prepend_multiple
  chain_only d q =
      rw (q.first, prepend_multiple)
        (record {
          queue = record {
            distinct = d;
            first = refl;
            final = rw (last-end_of r rs) refl;
            counted = omega (arith, q.counted);
            owned = λ x k. ground (arith, core-link_loop (r ∷ rs) h x, own x);
            next = λ x k.
                ground
                  (arith, next-link_loop (r ∷ rs) h x d, core-link_loop (r ∷ rs) h x, q.next x);
            prev = λ x k.
                ground
                  (arith, prev-link_loop (r ∷ rs) h x d, core-link_loop (r ∷ rs) h x, q.prev x);
          };
          same = record {
            core = core-link_loop (r ∷ rs) h;
            others = λ x n. ground (arith, other-link_loop (r ∷ rs) h x, own x);
          };
          id = refl;
        })

  abbrev chained : ℕ → Heap
  chained y =
      set_next (end_of r rs) (some y) (set_prev y (some (end_of r rs)) (link_loop (r ∷ rs) h))

  next-chained :
      (y x : ℕ)
      → (chained y x).next ≡ (if x == end_of r rs then some y else (link_loop (r ∷ rs) h x).next)
  unfolding set_next set_prev
  next-chained y x = ground arith

  prev-chained :
      (y x : ℕ)
      → (chained y x).prev ≡ (if x == y then some (end_of r rs) else (link_loop (r ∷ rs) h x).prev)
  unfolding set_next set_prev
  prev-chained y x = ground arith

  core-chained :
      (y x : ℕ)
      → chained y x ≡ record (h x) { next = (chained y x).next; prev = (chained y x).prev }
  unfolding set_next set_prev
  core-chained y x = ground (arith, core-link_loop (r ∷ rs) h x)

  other-chained : (y x : ℕ) → count x (r ∷ rs) ≡ 0 → (x == y) ≡ false → chained y x ≡ h x
  unfolding set_next set_prev
  other-chained y x k n = ground (arith, other-link_loop (r ∷ rs) h x k, count-end_of r rs)

  chain_before :
      (y : ℕ) (ys : List ℕ)
      → IsDistinct ((r ∷ rs) ++ y ∷ ys)
      → IsQueue h b (y ∷ ys)
      → Holds h b (prepend_multiple h b (r ∷ rs)) ((r ∷ rs) ++ y ∷ ys)
  unfolding prepend_multiple
  chain_before y ys d q =
      rw (q.first, prepend_multiple)
        (record {
          queue = record {
            distinct = d;
            first = refl;
            final = rw (last-append (r ∷ rs) y ys) q.final;
            counted = omega (arith, q.counted, length-append (r ∷ rs) (y ∷ ys));
            owned = λ x k.
                ground
                  (arith, core-chained y x, own x, q.owned x, count-append x (r ∷ rs) (y ∷ ys));
            next = λ x k.
                rw (next_in-append (r ∷ rs) (y ∷ ys) x d, last-end_of r rs)
                  (ground (
                    arith,
                    next-chained y x,
                    core-chained y x,
                    next-link_loop (r ∷ rs) h x
                        (λ a. omega (arith, d a, count-append a (r ∷ rs) (y ∷ ys))),
                    q.next x,
                  ));
            prev = λ x k.
                rw (prev_in-append (r ∷ rs) (y ∷ ys) x d, last-end_of r rs)
                  (ground (
                    arith,
                    prev-chained y x,
                    core-chained y x,
                    prev-link_loop (r ∷ rs) h x
                        (λ a. omega (arith, d a, count-append a (r ∷ rs) (y ∷ ys))),
                    q.prev x,
                  ));
          };
          same = record {
            core = core-chained y;
            others = λ x n. ground (arith, other-chained y x, own x, q.owned x, q.owned y);
          };
          id = refl;
        })

-- The requests that are put back, distinct and outside the queue, come to stand before it.
pub prepend_multiple-Holds :
    (h : Heap) (b : Bucket) (rs xs : List ℕ)
    → ((x : ℕ) → 0 < count x rs → (h x).bucket ≡ b.id)
    → IsDistinct (rs ++ xs)
    → IsQueue h b xs
    → Holds h b (prepend_multiple h b rs) (rs ++ xs)
unfolding prepend_multiple
prepend_multiple-Holds h b [] xs own d q = record {
  queue = q;
  same = SameBut-refl b.id h;
  id = refl;
}
prepend_multiple-Holds h b (r ∷ rs) [] own d q =
    subst (Holds h b (prepend_multiple h b (r ∷ rs))) (sym (append-nil (r ∷ rs)))
      (chain_only h b r rs own (λ a. omega (arith, d a, count-append a (r ∷ rs) [])) q)
prepend_multiple-Holds h b (r ∷ rs) (y ∷ ys) own d q = chain_before h b r rs own y ys d q

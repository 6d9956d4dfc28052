-- ===== src/Request/BucketGroup/Batches.antt =====
-- A batch has as many valid requests as were asked for, or all that there are.
use native.Mathlib.Nat.{div-mul-le_self}
use Prim.Native.Nat.{min}
use orthrus.Prelude.{
  ℕ, suc, ◌+◌, ◌-◌, ◌*◌, ◌≡◌, ◌≤◌, ◌<◌, refl, inl, inr, Bool, Option, some, List, [], ◌∷◌, arith,
  count, length, count_if, Bool-cases, ltb, IsDistinct,
}
use orthrus.Protobufs.{ClientRequest}
use orthrus.Request.Bucket.{Heap, Bucket}
use orthrus.Request.Bucket.Queue.{IsQueue, SameBut, SameBut-IsQueue}
use orthrus.Request.BucketGroup.{NewBatch, init_cut_loop, fill_loop, init_cut, cut_batch}
use orthrus.Request.BucketGroup.Step.{Stepped, remove_first-Stepped}

-- The buckets hold the queues.
abbrev pub HoldAll : Heap → List Bucket → List (List ℕ) → Type 0
HoldAll h [] [] = Unit {0}
HoldAll h [] (xs ∷ xss) = ⊥
HoldAll h (b ∷ bs) [] = ⊥
HoldAll h (b ∷ bs) (xs ∷ xss) = IsQueue h b xs × HoldAll h bs xss

abbrev pub ids : List Bucket → List ℕ
ids [] = []
ids (b ∷ bs) = b.id ∷ ids bs

-- How often a request stands in the queues, and how many valid ones they hold.
abbrev pub count_all : ℕ → List (List ℕ) → ℕ
count_all a [] = 0
count_all a (xs ∷ xss) = count a xs + count_all a xss

abbrev pub valid_all : (ℕ → Bool) → List (List ℕ) → ℕ
valid_all v [] = 0
valid_all v (xs ∷ xss) = count_if v xs + valid_all v xss

-- What a loop over the buckets does.
pub record Looped (valid : ClientRequest → Bool) (v : ℕ → Bool) (dest : List ℕ) (h : Heap)
    (bs : List Bucket) (xss : List (List ℕ)) (o : Option NewBatch) : Type 0 where
  pub batch : NewBatch
  pub queues : List (List ℕ)
  pub runs : o ≡ some batch
  pub hold : HoldAll batch.heap batch.buckets queues
  pub names : ids batch.buckets ≡ ids bs
  pub others :
      (b : Bucket) (xs : List ℕ)
      → count b.id (ids bs) ≡ 0
      → IsQueue h b xs
      → IsQueue batch.heap b xs
  pub valid_now : (r : ℕ) → valid (batch.heap r).msg ≡ v r
  pub counts :
      (a : ℕ) → count_all a queues + count a batch.requests ≡ count_all a xss + count a dest
  pub sums : valid_all v queues + length batch.requests ≡ valid_all v xss + length dest

HoldAll-SameBut :
    (id : ℕ) (h h' : Heap) (bs : List Bucket) (xss : List (List ℕ))
    → SameBut id h h'
    → count id (ids bs) ≡ 0
    → HoldAll h bs xss
    → HoldAll h' bs xss
HoldAll-SameBut id h h' [] [] s n q = q
HoldAll-SameBut id h h' [] (xs ∷ xss) s n q = q
HoldAll-SameBut id h h' (b ∷ bs) [] s n q = q
HoldAll-SameBut id h h' (b ∷ bs) (xs ∷ xss) s n (q, qs) = (
  SameBut-IsQueue id h h' b xs s (ground arith) q,
  HoldAll-SameBut id h h' bs xss s (ground arith) qs,
)

mul_suc : (n k : ℕ) → n * suc k ≡ n + n * k
mul_suc n k = omega arith

module _ (valid : ClientRequest → Bool) (v : ℕ → Bool) where
  -- One bucket, and then the others.
  cons_Looped :
      (n : ℕ) (dest : List ℕ) (h : Heap) (b : Bucket) (bs : List Bucket) (xs : List ℕ)
      (xss : List (List ℕ)) (o : Option NewBatch)
      → count b.id (ids bs) ≡ 0
      → (s : Stepped valid v n dest h b xs) → (l : Looped valid v s.requests s.heap bs xss o)
      → Looped valid v dest h
          (b ∷ bs)
          (xs ∷ xss)
          (some (record l.batch { buckets = s.bucket ∷ l.batch.buckets }))
  cons_Looped n dest h b bs xs xss o out s l = record {
    batch = record l.batch { buckets = s.bucket ∷ l.batch.buckets };
    queues = s.queue ∷ l.queues;
    runs = refl;
    hold = (l.others s.bucket s.queue (rw s.id out) s.holds, l.hold);
    names = ground (arith, s.id, l.names);
    others = λ c zs k q.
        l.others c zs (ground arith) (SameBut-IsQueue b.id h s.heap c zs s.same (ground arith) q);
    valid_now = l.valid_now;
    counts = λ a. omega (arith, s.counts a, l.counts a);
    sums = omega (arith, s.sums, l.sums);
  }

  IsDistinct-ids :
      (b : Bucket) (bs : List Bucket)
      → IsDistinct (ids (b ∷ bs))
      → (count b.id (ids bs) ≡ 0) × IsDistinct (ids bs)
  IsDistinct-ids b bs d = (ground (arith, d b.id), λ a. omega (arith, d a))

  -- Nothing is taken.
  unmoved :
      (dest : List ℕ) (h : Heap) (bs : List Bucket) (xss : List (List ℕ))
      → ((r : ℕ) → valid (h r).msg ≡ v r)
      → HoldAll h bs xss
      → Looped valid v dest h bs xss (some (record { heap = h; buckets = bs; requests = dest }))
  unmoved dest h bs xss e q = record {
    batch = record { heap = h; buckets = bs; requests = dest };
    queues = xss;
    runs = refl;
    hold = q;
    names = refl;
    others = λ b xs k q. q;
    valid_now = e;
    counts = λ a. refl;
    sums = refl;
  }

  init_cut_loop-Looped :
      (n : ℕ) (dest : List ℕ) (h : Heap) (bs : List Bucket) (xss : List (List ℕ))
      → ((r : ℕ) → valid (h r).msg ≡ v r)
      → IsDistinct (ids bs)
      → HoldAll h bs xss
      → (l : Looped valid v dest h bs xss (init_cut_loop valid n dest h bs)) × (length
            l.batch.requests
          ≤ length dest + n * length bs)
  unfolding init_cut_loop unmoved cons_Looped
  init_cut_loop-Looped n dest h [] [] e d q = (unmoved dest h [] [] e q, omega arith)
  init_cut_loop-Looped n dest h [] (xs ∷ xss) e d q = elim q [ ]
  init_cut_loop-Looped n dest h (b ∷ bs) [] e d q = elim q [ ]
  init_cut_loop-Looped n dest h (b ∷ bs) (xs ∷ xss) e d (q, qs) =
      let s = remove_first-Stepped valid v n dest h b xs e q in
      let (out, rest) = IsDistinct-ids b bs d in
      let (l, bound) =
        init_cut_loop-Looped n s.requests s.heap bs xss s.valid_now rest
          (HoldAll-SameBut b.id h s.heap bs xss s.same out qs) in
      let runs : init_cut_loop valid n dest h (b ∷ bs)
          ≡ some (record l.batch { buckets = s.bucket ∷ l.batch.buckets }) =
        rw (s.runs, init_cut_loop, l.runs) refl in
      rw runs (
        cons_Looped n dest h b bs xs xss (init_cut_loop valid n s.requests s.heap bs) out s l,
        omega (arith, s.bound, bound, mul_suc n (length bs)),
      )

  fill_loop-Looped :
      (size : ℕ) (dest : List ℕ) (h : Heap) (bs : List Bucket) (xss : List (List ℕ))
      → ((r : ℕ) → valid (h r).msg ≡ v r)
      → IsDistinct (ids bs)
      → HoldAll h bs xss
      → length dest ≤ size
      → (l : Looped valid v dest h bs xss (fill_loop valid size dest h bs)) × (length dest
          ≤ length l.batch.requests)
        × (length l.batch.requests ≤ size)
        × (length l.batch.requests < size → valid_all v l.queues ≡ 0)
  unfolding fill_loop unmoved cons_Looped
  fill_loop-Looped size dest h [] [] e d q k = (unmoved dest h [] [] e q, omega arith, k, λ m. refl)
  fill_loop-Looped size dest h [] (xs ∷ xss) e d q k = elim q [ ]
  fill_loop-Looped size dest h (b ∷ bs) [] e d q k = elim q [ ]
  fill_loop-Looped size dest h (b ∷ bs) (xs ∷ xss) e d (q, qs) k =
      elim (Bool-cases (ltb (length dest) size)) [
        | inr full ↦
            let runs : fill_loop valid size dest h (b ∷ bs)
                ≡ some (record { heap = h; buckets = b ∷ bs; requests = dest }) =
              rw (full, fill_loop) refl in
            rw runs (
              unmoved dest h (b ∷ bs) (xs ∷ xss) e (q, qs),
              omega arith,
              k,
              λ m. absurd (ground arith),
            )
        | inl more ↦
            let s = remove_first-Stepped valid v (size - length dest) dest h b xs e q in
            let (out, rest) = IsDistinct-ids b bs d in
            let (l, grows, bound, short) =
              fill_loop-Looped size s.requests s.heap bs xss s.valid_now rest
                (HoldAll-SameBut b.id h s.heap bs xss s.same out qs) (omega (arith, s.bound, k)) in
            let runs : fill_loop valid size dest h (b ∷ bs)
                ≡ some (record l.batch { buckets = s.bucket ∷ l.batch.buckets }) =
              rw (more, s.runs, fill_loop, l.runs) refl in
            rw runs (
              cons_Looped (size - length dest) dest h b bs xs xss
                  (fill_loop valid size s.requests s.heap bs) out s l,
              omega (arith, s.grows, grows),
              bound,
              λ m. omega (arith, short m, s.short (omega (arith, grows, m, k))),
            )
      ]

-- The first loop does not take too many.
init_cut-le : (size total n : ℕ) → init_cut size total (suc n) * suc n ≤ size
unfolding init_cut
init_cut-le size total n =
    ground (arith, div-mul-le_self size (suc n), div-mul-le_self total (suc n))

-- `CutBatch` on buckets of distinct ids that hold queues runs to its end. The batch has `size` valid
-- requests, or all that the buckets hold where these are fewer; each request that was in a bucket is
-- in the batch or still in a bucket, once, and nothing else is.
pub cut_batch_lem :
    (valid : ClientRequest → Bool) (size total : ℕ) (h : Heap) (b : Bucket) (bs : List Bucket)
    (xss : List (List ℕ))
    → IsDistinct (ids (b ∷ bs))
    → HoldAll h (b ∷ bs) xss
    → (r : NewBatch) × (queues : List (List ℕ)) × (cut_batch valid size total h (b ∷ bs) ≡ some r)
      × HoldAll r.heap r.buckets queues
      × (length r.requests ≡ min size (valid_all (λ q. valid (h q).msg) xss))
      × ((a : ℕ) → count_all a queues + count a r.requests ≡ count_all a xss)
unfolding cut_batch
cut_batch_lem valid size total h b bs xss d q =
    let v : ℕ → Bool = λ q. valid (h q).msg in
    let n = init_cut size total (suc (length bs)) in
    let (l, most) = init_cut_loop-Looped valid v n [] h (b ∷ bs) xss (λ r. refl) d q in
    let (k, grows, bound, short) =
      fill_loop-Looped valid v size l.batch.requests l.batch.heap l.batch.buckets l.queues
        l.valid_now (λ a. rw l.names (d a)) l.hold
        (omega (arith, most, init_cut-le size total (length bs))) in
    (
      k.batch,
      k.queues,
      rw (l.runs, cut_batch) k.runs,
      k.hold,
      ground (arith, bound, short, k.sums, l.sums),
      λ a. omega (arith, k.counts a, l.counts a),
    )

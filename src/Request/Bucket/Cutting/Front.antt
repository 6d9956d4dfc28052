-- ===== src/Request/Bucket/Cutting/Front.antt =====
-- `RemoveFirst` against its specification: it takes the first valid requests of the queue, and the
-- invalid ones that it passes stay in front of the rest.
use mathlib.Core.List.{append_assoc, append-nil}
use orthrus.Prelude.{
  ap, sym, ◌∙◌, ℕ, zero, suc, ◌+◌, ◌≡◌, ◌≤◌, ◌<◌, refl, inl, inr, Bool, true, false, if◌then◌else◌,
  ◌&&◌, ltb, Option, some, List, [], ◌∷◌, ◌++◌, arith, count, count-append, Bool-cases, length,
}
use orthrus.Protobufs.{ClientRequest}
use orthrus.Request.Bucket.{Request, Heap, Bucket, remove_no_lock}
use orthrus.Request.Bucket.Links.{erase}
use orthrus.Request.Bucket.Queue.{
  IsQueue, SameBut, SameBut-refl, SameBut-trans, remove_no_lock-IsQueue,
}
use orthrus.Request.Bucket.Cutting.{Cut, remove_first_loop, remove_first, prepend_multiple}
use orthrus.Request.Bucket.Cutting.Chain.{Holds, prepend_multiple-Holds}

-- The first `n` valid elements of a list; the invalid ones before the last of them; the rest.
abbrev pub taken : (ℕ → Bool) → ℕ → List ℕ → List ℕ
taken valid zero xs = []
taken valid (suc n) [] = []
taken valid (suc n) (x ∷ xs) = if valid x then x ∷ taken valid n xs else taken valid (suc n) xs

abbrev pub passed : (ℕ → Bool) → ℕ → List ℕ → List ℕ
passed valid zero xs = []
passed valid (suc n) [] = []
passed valid (suc n) (x ∷ xs) = if valid x then passed valid n xs else x ∷ passed valid (suc n) xs

abbrev pub left : (ℕ → Bool) → ℕ → List ℕ → List ℕ
left valid zero xs = xs
left valid (suc n) [] = []
left valid (suc n) (x ∷ xs) = if valid x then left valid n xs else left valid (suc n) xs

-- Each element is taken, passed or left.
pub count-taken :
    (valid : ℕ → Bool) (n : ℕ) (xs : List ℕ) (a : ℕ)
    → count a (taken valid n xs) + count a (passed valid n xs) + count a (left valid n xs)
      ≡ count a xs
count-taken valid zero xs a = omega arith
count-taken valid (suc n) [] a = omega arith
count-taken valid (suc n) (x ∷ xs) a =
    ground (arith, count-taken valid n xs a, count-taken valid (suc n) xs a)

-- What the loop leaves.
record Looped (v : ℕ → Bool) (n : ℕ) (xs : List ℕ) (c : Cut) (o : Option Cut) : Type 0 where
  cut : Cut
  runs : o ≡ some cut
  dest : cut.dest ≡ c.dest ++ taken v n xs
  pending : cut.pending ≡ c.pending ++ passed v n xs
  queue : IsQueue cut.heap cut.bucket (left v n xs)
  same : SameBut c.bucket.id c.heap cut.heap
  id : cut.bucket.id ≡ c.bucket.id

remove_head :
    (h : Heap) (b : Bucket) (x : ℕ) (xs : List ℕ)
    → IsQueue h b (x ∷ xs)
    → Holds h b (remove_no_lock h b x) xs
remove_head h b x xs q =
    let (queue, same, id) = remove_no_lock-IsQueue h b (x ∷ xs) x q (q.owned x (ground arith)) in
    let e : erase x (x ∷ xs) ≡ xs = ground arith in
    record { queue = rw e at queue; same = same; id = id }

stopped :
    (v : ℕ → Bool) (n : ℕ) (xs : List ℕ) (c : Cut)
    → taken v n xs ≡ []
    → passed v n xs ≡ []
    → left v n xs ≡ xs
    → IsQueue c.heap c.bucket xs
    → Looped v n xs c (some c)
stopped v n xs c t p l q = record {
  cut = c;
  runs = refl;
  dest = rw (t, append-nil c.dest) refl;
  pending = rw (p, append-nil c.pending) refl;
  queue = rw l q;
  same = SameBut-refl c.bucket.id c.heap;
  id = refl;
}

-- One round: the first request goes to the destination or to those that are put back.
abbrev after : Bool → ℕ → Cut → Cut
after good x c = record {
  heap = (remove_no_lock c.heap c.bucket x).0;
  bucket = (remove_no_lock c.heap c.bucket x).1;
  dest = if good then c.dest ++ x ∷ [] else c.dest;
  pending = if good then c.pending else c.pending ++ x ∷ [];
}

module _ (valid : ClientRequest → Bool) (v : ℕ → Bool) where
  loop_zero :
      (fuel : ℕ) (xs : List ℕ) (c : Cut)
      → IsQueue c.heap c.bucket xs
      → Looped v zero xs c (remove_first_loop fuel valid zero c)
  unfolding remove_first_loop
  loop_zero zero xs c q = stopped v zero xs c refl refl refl q
  loop_zero (suc fuel) xs c q =
      let e : (ltb 0 c.bucket.num_requests && ltb 0 zero) ≡ false = ground arith in
      rw (e, remove_first_loop) (stopped v zero xs c refl refl refl q)

  loop_empty :
      (fuel n : ℕ) (c : Cut)
      → IsQueue c.heap c.bucket []
      → Looped v (suc n) [] c (remove_first_loop fuel valid (suc n) c)
  unfolding remove_first_loop
  loop_empty zero n c q = stopped v (suc n) [] c refl refl refl q
  loop_empty (suc fuel) n c q =
      let e : (ltb 0 c.bucket.num_requests && ltb 0 (suc n)) ≡ false = ground (arith, q.counted) in
      rw (e, remove_first_loop) (stopped v (suc n) [] c refl refl refl q)

  valid_after :
      (c : Cut) (x r : ℕ) (xs : List ℕ)
      → IsQueue c.heap c.bucket (x ∷ xs)
      → valid ((remove_no_lock c.heap c.bucket x).0 r).msg ≡ valid (c.heap r).msg
  valid_after c x r xs q =
      ap valid (ap (λ (q : Request). q.msg) ((remove_head c.heap c.bucket x xs q).same.core r))

  loop_step :
      (fuel n x : ℕ) (c : Cut)
      → 0 < c.bucket.num_requests
      → c.bucket.first_request ≡ some x
      → remove_first_loop (suc fuel) valid (suc n) c ≡ (
          if valid (c.heap x).msg
          then remove_first_loop fuel valid n (after true x c)
          else remove_first_loop fuel valid (suc n) (after false x c))
  unfolding remove_first_loop
  loop_step fuel n x c p f = elim (Bool-cases (valid (c.heap x).msg)) [
    | inl e ↦ ground arith
    | inr e ↦ ground arith
  ]

  remove_first_loop-Looped :
      (fuel n : ℕ) (xs : List ℕ) (c : Cut)
      → length xs ≤ fuel
      → ((x : ℕ) → valid (c.heap x).msg ≡ v x)
      → IsQueue c.heap c.bucket xs
      → Looped v n xs c (remove_first_loop fuel valid n c)
  remove_first_loop-Looped fuel zero xs c f e q = loop_zero fuel xs c q
  remove_first_loop-Looped fuel (suc n) [] c f e q = loop_empty fuel n c q
  remove_first_loop-Looped zero (suc n) (x ∷ xs) c f e q = absurd (omega arith)
  remove_first_loop-Looped (suc fuel) (suc n) (x ∷ xs) c f e q =
      let step = loop_step fuel n x c (omega (arith, q.counted)) q.first in
      let next = remove_head c.heap c.bucket x xs q in
      let known : (r : ℕ) → valid ((remove_no_lock c.heap c.bucket x).0 r).msg ≡ v r =
        λ r. valid_after c x r xs q ∙ e r in
      elim (Bool-cases (v x)) [
        | inl good ↦
            let rest =
              remove_first_loop-Looped fuel n xs (after true x c) (omega arith) known next.queue in
            record {
              cut = rest.cut;
              runs = ground (arith, step, e x, rest.runs);
              dest = ground (arith, rest.dest, append_assoc c.dest (x ∷ []) (taken v n xs));
              pending = ground (arith, rest.pending);
              queue = rw good rest.queue;
              same =
                  SameBut-trans c.bucket.id c.heap (remove_no_lock c.heap c.bucket x).0
                    rest.cut.heap next.same (rw next.id at rest.same);
              id = rest.id ∙ next.id;
            }
        | inr bad ↦
            let rest =
              remove_first_loop-Looped fuel (suc n) xs (after false x c) (omega arith) known
                next.queue in
            record {
              cut = rest.cut;
              runs = ground (arith, step, e x, rest.runs);
              dest = ground (arith, rest.dest);
              pending =
                  ground
                    (arith, rest.pending, append_assoc c.pending (x ∷ []) (passed v (suc n) xs));
              queue = rw bad rest.queue;
              same =
                  SameBut-trans c.bucket.id c.heap (remove_no_lock c.heap c.bucket x).0
                    rest.cut.heap next.same (rw next.id at rest.same);
              id = rest.id ∙ next.id;
            }
      ]

-- `RemoveFirst` on a bucket that holds a queue runs to its end: the destination is extended by the
-- first `n` valid requests, in order; the bucket holds the others in their order, but for the invalid
-- ones that stood before the last one taken, which come first; other buckets' requests are untouched.
pub remove_first_lem :
    (valid : ClientRequest → Bool) (n : ℕ) (dest : List ℕ) (h : Heap) (b : Bucket) (xs : List ℕ)
    → IsQueue h b xs
    → (p : Heap × Bucket) × (remove_first valid n dest h b
        ≡ some (p, dest ++ taken (λ r. valid (h r).msg) n xs))
      × Holds h b p (passed (λ r. valid (h r).msg) n xs ++ left (λ r. valid (h r).msg) n xs)
unfolding remove_first
remove_first_lem valid n dest h b xs q =
    let v : ℕ → Bool = λ r. valid (h r).msg in
    let c : Cut = record { heap = h; bucket = b; dest = dest; pending = [] } in
    let l =
      remove_first_loop-Looped valid v b.num_requests n xs c (omega (arith, q.counted)) (λ r. refl)
        q in
    let back =
      prepend_multiple-Holds l.cut.heap l.cut.bucket (passed v n xs) (left v n xs)
        (λ x k.
          ap (λ (q : Request). q.bucket) (l.same.core x)
          ∙ q.owned x (omega (arith, count-taken v n xs x))
          ∙ sym l.id)
        (λ a.
          omega (
            arith,
            count-append a (passed v n xs) (left v n xs),
            count-taken v n xs a,
            q.distinct a,
          ))
        l.queue in
    (
      prepend_multiple l.cut.heap l.cut.bucket (passed v n xs),
      rw (l.runs, remove_first, l.pending, l.dest) refl,
      record {
        queue = back.queue;
        same =
            SameBut-trans b.id h l.cut.heap
              (prepend_multiple l.cut.heap l.cut.bucket (passed v n xs)).0 l.same
              (rw l.id at back.same);
        id = back.id ∙ l.id;
      },
    )

-- ===== src/Request/Bucket/Index/Superset.antt =====
-- The index of a bucket knows each request of the queue by its id, and `addNoLock` keeps it so; hence
-- no two requests of a queue have the same id.
use orthrus.Prelude.{
  ap, sym, ◌∙◌, ℕ, ◌+◌, ◌≡◌, ◌<◌, refl, inl, inr, Bool, true, false, not, if◌then◌else◌, ◌==◌, ◌&&◌,
  ◌||◌, Option, none, some, List, [], ◌∷◌, ◌++◌, arith, count, count-append, lookup, insert,
  lookup-insert, Bool-cases, Option-cases, same_bytes, same_bytes_refl,
}
use orthrus.Request.Bucket.{Request, Heap, Bucket, req_id, remove_no_lock, append, notify}
use orthrus.Request.Bucket.Links.{erase, count-erase}
use orthrus.Request.Bucket.Queue.{
  IsQueue, SameBut, SameBut-refl, SameBut-trans, remove_no_lock-IsQueue, index-remove_no_lock,
}
use orthrus.Request.Bucket.Ends.{Queued, append-Queued, notify-IsQueue, id-notify, index-notify}
use orthrus.Request.Bucket.Index.{Added, append_indexed, add_no_lock}

abbrev pub id_of : Heap → ℕ → ℕ
id_of h r = req_id (h r).msg.request_id

pub record IsIndexed (h : Heap) (b : Bucket) (xs : List ℕ) : Type 0 where
  pub listed : (r : ℕ) → 0 < count r xs → lookup (id_of h r) b.req_index ≡ some r
  pub named : (k r : ℕ) → lookup k b.req_index ≡ some r → (id_of h r ≡ k) × ((h r).bucket ≡ b.id)

-- What holds after a request was added, or not.
pub record IsAdded (h : Heap) (b : Bucket) (r : ℕ) (xs : List ℕ) (o : Option Added) : Type 0 where
  pub done : Added
  pub now : List ℕ
  pub runs : o ≡ some done
  pub queue : IsQueue done.heap done.bucket now
  pub indexed : IsIndexed done.heap done.bucket now
  pub same : SameBut b.id h done.heap
  pub id : done.bucket.id ≡ b.id
  -- the requests of other ids stay, and only `r` is new
  pub kept : (x : ℕ) → (id_of h x == id_of h r) ≡ false → count x now ≡ count x xs
  pub fresh : (x : ℕ) → 0 < count x now → 0 < count x xs + (if x == r then 1 else 0)
  -- the request that is returned is the one of this id, and has the digest
  pub stored :
      (s : ℕ)
      → done.stored ≡ some s
      → (lookup (id_of h r) done.bucket.req_index ≡ some s)
        × (same_bytes (h s).digest (h r).digest ≡ true)

id-SameBut : (id : ℕ) (h h' : Heap) (r : ℕ) → SameBut id h h' → id_of h' r ≡ id_of h r
id-SameBut id h h' r s = ap (λ (q : Request). req_id q.msg.request_id) (s.core r)

reindexed :
    (h : Heap) (b : Bucket) (xs : List ℕ) (m : List (ℕ × ℕ))
    → IsQueue h b xs
    → IsQueue h (record b { req_index = m }) xs
reindexed h b xs m q = record {
  distinct = q.distinct;
  first = q.first;
  final = q.final;
  counted = q.counted;
  owned = q.owned;
  next = q.next;
  prev = q.prev;
}

module _ (h : Heap) (b : Bucket) (r : ℕ) (xs : List ℕ) (own : (h r).bucket ≡ b.id)
    (q : IsQueue h b xs) (ix : IsIndexed h b xs) where
  left_alone :
      (a : Added)
      → a.heap ≡ h
      → a.bucket ≡ b
      → ((s : ℕ)
          → a.stored ≡ some s
          → (lookup (id_of h r) b.req_index ≡ some s)
            × (same_bytes (h s).digest (h r).digest ≡ true))
      → IsAdded h b r xs (some a)
  left_alone a eh eb st = record {
    done = a;
    now = xs;
    runs = refl;
    queue = rw (eh, eb) q;
    indexed = rw (eh, eb) ix;
    same = rw eh (SameBut-refl b.id h);
    id = ap (λ (b : Bucket). b.id) eb;
    kept = λ x n. refl;
    fresh = λ x k. omega arith;
    stored = rw eb st;
  }

  -- The queue without the requests of this id, and the request behind it.
  module _ (h1 : Heap) (b1 : Bucket) (ys : List ℕ) (q1 : IsQueue h1 b1 ys) (s1 : SameBut b.id h h1)
      (i1 : b1.id ≡ b.id) (x1 : b1.req_index ≡ b.req_index) (out : count r ys ≡ 0)
      (less : (x : ℕ) → count x ys ≡ (if id_of h x == id_of h r then 0 else count x xs)) where
    own1 : (h1 r).bucket ≡ b1.id
    own1 = ap (λ (q : Request). q.bucket) (s1.core r) ∙ own ∙ sym i1

    appended : Queued h1 b1 (append h1 b1 r) (ys ++ r ∷ [])
    appended = append-Queued h1 b1 r own1 ys out q1

    abbrev b2 : Bucket
    b2 = record appended.bucket { req_index = insert (id_of h1 r) r appended.bucket.req_index }

    id_now : (x : ℕ) → id_of appended.heap x ≡ id_of h x
    id_now x = id-SameBut b1.id h1 appended.heap x appended.same ∙ id-SameBut b.id h h1 x s1

    bucket_now : (x : ℕ) → (appended.heap x).bucket ≡ (h x).bucket
    bucket_now x =
        ap (λ (q : Request). q.bucket) (appended.same.core x)
        ∙ ap (λ (q : Request). q.bucket) (s1.core x)

    lookup_now :
        (k : ℕ) → lookup k b2.req_index ≡ (if id_of h r == k then some r else lookup k b.req_index)
    lookup_now k =
        lookup-insert (id_of h1 r) k r appended.bucket.req_index
        ∙ rw (id-SameBut b.id h h1 r s1, appended.index, x1) refl

    IsIndexed-now : IsIndexed appended.heap b2 (ys ++ r ∷ [])
    IsIndexed-now = record {
      listed = λ x k.
          rw (lookup_now (id_of appended.heap x), id_now x)
            (ground (arith, count-append x ys (r ∷ []), less x, ix.listed x));
      named = λ k x e.
          let f = sym (lookup_now k) ∙ e in
          (
            ground (arith, id_now x, ix.named k x, f),
            ground (arith, bucket_now x, ix.named k x, f, appended.id, i1, own),
          );
    }

    appended_now :
        (b3 : Bucket)
        → IsQueue appended.heap b3 (ys ++ r ∷ [])
        → b3.req_index ≡ b2.req_index
        → b3.id ≡ b2.id
        → IsAdded h b r xs
            (some (record { heap = appended.heap; bucket = b3; stored = some r; retry = false }))
    appended_now b3 q3 x3 i3 = record {
      done = record { heap = appended.heap; bucket = b3; stored = some r; retry = false };
      now = ys ++ r ∷ [];
      runs = refl;
      queue = q3;
      indexed = record {
        listed = λ x k. rw x3 (IsIndexed-now.listed x k);
        named = λ k x e. rw i3 (IsIndexed-now.named k x (rw x3 at e));
      };
      same = SameBut-trans b.id h h1 appended.heap s1 (rw i1 at appended.same);
      id = i3 ∙ appended.id ∙ i1;
      kept = λ x n. ground (arith, count-append x ys (r ∷ []), less x);
      fresh = λ x k. ground (arith, count-append x ys (r ∷ []), less x);
      stored = λ s e.
          let at : r ≡ s = ground arith in
          rw (x3, ← at) (ground (arith, lookup_now (id_of h r)), same_bytes_refl (h r).digest);
    }

  appended_indexed :
      (ys : List ℕ) (h1 : Heap) (b1 : Bucket) (a : Queued h1 b1 (append h1 b1 r) ys)
      → append_indexed h1 b1 r
        ≡ some (a.heap, record a.bucket { req_index = insert (id_of h1 r) r a.bucket.req_index })
  unfolding append_indexed
  appended_indexed ys h1 b1 a = rw (a.runs, append_indexed) refl

  known_case :
      (sign early : Bool) (old : ℕ)
      → lookup (id_of h r) b.req_index ≡ some old
      → IsAdded h b r xs (add_no_lock sign early h b r)
  unfolding add_no_lock
  known_case sign early old e = elim (Bool-cases (same_bytes (h old).digest (h r).digest)) [
    | inl d ↦
        let runs : add_no_lock sign early h b r
            ≡ some (record { heap = h; bucket = b; stored = some old; retry = false }) =
          ground (arith, e, d) in
        rw runs (
          left_alone (record { heap = h; bucket = b; stored = some old; retry = false }) refl refl
            (λ s k. let at : old ≡ s = ground arith in (ground (arith, e), rw (← at) d)))
    | inr d ↦ elim (Bool-cases ((h old).verified || not sign)) [
      | inl v ↦
          let runs : add_no_lock sign early h b r
              ≡ some (record { heap = h; bucket = b; stored = none; retry = false }) =
            ground (arith, e, d, v) in
          rw runs (
            left_alone (record { heap = h; bucket = b; stored = none; retry = false }) refl refl
              (λ s k. absurd (cc)))
      | inr v ↦ elim (Bool-cases (h r).verified) [
        | inr w ↦
            let runs : add_no_lock sign early h b r
                ≡ some (record { heap = h; bucket = b; stored = none; retry = true }) =
              ground (arith, e, d, v, w) in
            rw runs (
              left_alone (record { heap = h; bucket = b; stored = none; retry = true }) refl refl
                (λ s k. absurd (cc)))
        | inl w ↦
            let (o, owned) = ix.named (id_of h r) old e in
            let (q1, s1, i1) = remove_no_lock-IsQueue h b xs old q owned in
            let less : (x : ℕ)
                → count x (erase old xs) ≡ (if id_of h x == id_of h r then 0 else count x xs) =
              λ x. ground (arith, count-erase old xs x q.distinct, ix.listed x, o, e) in
            let h1 = (remove_no_lock h b old).0 in
            let b1 = (remove_no_lock h b old).1 in
            let x1 = index-remove_no_lock h b old in
            let out : count r (erase old xs) ≡ 0 = ground (arith, less r) in
            let a = appended h1 b1 (erase old xs) q1 s1 i1 x1 out less in
            let b2 = record a.bucket { req_index = insert (id_of h1 r) r a.bucket.req_index } in
            let runs : add_no_lock sign early h b r
                ≡ some (record { heap = a.heap; bucket = b2; stored = some r; retry = false }) =
              ground (arith, e, d, v, w, appended_indexed (erase old xs ++ r ∷ []) h1 b1 a) in
            rw runs (
              appended_now h1 b1 (erase old xs) q1 s1 i1 x1 out less b2
                (reindexed a.heap a.bucket (erase old xs ++ r ∷ []) b2.req_index a.queue) refl refl)
      ]
    ]
  ]

  new_case :
      (sign early : Bool)
      → lookup (id_of h r) b.req_index ≡ none
      → IsAdded h b r xs (add_no_lock sign early h b r)
  unfolding add_no_lock
  new_case sign early e = elim (Bool-cases (sign && early && not (h r).verified)) [
    | inl v ↦
        let runs : add_no_lock sign early h b r
            ≡ some (record { heap = h; bucket = b; stored = none; retry = true }) =
          ground (arith, e, v) in
        rw runs (
          left_alone (record { heap = h; bucket = b; stored = none; retry = true }) refl refl
            (λ s k. absurd (cc)))
    | inr v ↦
        let less : (x : ℕ) → count x xs ≡ (if id_of h x == id_of h r then 0 else count x xs) =
          λ x. ground (arith, ix.listed x, e) in
        let out : count r xs ≡ 0 = ground (arith, less r) in
        let s1 = SameBut-refl b.id h in
        let a = appended h b xs q s1 refl refl out less in
        let b2 = record a.bucket { req_index = insert (id_of h r) r a.bucket.req_index } in
        let runs : add_no_lock sign early h b r
            ≡ some (record { heap = a.heap; bucket = notify b2; stored = some r; retry = false }) =
          ground (arith, e, v, appended_indexed (xs ++ r ∷ []) h b a) in
        rw runs (
          appended_now h b xs q s1 refl refl out less (notify b2)
            (notify-IsQueue a.heap b2 (xs ++ r ∷ [])
              (reindexed a.heap a.bucket (xs ++ r ∷ []) b2.req_index a.queue))
            (index-notify b2) (id-notify b2))
  ]

-- `addNoLock` on a bucket whose index knows its queue runs to its end and leaves such a bucket: other
-- buckets' requests and those of other ids stay, at most the request itself is new, and the request
-- that is returned, if any, is the one of this id, with the same digest.
pub add_no_lock-IsAdded :
    (sign early : Bool) (h : Heap) (b : Bucket) (r : ℕ) (xs : List ℕ)
    → (h r).bucket ≡ b.id
    → IsQueue h b xs
    → IsIndexed h b xs
    → IsAdded h b r xs (add_no_lock sign early h b r)
add_no_lock-IsAdded sign early h b r xs own q ix =
    elim (Option-cases (lookup (id_of h r) b.req_index)) [
      | inl e ↦ new_case h b r xs own q ix sign early e
      | inr (old, e) ↦ known_case h b r xs own q ix sign early old e
    ]

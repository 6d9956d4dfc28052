-- ===== src/Request/Batches/Digests.antt =====
-- The requests of a batch that `NewBatch` returns have the digests of its message, whether they are made
-- for it or were there before.
use orthrus.Request.Bucket.{Heap, Bucket, req_id, remove_no_lock, append, notify, is_nil}
use orthrus.Request.Bucket.Queue.{index-remove_no_lock}
use orthrus.Request.Bucket.Index.{Added, append_indexed, add_no_lock}
use orthrus.Request.Batches.Kept.{
  Gives, given, Relinked, Relinked-refl, Relinked-trans, remove_no_lock-Relinked,
  append_indexed-Relinked,
}
use orthrus.Prelude.{
  ℕ, ◌<◌, ◌==◌, ◌≡◌, ◌∙◌, refl, sym, ap, inl, inr, Bool, true, false, not, ◌||◌, ◌&&◌, none, some,
  List, arith, lookup, insert, lookup-insert, Bool-cases, Option-cases, same_bytes, same_bytes-eq,
  the_same, nothing_there, if◌then◌else◌,
}

-- The index of a bucket points below an address.
pub record IsBounded (n : ℕ) (b : Bucket) : Type 0 where
  pub below : (k s : ℕ) → lookup k b.req_index ≡ some s → s < n

same-IsBounded : (n : ℕ) (b c : Bucket) → c.req_index ≡ b.req_index → IsBounded n b → IsBounded n c
same-IsBounded n b c e i = record {
  below = λ k s p. i.below k s (ap (λ x. lookup k x) (sym e) ∙ p);
}

notify-index : (b : Bucket) → (notify b).req_index ≡ b.req_index
unfolding notify
notify-index b = ground arith

append-index :
    (h : Heap) (b : Bucket) (r : ℕ) → Gives (λ m. m.1.req_index ≡ b.req_index) (append h b r)
unfolding append
append-index h b r = elim (Bool-cases (not (is_nil (h r).prev) || not (is_nil (h r).next))) [
  | inl t ↦ rw (t, append) tt
  | inr t ↦ elim (Option-cases b.first_request) [
    | inl n ↦ rw (t, append, n) refl
    | inr f ↦ elim (Option-cases b.last_request) [
      | inl n ↦ rw (t, append, f.1, n) tt
      | inr l ↦ rw (t, append, f.1, l.1) refl
    ]
  ]
]

insert-below :
    (n key r : ℕ) (m : List (ℕ × ℕ))
    → r < n
    → ((k s : ℕ) → lookup k m ≡ some s → s < n)
    → (k s : ℕ) → lookup k (insert key r m) ≡ some s
    → s < n
insert-below n key r m lt i k s p = elim (Bool-cases (key == k)) [
  | inl e ↦ omega (
    arith,
    lt,
    the_same
        (ap (λ t. if t then some r else lookup k m) (sym e) ∙ sym (lookup-insert key k r m) ∙ p),
  )
  | inr e ↦
      i k s (ap (λ t. if t then some r else lookup k m) (sym e) ∙ sym (lookup-insert key k r m) ∙ p)
]

append_indexed-IsBounded :
    (n : ℕ) (h : Heap) (b : Bucket) (r : ℕ)
    → r < n
    → IsBounded n b
    → Gives (λ m. IsBounded n m.1) (append_indexed h b r)
unfolding append_indexed
append_indexed-IsBounded n h b r lt i = elim (Option-cases (append h b r)) [
  | inl e ↦ rw (e, append_indexed) tt
  | inr m ↦
      rw (m.1, append_indexed)
        (record {
          below =
              insert-below n (req_id (h r).msg.request_id) r ((m.0).1).req_index lt
                (same-IsBounded n b (m.0).1
                  (given (λ o. o.1.req_index ≡ b.req_index) (append-index h b r) m.1) i).below;
        })
]

relinked_by :
    (h : Heap) (b : Bucket) (r : ℕ) (m : Heap × Bucket)
    → append_indexed h b r ≡ some m
    → Relinked h m.0
relinked_by h b r m e = given (λ o. Relinked h o.0) (append_indexed-Relinked h b r) e

IsBounded-by :
    (n : ℕ) (h : Heap) (b : Bucket) (r : ℕ)
    → r < n
    → IsBounded n b
    → (m : Heap × Bucket) → append_indexed h b r ≡ some m
    → IsBounded n m.1
IsBounded-by n h b r lt i m e =
    given (λ o. IsBounded n o.1) (append_indexed-IsBounded n h b r lt i) e

-- What `addNoLock` leaves.
pub record Adds (n : ℕ) (h : Heap) (r : ℕ) (a : Added) : Type 0 where
  pub relinked : Relinked h a.heap
  pub bounded : IsBounded n a.bucket
  pub stored : (s : ℕ) → a.stored ≡ some s → (s < n) × ((h s).digest ≡ (h r).digest)

untouched :
    (n : ℕ) (h : Heap) (b : Bucket) (r : ℕ) (retry : Bool)
    → IsBounded n b
    → Adds n h r (record { heap = h; bucket = b; stored = none; retry = retry })
untouched n h b r retry i = record {
  relinked = Relinked-refl h;
  bounded = i;
  stored = λ s e. elim (nothing_there e) [ ];
}

appended :
    (n : ℕ) (h h1 : Heap) (b : Bucket) (r : ℕ)
    → Relinked h h1
    → r < n
    → IsBounded n b
    → Adds n h r (record { heap = h1; bucket = b; stored = some r; retry = false })
appended n h h1 b r k lt i = record {
  relinked = k;
  bounded = i;
  stored = λ s e. (omega (arith, lt, the_same e), ap (λ x. (h x).digest) (the_same e));
}

pub add_no_lock-Adds :
    (sign early : Bool) (n : ℕ) (h : Heap) (b : Bucket) (r : ℕ)
    → r < n
    → IsBounded n b
    → Gives (Adds n h r) (add_no_lock sign early h b r)
unfolding add_no_lock
add_no_lock-Adds sign early n h b r lt i =
    elim (Option-cases (lookup (req_id (h r).msg.request_id) b.req_index)) [
      | inl new ↦ elim (Bool-cases (sign && early && not (h r).verified)) [
        | inl t ↦ rw (new, add_no_lock, t) (untouched n h b r true i)
        | inr t ↦ elim (Option-cases (append_indexed h b r)) [
          | inl e ↦ rw (new, add_no_lock, t, e) tt
          | inr m ↦
              rw (new, add_no_lock, t, m.1)
                (appended n h (m.0).0 (notify (m.0).1) r (relinked_by h b r m.0 m.1) lt (
                  same-IsBounded n (m.0).1 _ (notify-index (m.0).1)
                    (IsBounded-by n h b r lt i m.0 m.1)))
        ]
      ]
      | inr old ↦ elim (Bool-cases (same_bytes (h old.0).digest (h r).digest)) [
        | inl t ↦
            rw (old.1, add_no_lock, t)
              (record {
                relinked = Relinked-refl h;
                bounded = i;
                stored = λ s e. (
                  omega (arith, i.below _ _ old.1, the_same e),
                  ap (λ x. (h x).digest) (the_same e) ∙ same_bytes-eq _ _ t,
                );
              })
        | inr t ↦ elim (Bool-cases ((h old.0).verified || not sign)) [
          | inl u ↦ rw (old.1, add_no_lock, t, u) (untouched n h b r false i)
          | inr u ↦ elim (Bool-cases (h r).verified) [
            | inr v ↦ rw (old.1, add_no_lock, t, u, v) (untouched n h b r true i)
            | inl v ↦
                let removed = remove_no_lock h b old.0 in
                let bounded = same-IsBounded n b removed.1 (index-remove_no_lock h b old.0) i in
                elim (Option-cases (append_indexed removed.0 removed.1 r)) [
                  | inl e ↦ rw (old.1, add_no_lock, t, u, v, e) tt
                  | inr m ↦
                      rw (old.1, add_no_lock, t, u, v, m.1)
                        (appended n h (m.0).0 (m.0).1 r
                          (Relinked-trans (remove_no_lock-Relinked h b old.0)
                            (relinked_by removed.0 removed.1 r m.0 m.1))
                          lt (IsBounded-by n removed.0 removed.1 r lt bounded m.0 m.1))
                ]
          ]
        ]
      ]
    ]

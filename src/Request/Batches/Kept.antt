-- ===== src/Request/Batches/Kept.antt =====
-- Adding a request to a bucket, or putting it back, changes no request but for its links.
use orthrus.Request.Bucket.{
  Request, Heap, Bucket, set_next, set_prev, set_next_of, set_prev_of, remove_no_lock, append,
  prepend, is_outside, is_nil, req_id,
}
use orthrus.Request.Bucket.Index.{append_indexed}
use orthrus.Prelude.{
  ℕ, ◌==◌, ◌≡◌, ◌∙◌, refl, subst, inl, inr, not, ◌||◌, Option, none, some, lookup, Bool-cases,
  Option-cases,
}

-- A request without its links.
abbrev pub unlinked : Request → Request
unlinked r = record r { next = none; prev = none }

pub record Relinked (h h1 : Heap) : Type 0 where
  pub same : (q : ℕ) → unlinked (h1 q) ≡ unlinked (h q)

pub Relinked-refl : (h : Heap) → Relinked h h
Relinked-refl h = record { same = λ q. refl }

pub Relinked-trans : {a b c : Heap} → Relinked a b → Relinked b c → Relinked a c
Relinked-trans p q = record { same = λ r. q.same r ∙ p.same r }

-- What holds of the value, if there is one.
abbrev pub Gives : {A : Type 0} → (A → Type 0) → Option A → Type 0
Gives P none = Unit
Gives P (some a) = P a

pub given : {A : Type 0} (P : A → Type 0) {o : Option A} {a : A} → Gives P o → o ≡ some a → P a
given P g e = subst (Gives P) e g

pub Gives-weaken :
    {A : Type 0} (P Q : A → Type 0) (o : Option A) → ((a : A) → P a → Q a) → Gives P o → Gives Q o
Gives-weaken P Q none f g = tt
Gives-weaken P Q (some a) f g = f a g

set_next-Relinked : (p : ℕ) (v : Option ℕ) (h : Heap) → Relinked h (set_next p v h)
unfolding set_next
set_next-Relinked p v h = record {
  same = λ q. elim (Bool-cases (q == p)) [ inl e ↦ rw e refl | inr e ↦ rw e refl ];
}

set_prev-Relinked : (p : ℕ) (v : Option ℕ) (h : Heap) → Relinked h (set_prev p v h)
unfolding set_prev
set_prev-Relinked p v h = record {
  same = λ q. elim (Bool-cases (q == p)) [ inl e ↦ rw e refl | inr e ↦ rw e refl ];
}

set_next_of-Relinked : (p v : Option ℕ) (h : Heap) → Relinked h (set_next_of p v h)
unfolding set_next_of
set_next_of-Relinked none v h = Relinked-refl h
set_next_of-Relinked (some p) v h = set_next-Relinked p v h

set_prev_of-Relinked : (p v : Option ℕ) (h : Heap) → Relinked h (set_prev_of p v h)
unfolding set_prev_of
set_prev_of-Relinked none v h = Relinked-refl h
set_prev_of-Relinked (some p) v h = set_prev-Relinked p v h

pub remove_no_lock-Relinked : (h : Heap) (b : Bucket) (r : ℕ) → Relinked h (remove_no_lock h b r).0
unfolding remove_no_lock
remove_no_lock-Relinked h b r = elim (Bool-cases (is_outside h b r)) [
  | inl t ↦ rw (t, remove_no_lock) (Relinked-refl h)
  | inr t ↦
      let after = set_prev_of-Relinked (h r).next (h r).prev h in
      let before = Relinked-trans after (set_next_of-Relinked (h r).prev (h r).next _) in
      rw (t, remove_no_lock)
        (Relinked-trans before
          (Relinked-trans (set_prev-Relinked r none _) (set_next-Relinked r none _)))
]

pub append-Relinked : (h : Heap) (b : Bucket) (r : ℕ) → Gives (λ m. Relinked h m.0) (append h b r)
unfolding append
append-Relinked h b r = elim (Bool-cases (not (is_nil (h r).prev) || not (is_nil (h r).next))) [
  | inl t ↦ rw (t, append) tt
  | inr t ↦ elim (Option-cases b.first_request) [
    | inl n ↦ rw (t, append, n) (Relinked-refl h)
    | inr f ↦ elim (Option-cases b.last_request) [
      | inl n ↦ rw (t, append, f.1, n) tt
      | inr l ↦
          rw (t, append, f.1, l.1)
            (Relinked-trans (set_next-Relinked l.0 (some r) h) (set_prev-Relinked r (some l.0) _))
    ]
  ]
]

pub prepend-Relinked : (h : Heap) (b : Bucket) (r : ℕ) → Gives (λ m. Relinked h m.0) (prepend h b r)
unfolding prepend
prepend-Relinked h b r = elim (Option-cases (lookup (req_id (h r).msg.request_id) b.req_index)) [
  | inl n ↦ rw (n, prepend) tt
  | inr s ↦ elim (Bool-cases (is_outside h b r)) [
    | inr t ↦ rw (s.1, prepend, t) (Relinked-refl h)
    | inl t ↦ elim (Option-cases b.first_request) [
      | inl n ↦ rw (s.1, prepend, t, n) (Relinked-refl h)
      | inr f ↦
          rw (s.1, prepend, t, f.1)
            (Relinked-trans (set_prev-Relinked f.0 (some r) h) (set_next-Relinked r (some f.0) _))
    ]
  ]
]

pub append_indexed-Relinked :
    (h : Heap) (b : Bucket) (r : ℕ) → Gives (λ m. Relinked h m.0) (append_indexed h b r)
unfolding append_indexed
append_indexed-Relinked h b r = elim (Option-cases (append h b r)) [
  | inl n ↦ rw (n, append_indexed) tt
  | inr m ↦ rw (m.1, append_indexed) (given (λ m. Relinked h m.0) (append-Relinked h b r) m.1)
]

-- ===== src/Request/Batches/Adding.antt =====
-- Adding a request to the store keeps what is there, and returns a request with the same digest.
use orthrus.Protobufs.{ClientRequest}
use orthrus.Request.Bucket.{Heap, Bucket}
use orthrus.Request.Bucket.Index.{Added, add_no_lock}
use orthrus.Request.Buffer.{Buffer, Verdict}
use orthrus.Request.Buffer as Buffer
use orthrus.Request.Digest.{request_digest}
use orthrus.Request.Batches.{
  RequestConfig, RequestStore, set_bucket, get_buffer, put, verify, add_request, add_again, add,
}
use orthrus.Request.Batches.Kept.{Gives, given, Gives-weaken}
use orthrus.Request.Batches.Digests.{IsBounded, Adds, add_no_lock-Adds}
use orthrus.Prelude.{
  ℕ, zero, suc, ◌<◌, ◌≤◌, ◌≡◌, ◌⊎◌, ◌∙◌, refl, sym, ap, subst, inl, inr, Option, none, some, List,
  [], ◌∷◌, arith, get_elem?, Bool-cases, Option-cases, nothing_there,
}

module _ (config : RequestConfig) where
  abbrev pub digest_of : ClientRequest → List ℕ
  digest_of = request_digest config.hash

  -- Every request has the digest of its message, and the indexes point to requests that were made.
  pub record IsSound (st : RequestStore) : Type 0 where
    pub indexed : (nr : ℕ) (b : Bucket) → get_elem? st.buckets nr ≡ some b → IsBounded st.fresh b
    pub digested : (a : ℕ) → a < st.fresh → (st.heap a).digest ≡ digest_of (st.heap a).msg

  -- The requests that were made keep their messages and digests.
  pub record Grows (st st1 : RequestStore) : Type 0 where
    pub fresh : st.fresh ≤ st1.fresh
    pub same_msg : (a : ℕ) → a < st.fresh → (st1.heap a).msg ≡ (st.heap a).msg
    pub same_digest : (a : ℕ) → a < st.fresh → (st1.heap a).digest ≡ (st.heap a).digest

  pub Grows-refl : (st : RequestStore) → Grows st st
  Grows-refl st = record { fresh = omega arith; same_msg = λ a l. refl; same_digest = λ a l. refl }

  pub Grows-trans : {a b c : RequestStore} → Grows a b → Grows b c → Grows a c
  Grows-trans p q = record {
    fresh = omega (arith, p.fresh, q.fresh);
    same_msg = λ a l. q.same_msg a (omega (arith, p.fresh)) ∙ p.same_msg a l;
    same_digest = λ a l. q.same_digest a (omega (arith, p.fresh)) ∙ p.same_digest a l;
  }

  -- What the addition of a request with this digest leaves and returns.
  pub record Stored (digest : List ℕ) (st : RequestStore) (out : RequestStore × Option ℕ)
      : Type 0 where
    pub sound : IsSound out.0
    pub grows : Grows st out.0
    pub stored : (s : ℕ) → out.1 ≡ some s → (s < (out.0).fresh) × (((out.0).heap s).digest ≡ digest)

  get_elem?-set_bucket :
      (i : ℕ) (new : Bucket) (bs : List Bucket) (k : ℕ) (b : Bucket)
      → get_elem? (set_bucket i new bs) k ≡ some b
      → (get_elem? bs k ≡ some b) ⊎ (new ≡ b)
  unfolding set_bucket
  get_elem?-set_bucket i new [] k b h = inl h
  get_elem?-set_bucket zero new (y ∷ bs) zero b h = inr cc
  get_elem?-set_bucket zero new (y ∷ bs) (suc k) b h = inl h
  get_elem?-set_bucket (suc i) new (y ∷ bs) zero b h = inl h
  get_elem?-set_bucket (suc i) new (y ∷ bs) (suc k) b h = get_elem?-set_bucket i new bs k b h

  put-Stored :
      (nr r : ℕ) (added : Added) (st : RequestStore)
      → IsSound st
      → Adds st.fresh st.heap r added
      → Stored (st.heap r).digest st (put config nr added st, added.stored)
  unfolding put
  put-Stored nr r added st i a = record {
    sound = record {
      indexed = λ k b e. elim (get_elem?-set_bucket nr added.bucket st.buckets k b e) [
        | inl old ↦ i.indexed k b old
        | inr new ↦ subst (IsBounded st.fresh) new a.bounded
      ];
      digested = λ q l.
          ap (λ x. x.digest) (a.relinked.same q)
          ∙ i.digested q l
          ∙ ap (λ x. digest_of x.msg) (sym (a.relinked.same q));
    };
    grows = record {
      fresh = omega arith;
      same_msg = λ q l. ap (λ x. x.msg) (a.relinked.same q);
      same_digest = λ q l. ap (λ x. x.digest) (a.relinked.same q);
    };
    stored = λ s e. ((a.stored s e).0, ap (λ x. x.digest) (a.relinked.same s) ∙ (a.stored s e).1);
  }

  pub verify-digest : (r q : ℕ) (h : Heap) → (verify config r h q).digest ≡ (h q).digest
  unfolding verify
  verify-digest r q h = ground arith

  pub verify-msg : (r q : ℕ) (h : Heap) → (verify config r h q).msg ≡ (h q).msg
  unfolding verify
  verify-msg r q h = ground arith

  verified-IsSound :
      (r : ℕ) (st : RequestStore)
      → IsSound st
      → IsSound (record st { heap = verify config r st.heap })
  verified-IsSound r st i = record {
    indexed = i.indexed;
    digested = λ a l.
        verify-digest r a st.heap ∙ i.digested a l ∙ ap digest_of (sym (verify-msg r a st.heap));
  }

  verified-Grows :
      (r : ℕ) (st : RequestStore) → Grows st (record st { heap = verify config r st.heap })
  verified-Grows r st = record {
    fresh = omega arith;
    same_msg = λ a l. verify-msg r a st.heap;
    same_digest = λ a l. verify-digest r a st.heap;
  }

  -- What is stored later is stored from before.
  pub later-Stored :
      (d e : List ℕ) {st st1 : RequestStore} {out : RequestStore × Option ℕ}
      → e ≡ d
      → Grows st st1
      → Stored e st1 out
      → Stored d st out
  later-Stored d e q g s = record {
    sound = s.sound;
    grows = Grows-trans g s.grows;
    stored = λ x p. ((s.stored x p).0, (s.stored x p).1 ∙ q);
  }

  add_request-Stored :
      (nr : ℕ) (b : Bucket) (r : ℕ) (st : RequestStore)
      → r < st.fresh
      → IsBounded st.fresh b
      → IsSound st
      → Gives (Stored (st.heap r).digest st) (add_request config nr b r st)
  unfolding add_request
  add_request-Stored nr b r st l i s =
      elim (Option-cases (add_no_lock config.sign config.early st.heap b r)) [
        | inl n ↦ rw (n, add_request) tt
        | inr a ↦
            rw (a.1, add_request)
              (put-Stored nr r a.0 st s (
                given (Adds st.fresh st.heap r)
                  (add_no_lock-Adds config.sign config.early st.fresh st.heap b r l i) a.1))
      ]

  add_again-Stored :
      (nr : ℕ) (b : Bucket) (r : ℕ) (st : RequestStore)
      → r < st.fresh
      → IsBounded st.fresh b
      → IsSound st
      → Gives (Stored (st.heap r).digest st) (add_again config nr b r st)
  unfolding add_again
  add_again-Stored nr b r st l i s =
      elim (Option-cases (add_no_lock config.sign config.early st.heap b r)) [
        | inl n ↦ rw (n, add_again) tt
        | inr a ↦
            let adds =
              given (Adds st.fresh st.heap r)
                (add_no_lock-Adds config.sign config.early st.fresh st.heap b r l i) a.1 in
            let first = put-Stored nr r a.0 st s adds in
            elim (Bool-cases (a.0).retry) [
              | inr t ↦ rw (a.1, add_again, t) first
              | inl t ↦
                  let checked : RequestStore = record (put config nr a.0 st) {
                    heap = verify config r (a.0).heap;
                  } in
                  let grown = Grows-trans first.grows (verified-Grows r (put config nr a.0 st)) in
                  rw (a.1, add_again, t)
                    (Gives-weaken (Stored (checked.heap r).digest checked)
                      (Stored (st.heap r).digest st) (add_request config nr (a.0).bucket r checked)
                      (λ out o. later-Stored _ _ (grown.same_digest r l) grown o)
                      (add_request-Stored nr (a.0).bucket r checked l adds.bounded
                        (verified-IsSound r (put config nr a.0 st) first.sound)))
            ]
      ]

  unstored : (d : List ℕ) (st : RequestStore) → IsSound st → Stored d st (st, none)
  unstored d st i = record {
    sound = i;
    grows = Grows-refl st;
    stored = λ s e. elim (nothing_there e) [ ];
  }

  pub add-Stored :
      (r : ℕ) (st : RequestStore)
      → r < st.fresh
      → IsSound st
      → Gives (Stored (st.heap r).digest st) (add config r st)
  unfolding add
  add-Stored r st l s =
      let msg = (st.heap r).msg in
      by_verdict
        (Buffer.add config.window_size (get_buffer msg.request_id.client_id st.buffers) msg)
    where
      by_verdict :
          (v : Verdict)
          → Gives (Stored (st.heap r).digest st) (elim v [
            | Verdict.backlogged ↦ some (st, none)
            | Verdict.ignored ↦ some (st, none)
            | Verdict.within ↦ elim (get_elem? st.buckets (st.heap r).bucket) [
              | none ↦ none
              | some b ↦ add_again config (st.heap r).bucket b r st
            ]
          ])
      by_verdict Verdict.backlogged = unstored _ st s
      by_verdict Verdict.ignored = unstored _ st s
      by_verdict Verdict.within = elim (Option-cases (get_elem? st.buckets (st.heap r).bucket)) [
        | inl n ↦ rw n tt
        | inr b ↦ rw b.1 (add_again-Stored (st.heap r).bucket b.0 r st l (s.indexed _ _ b.1) s)
      ]
